-- ===== src/Bitmap/SetBits.antt =====
-- os_bitmap_set_bits.
use dreamos_cversion.Base.{
  ℕ, zero, suc, ◌+◌, ◌-◌, ◌/◌, ◌%◌, ◌<◌, ◌≤◌, ◌≡◌, refl, ◌∙◌, inl, inr, true, ◌&&◌, Option, some,
  bit_and, bit_or, arith, ltb, leb, ◌==◌, if◌then◌else◌, Bool-cases,
}
use dreamos_cversion.Word.{size_mod, number_max, add_size, sub_size, not_size, shl}
use dreamos_cversion.Word.Bits.{bit, bit-lt, bit-number_max, bit-zero, bit_and-lt, bit_or-lt}
use dreamos_cversion.Bitmap.{Bitmap, group, group_size, write_group, set_loop, set_bits}
use dreamos_cversion.Bitmap.View.{
  bit_at, IsValid, index_id-mod, group-write, write-IsValid, bit_at-write, bit-clear, bit-put,
}
use dreamos_cversion.Bitmap.Access.{Rewritten, group_in}

-- The bit that the code writes for `value`.
abbrev pub as_bit : ℕ → ℕ
as_bit value = if value == 0 then 0 else 1

-- The bits of `b` with those of [i, i + n) replaced.
abbrev pub ranged : Bitmap → (i n value : ℕ) → ℕ → ℕ
ranged b i n value j = if leb i j && ltb j (i + n) then as_bit value else bit_at b j

-- The word that a whole group gets, and the word that a group gets when one bit is written.
abbrev whole_word : ℕ → ℕ
whole_word value = if value == 0 then 0 else number_max

abbrev one_bit : ℕ → ℕ → ℕ → ℕ
one_bit value w i = if value == 0 then bit_and w (not_size (shl 1 i)) else bit_or w (shl 1 i)

bit-whole_word : (value k : ℕ) → k < 64 → bit (whole_word value) k ≡ as_bit value
bit-whole_word value k h = ground (arith, bit-number_max k h, bit-zero k)

bit-one_bit :
    (value w i k : ℕ)
    → i < 64
    → k < 64
    → bit (one_bit value w i) k ≡ (if i == k then as_bit value else bit w k)
bit-one_bit value w i k hi hk =
    ground (arith, bit-clear w i k hi hk, bit-put w 1 i k (omega arith) hi, bit-lt w k)

one_bit-lt : (value w i : ℕ) → w < size_mod → one_bit value w i < size_mod
one_bit-lt value w i h =
    ground (arith, bit_and-lt 64 w (not_size (shl 1 i)) h, bit_or-lt 64 w (shl 1 i) h)

module _ (value : ℕ) {b : Bitmap} (i : ℕ) (v : IsValid b) (inside : i < b.size) where
  group-Rewritten :
      i % 64 ≡ 0 → Rewritten b (write_group b (i / 64) (whole_word value)) (ranged b i 64 value)
  unfolding bit_at
  group-Rewritten aligned = record {
    valid = write-IsValid (i / 64) (whole_word value) v (group_in i v inside) (ground arith);
    same_size = refl;
    at = λ j. ground (
      arith,
      group-write b (i / 64) (whole_word value) (j / 64) (group_in i v inside),
      bit-whole_word value (j % 64) (omega arith),
    );
  }

  bit-Rewritten :
      Rewritten b
        (write_group b (i / 64) (one_bit value (group b (i / 64)) (i % 64)))
        (ranged b i 1 value)
  bit-Rewritten =
      let w = one_bit value (group b (i / 64)) (i % 64) in
      record {
        valid =
            write-IsValid (i / 64) w v (group_in i v inside)
              (one_bit-lt value (group b (i / 64)) (i % 64) (v.words (i / 64)));
        same_size = refl;
        at = λ j. ground (
          arith,
          bit_at-write b i w (as_bit value) (group_in i v inside)
              (λ k hk. bit-one_bit value (group b (i / 64)) (i % 64) k (omega arith) hk) j,
        );
      }

-- Two neighbouring ranges make one.
Rewritten-join :
    (value : ℕ) {b b' b'' : Bitmap} (i n m : ℕ)
    → Rewritten b b' (ranged b i n value)
    → Rewritten b' b'' (ranged b' (i + n) m value)
    → Rewritten b b'' (ranged b i (n + m) value)
Rewritten-join value i n m r s = record {
  valid = s.valid;
  same_size = s.same_size ∙ r.same_size;
  at = λ j. ground (arith, r.at j, s.at j);
}

-- `o` is the bitmap with the range written.
abbrev pub Writes : Bitmap → (i n value : ℕ) → Option Bitmap → Type 0
Writes b i n value o = (b' : Bitmap) × (o ≡ some b') × Rewritten b b' (ranged b i n value)

-- One write of the loop, and the rounds after it.
write_on :
    (value : ℕ) (loop : Bitmap → ℕ → ℕ → Option Bitmap) {b b' : Bitmap} (i n remained : ℕ)
    → IsValid b
    → 0 < n
    → n ≤ remained
    → i + remained ≤ b.size
    → Rewritten b b' (ranged b i n value)
    → ((j m : ℕ) → i < j → 0 < m → j + m ≤ b'.size → Writes b' j m value (loop b' j m))
    → Writes b i remained value
        (if sub_size remained n == 0 then some b' else loop b' (add_size i n) (sub_size remained n))
write_on value loop {b} {b'} i n remained v pos le fits r next =
    let sub : sub_size remained n ≡ remained - n = omega (arith, v.sized, v.small) in
    let add : add_size i n ≡ i + n = omega (arith, v.sized, v.small) in
    rw (sub, add)
      (elim (Bool-cases (remained - n == 0)) [
        | inl last ↦ let all : n ≡ remained = ground arith in rw last (b', refl, rw (← all) r)
        | inr rest ↦
            let (b'', done, s) =
              next (i + n) (remained - n) (omega arith) (ground arith)
                (ground (arith, r.same_size)) in
            let all : n + (remained - n) ≡ remained = omega arith in
            rw rest (b'', done, rw all at (Rewritten-join value i n (remained - n) r s))
      ])

set_loop-Writes :
    (value fuel : ℕ) (b : Bitmap) (i remained : ℕ)
    → IsValid b
    → b.size - i < fuel
    → 0 < remained
    → i + remained ≤ b.size
    → Writes b i remained value (set_loop value fuel b i remained)
unfolding set_loop
set_loop-Writes value zero b i remained v enough pos fits = elim enough [ ]
set_loop-Writes value (suc fuel) b i remained v enough pos fits =
    let inside : ltb i b.size ≡ true = ground arith in
    let later =
      λ (b' : Bitmap) (bits : ℕ → ℕ) (r : Rewritten b b' bits) (j m : ℕ) (lt : i < j) (p : 0 < m)
          (q : j + m ≤ b'.size).
        set_loop-Writes value fuel b' j m r.valid (omega (arith, r.same_size)) p q in
    let by_group = λ (e : i % 64 ≡ 0). group-Rewritten value i v (omega arith) e in
    let by_bit = bit-Rewritten value i v (omega arith) in
    rw (inside, index_id-mod i)
      (elim (Bool-cases (i % 64 == 0 && leb group_size remained)) [
        | inl fast ↦ rw fast (
            write_on value (set_loop value fuel) i 64 remained v (omega arith) (ground arith) fits
              (by_group (ground arith)) (later _ _ (by_group (ground arith))))
        | inr slow ↦ rw slow (
            write_on value (set_loop value fuel) i 1 remained v (omega arith) (omega arith) fits
              by_bit (later _ _ by_bit))
      ])

-- On a valid bitmap, for a count that is not 0 and a range within the size, os_bitmap_set_bits
-- returns, keeps the invariant and the size, and leaves every bit of the range at 0 if `value` is
-- 0 and at 1 otherwise, and every other bit as it was.
pub set_bits-Writes :
    {b : Bitmap} (start_id count value : ℕ)
    → IsValid b
    → 0 < count
    → start_id + count ≤ b.size
    → Writes b start_id count value (set_bits b start_id count value)
unfolding set_bits
set_bits-Writes {b} start_id count value v pos fits =
    let ok : leb (add_size start_id count) b.size ≡ true = ground (arith, v.sized, v.small) in
    rw ok (set_loop-Writes value (suc b.size) b start_id count v (omega arith) pos fits)
