-- ===== src/Bitmap/Find.antt =====
-- os_bitmap_find_some_ones and os_bitmap_find_some_zeros.
use dreamos_cversion.Base.{
  ℕ, zero, suc, ◌+◌, ◌-◌, ◌/◌, ◌%◌, ◌<◌, ◌≤◌, ◌≡◌, refl, inl, inr, Bool, true, false, ◌&&◌, Option,
  none, some, bit_and, arith, ltb, leb, ◌==◌, if◌then◌else◌, Bool-cases, dec_lt,
}
use dreamos_cversion.Word.{size_mod, number_max, add_size, sub_size, shr}
use dreamos_cversion.Word.Bits.{bit, bit-number_max, bit-zero}
use dreamos_cversion.Bitmap.{
  Bitmap, group, group_id, index_id, group_size, find_loop, all_ones, all_zeros, is_one, is_zero,
  find_some_ones, find_some_zeros,
}
use dreamos_cversion.Bitmap.View.{bit_at, IsValid, index_id-mod, read-bit_at}

-- `count` bits from `s` on pass the test.
abbrev pub Run : (ℕ → Bool) → Bitmap → ℕ → ℕ → Type 0
Run hit b s count = (j : ℕ) → s ≤ j → j < s + count → hit (bit_at b j) ≡ true

-- What a search for a run of `count` from `start` returns: the least position of a run, of which
-- the part below `size` is promised; or number_max, if no run lies within the size.
pub data FindResult (hit : ℕ → Bool) (b : Bitmap) (start count : ℕ) : ℕ → Type 0 where
  found :
      {r : ℕ}
      → start ≤ r
      → r < b.size
      → r + count ≤ b.capacity
      → Run hit b r count
      → ((s : ℕ) → start ≤ s → s < r → ¬ (Run hit b s count))
      → FindResult hit b start count r
  missing :
      {r : ℕ}
      → r ≡ number_max
      → ((s : ℕ) → start ≤ s → s + count ≤ b.size → ¬ (Run hit b s count))
      → FindResult hit b start count r

abbrev Returns : (ℕ → Type 0) → Option ℕ → Type 0
Returns P none = ⊥
Returns P (some r) = P r

module _ (whole hit : ℕ → Bool) (b : Bitmap) (start count : ℕ) where
  -- The state of the loop between two rounds.
  record Scan (i ret remained : ℕ) : Type 0 where
    from : start ≤ ret
    reached : ret + count ≡ i + remained
    left : 0 < remained
    most : remained ≤ count
    run : (j : ℕ) → ret ≤ j → j < i → hit (bit_at b j) ≡ true
    none_before : (s : ℕ) → start ≤ s → s < ret → ¬ (Run hit b s count)

  module _ (valid : IsValid b) (small : count < size_mod)
      (whole_hit : (w k : ℕ) → whole w ≡ true → k < 64 → hit (bit w k) ≡ true) where
    group_hit :
        (i j : ℕ)
        → i % 64 ≡ 0
        → whole (group b (i / 64)) ≡ true
        → i ≤ j
        → j < i + 64
        → hit (bit_at b j) ≡ true
    unfolding bit_at
    group_hit i j aligned all lo hi =
        let same : j / 64 ≡ i / 64 = omega arith in
        rw same (whole_hit (group b (i / 64)) (j % 64) all (omega arith))

    -- A run that grows by `n` bits that pass.
    grown :
        {i ret remained : ℕ} (n : ℕ)
        → Scan i ret remained
        → ((j : ℕ) → i ≤ j → j < i + n → hit (bit_at b j) ≡ true)
        → (j : ℕ) → ret ≤ j
        → j < i + n
        → hit (bit_at b j) ≡ true
    grown {i} n sc more j lo hi = elim (dec_lt j i) [
      | yes before ↦ sc.run j lo before
      | no after ↦ more j (omega arith) hi
    ]

    Scan-grow :
        {i ret remained : ℕ} (n : ℕ)
        → Scan i ret remained
        → n < remained
        → ((j : ℕ) → i ≤ j → j < i + n → hit (bit_at b j) ≡ true)
        → Scan (i + n) ret (remained - n)
    Scan-grow n sc lt more = record {
      from = sc.from;
      reached = omega (arith, sc.reached);
      left = omega arith;
      most = omega (arith, sc.most);
      run = grown n sc more;
      none_before = sc.none_before;
    }

    found_grow :
        {i ret remained : ℕ} (n : ℕ)
        → Scan i ret remained
        → n ≡ remained
        → i < b.size
        → i + n ≤ b.capacity
        → ((j : ℕ) → i ≤ j → j < i + n → hit (bit_at b j) ≡ true)
        → FindResult hit b start count ret
    found_grow {i} n sc all lt fits more =
        found sc.from (omega (arith, sc.reached, sc.most)) (omega (arith, sc.reached))
          (λ j lo hi. grown n sc more j lo (omega (arith, sc.reached))) sc.none_before

    -- A bit that fails ends every run that has reached it.
    Scan-restart :
        {i ret remained : ℕ}
        → Scan i ret remained
        → hit (bit_at b i) ≡ false
        → Scan (i + 1) (i + 1) count
    Scan-restart {i} {ret} sc fails = record {
      from = omega (arith, sc.from, sc.reached, sc.most);
      reached = refl;
      left = omega (arith, sc.left, sc.most);
      most = omega arith;
      run = λ j lo hi. absurd (omega arith);
      none_before = λ s lo hi run. elim (dec_lt s ret) [
        | yes before ↦ sc.none_before s lo before run
        | no after ↦ cc (fails, run i (omega arith) (omega (arith, sc.reached, sc.left)))
      ];
    }

    exhausted :
        {i ret remained : ℕ}
        → Scan i ret remained
        → b.size ≤ i
        → FindResult hit b start count number_max
    exhausted {i} {ret} sc over =
        missing refl λ s lo fits run. sc.none_before s lo (omega (arith, sc.reached, sc.left)) run

    -- What the loop does at a bit within the size, with `loop` for its later rounds.
    abbrev body : (loop : ℕ → ℕ → ℕ → Option ℕ) → (i ret remained : ℕ) → Option ℕ
    body loop i ret remained =
        if (index_id i == 0) && leb group_size remained && whole (group b (group_id i))
        then (if sub_size remained group_size == 0
            then some ret
            else loop (add_size i group_size) ret (sub_size remained group_size))
        else if hit (bit_and (shr (group b (group_id i)) (index_id i)) 1)
        then (if sub_size remained 1 == 0
            then some ret
            else loop (add_size i 1) ret (sub_size remained 1))
        else loop (add_size i 1) (add_size i 1) count

    -- The two ways in which a group or a bit that passes goes on.
    passes :
        (loop : ℕ → ℕ → ℕ → Option ℕ) (n : ℕ) {i ret remained : ℕ}
        → 0 < n
        → n ≤ remained
        → i < b.size
        → i + n ≤ b.capacity
        → Scan i ret remained
        → ((j : ℕ) → i ≤ j → j < i + n → hit (bit_at b j) ≡ true)
        → ((i' ret' remained' : ℕ)
            → i < i'
            → Scan i' ret' remained'
            → Returns (FindResult hit b start count) (loop i' ret' remained'))
        → Returns (FindResult hit b start count) (
            if sub_size remained n == 0
            then some ret
            else loop (add_size i n) ret (sub_size remained n))
    passes loop n {i} {ret} {remained} pos le inside fits sc more next =
        let sub : sub_size remained n ≡ remained - n = omega (arith, sc.most, small) in
        let add : add_size i n ≡ i + n = omega (arith, valid.small) in
        rw (sub, add)
          (elim (Bool-cases (remained - n == 0)) [
            | inl last ↦ rw last (found_grow n sc (ground arith) inside fits more)
            | inr rest ↦
                rw rest (
                  next (i + n) ret (remained - n) (omega arith)
                    (Scan-grow n sc (ground arith) more))
          ])

    body-FindResult :
        (loop : ℕ → ℕ → ℕ → Option ℕ) (i ret remained : ℕ)
        → i < b.size
        → Scan i ret remained
        → ((i' ret' remained' : ℕ)
            → i < i'
            → Scan i' ret' remained'
            → Returns (FindResult hit b start count) (loop i' ret' remained'))
        → Returns (FindResult hit b start count) (body loop i ret remained)
    body-FindResult loop i ret remained inside sc next =
        elim (Bool-cases
          (index_id i == 0 && leb group_size remained && whole (group b (group_id i)))) [
            | inl fast ↦
                let aligned : i % 64 ≡ 0 = ground (arith, index_id-mod i) in
                rw fast (
                  passes loop 64 (omega arith) (ground arith) inside
                    (omega (arith, valid.aligned, valid.sized)) sc
                    (λ j lo hi. group_hit i j aligned (ground arith) lo hi) next)
            | inr slow ↦
                rw (slow, read-bit_at b i)
                  (elim (Bool-cases (hit (bit_at b i))) [
                    | inl ok ↦ rw ok (
                        passes loop 1 (omega arith) (omega (arith, sc.left)) inside
                          (omega (arith, valid.sized)) sc
                          (λ j lo hi. let same : j ≡ i = omega arith in rw same ok) next)
                    | inr bad ↦
                        let step : add_size i 1 ≡ i + 1 = omega (arith, valid.small, valid.sized) in
                        rw (bad, step)
                          (next (i + 1) (i + 1) count (omega arith) (Scan-restart sc bad))
                  ])
          ]

    -- The fuel is more than the rounds that are left.
    find_loop-FindResult :
        (fuel i ret remained : ℕ)
        → b.size - i < fuel
        → Scan i ret remained
        → Returns (FindResult hit b start count) (find_loop whole hit b count fuel i ret remained)
    unfolding find_loop
    find_loop-FindResult zero i ret remained enough sc = elim enough [ ]
    find_loop-FindResult (suc fuel) i ret remained enough sc = elim (Bool-cases (ltb i b.size)) [
      | inr over ↦ rw over (exhausted sc (ground arith))
      | inl inside ↦ rw inside (
          body-FindResult (find_loop whole hit b count fuel) i ret remained (ground arith) sc
            (λ i' ret' remained' lt. find_loop-FindResult fuel i' ret' remained' (ground arith)))
    ]

    Scan-start : 0 < count → Scan start start count
    Scan-start pos = record {
      from = omega arith;
      reached = refl;
      left = pos;
      most = omega arith;
      run = λ j lo hi. absurd (omega arith);
      none_before = λ s lo hi. absurd (omega arith);
    }

    find-FindResult :
        0 < count
        → (r : ℕ) × (find_loop whole hit b count (suc b.size) start start count ≡ some r)
          × FindResult hit b start count r
    find-FindResult pos =
        returned _
          (find_loop-FindResult (suc b.size) start start count (omega arith) (Scan-start pos))
      where
        returned :
            (o : Option ℕ)
            → Returns (FindResult hit b start count) o
            → (r : ℕ) × (o ≡ some r) × FindResult hit b start count r
        returned none h = elim h [ ]
        returned (some r) h = (r, refl, h)

ones_hit : (w k : ℕ) → all_ones w ≡ true → k < 64 → is_one (bit w k) ≡ true
ones_hit w k h lt = let full : w ≡ number_max = ground arith in rw (full, bit-number_max k lt)

zeros_hit : (w k : ℕ) → all_zeros w ≡ true → k < 64 → is_zero (bit w k) ≡ true
zeros_hit w k h lt = let empty : w ≡ 0 = ground arith in rw (empty, bit-zero k)

module _ {b : Bitmap} (start_id count : ℕ) (valid : IsValid b) (pos : 0 < count)
    (small : count < size_mod) where
  -- On a valid bitmap and for a count that is not 0 and fits os_size_t, os_bitmap_find_some_ones
  -- returns: the least position from `start_id` on at which `count` ones begin, which lies within
  -- the size, its run within the capacity; or number_max, if no run of `count` ones from
  -- `start_id` on lies within the size.
  pub find_some_ones-FindResult :
      (r : ℕ) × (find_some_ones b start_id count ≡ some r) × FindResult is_one b start_id count r
  unfolding find_some_ones
  find_some_ones-FindResult =
      find-FindResult all_ones is_one b start_id count valid small ones_hit pos

  -- On a valid bitmap and for a count that is not 0 and fits os_size_t, os_bitmap_find_some_zeros
  -- returns: the least position from `start_id` on at which `count` zeros begin, which lies
  -- within the size, its run within the capacity; or number_max, if no run of `count` zeros from
  -- `start_id` on lies within the size.
  pub find_some_zeros-FindResult :
      (r : ℕ) × (find_some_zeros b start_id count ≡ some r) × FindResult is_zero b start_id count r
  unfolding find_some_zeros
  find_some_zeros-FindResult =
      find-FindResult all_zeros is_zero b start_id count valid small zeros_hit pos
