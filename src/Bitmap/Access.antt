-- ===== src/Bitmap/Access.antt =====
-- os_bitmap_get_bit and os_bitmap_set_bit against the bits that the bitmap stands for.
use dreamos_cversion.Base.{
  ℕ, ◌/◌, ◌%◌, ◌<◌, ◌≡◌, refl, Option, none, some, bit_and, bit_or, arith, ltb, ◌==◌, if◌then◌else◌,
  length, get_or-set_self, set-set_self,
}
use dreamos_cversion.Word.{size_mod, not_size, shl}
use dreamos_cversion.Word.Bits.{bit, bit_and-ones, bit_and-lt, bit_or-lt}
use dreamos_cversion.Bitmap.{Bitmap, group, write_group, get_bit, set_bit}
use dreamos_cversion.Bitmap.View.{
  bit_at, IsValid, index_id-mod, read-bit_at, write-IsValid, bit_at-write, bit-clear, bit-put,
}

-- `b'` differs from `b` at most in its bits, which `bits` gives.
pub record Rewritten (b b' : Bitmap) (bits : ℕ → ℕ) : Type 0 where
  pub valid : IsValid b'
  pub same_size : b'.size ≡ b.size
  pub at : (j : ℕ) → bit_at b' j ≡ bits j

pub group_in : {b : Bitmap} (id : ℕ) → IsValid b → id < b.size → id / 64 < length b.memory
group_in id v h = ground arith

pub get_bit-bit_at :
    (b : Bitmap) (id : ℕ) → get_bit b id ≡ (if ltb id b.size then some (bit_at b id) else none)
unfolding get_bit
get_bit-bit_at b id = ground (arith, read-bit_at b id)

-- The word that os_bitmap_set_bit leaves in the group.
abbrev put_bit : ℕ → ℕ → ℕ → ℕ
put_bit w i value = bit_or (bit_and w (not_size (shl 1 i))) (shl (bit_and value 1) i)

put_bit-lt : (w i value : ℕ) → w < size_mod → put_bit w i value < size_mod
put_bit-lt w i value h =
    bit_or-lt 64 (bit_and w (not_size (shl 1 i))) (shl (bit_and value 1) i)
      (bit_and-lt 64 w (not_size (shl 1 i)) h) (omega arith)

bit-put_bit :
    (w i value k : ℕ)
    → i < 64
    → k < 64
    → bit (put_bit w i value) k ≡ (if i == k then value % 2 else bit w k)
bit-put_bit w i value k hi hk = ground (
  arith,
  bit-put (bit_and w (not_size (shl 1 i))) (bit_and value 1) i k,
  bit-clear w i k hi hk,
  bit-clear w i i hi hi,
  bit_and-ones 1 value,
)

set_bit-eq :
    {b : Bitmap} (id value : ℕ)
    → IsValid b
    → id < b.size
    → set_bit b id value
      ≡ some (write_group b (id / 64) (put_bit (group b (id / 64)) (id % 64) value))
unfolding set_bit
set_bit-eq {b} id value v h =
    let lt : id / 64 < length b.memory = group_in id v h in
    let w = bit_and (group b (id / 64)) (not_size (shl 1 (id % 64))) in
    rw (index_id-mod id, get_or-set_self b.memory (id / 64) w 0 lt, set-set_self) (ground arith)

-- Within the size, setting a bit succeeds, keeps the invariant, and changes that bit alone.
pub set_bit-Rewritten :
    {b : Bitmap} (id value : ℕ)
    → IsValid b
    → id < b.size
    → (b' : Bitmap) × (set_bit b id value ≡ some b')
      × Rewritten b b' (λ j. if id == j then value % 2 else bit_at b j)
set_bit-Rewritten {b} id value v h =
    let lt : id / 64 < length b.memory = group_in id v h in
    let w = put_bit (group b (id / 64)) (id % 64) value in
    (
      write_group b (id / 64) w,
      set_bit-eq id value v h,
      record {
        valid =
            write-IsValid (id / 64) w v lt
              (put_bit-lt (group b (id / 64)) (id % 64) value (v.words (id / 64)));
        same_size = refl;
        at =
            bit_at-write b id w (value % 2) lt
              (λ k hk. bit-put_bit (group b (id / 64)) (id % 64) value k (omega arith) hk);
      },
    )

-- What is read after a write, at every bit.
abbrev pub get_from : Option Bitmap → ℕ → Option ℕ
get_from none j = none
get_from (some b) j = get_bit b j

-- After bit `id` of a valid bitmap, within its size, is set to `value`, reading any bit `j` gives
-- the low bit of `value` at `id`, what was there before at another bit within the size, and the
-- failed assertion outside the size.
pub get_bit-set_bit :
    {b : Bitmap} (id value j : ℕ)
    → IsValid b
    → id < b.size
    → get_from (set_bit b id value) j ≡ (if id == j then some (value % 2) else get_bit b j)
get_bit-set_bit {b} id value j v h =
    let (b', done, r) = set_bit-Rewritten id value v h in
    rw done (ground (arith, get_bit-bit_at b j, get_bit-bit_at b' j, r.at j))
