-- ===== src/Bitmap/View.antt =====
-- What a bitmap stands for: its bits by number, and the invariant of os_bitmap_t.
use dreamos_cversion.Base.{
  ℕ, ◌+◌, ◌-◌, ◌*◌, ◌/◌, ◌%◌, ◌<◌, ◌≤◌, ◌≡◌, bit_and, bit_or, max, arith, ◌==◌, if◌then◌else◌,
  length, get_or-set_self, get_or-set_ne, length-set,
}
use dreamos_cversion.Word.{size_mod, not_size, shl, shr}
use dreamos_cversion.Word.Bits.{
  bit, bit-lt, bit_and-ones, shr-bit, bit-bit_and, bit-bit_or, bit-not_size, bit-shl,
}
use dreamos_cversion.Bitmap.{Bitmap, group, group_id, index_id, write_group}

-- Bit number `j`.
unfoldable pub bit_at : Bitmap → ℕ → ℕ
bit_at b j = bit (group b (j / 64)) (j % 64)

-- The capacity is the size rounded up to whole groups, the array has these groups, no arithmetic of
-- the loops wraps, and each group is a 64-bit word.
pub record IsValid (b : Bitmap) : Type 0 where
  pub sized : b.size ≤ b.capacity
  pub tight : b.capacity < b.size + 64
  pub aligned : b.capacity % 64 ≡ 0
  pub grouped : b.capacity ≤ 64 * length b.memory
  pub small : b.capacity ≤ size_mod - 64
  pub words : (g : ℕ) → group b g < size_mod

pub index_id-mod : (x : ℕ) → index_id x ≡ x % 64
index_id-mod x = bit_and-ones 6 x

-- Reading a bit the way the code does.
pub read-bit_at :
    (b : Bitmap) (i : ℕ) → bit_and (shr (group b (group_id i)) (index_id i)) 1 ≡ bit_at b i
unfolding bit_at
read-bit_at b i = rw (index_id-mod i) (shr-bit (group b (i / 64)) (i % 64))

pub group-write :
    (b : Bitmap) (g w h : ℕ)
    → g < length b.memory
    → group (write_group b g w) h ≡ (if g == h then w else group b h)
group-write b g w h lt =
    ground (arith, get_or-set_self b.memory g w 0 lt, get_or-set_ne b.memory g h w 0)

-- The word that replaces a group keeps the invariant.
pub write-IsValid :
    {b : Bitmap} (g w : ℕ)
    → IsValid b
    → g < length b.memory
    → w < size_mod
    → IsValid (write_group b g w)
write-IsValid {b} g w v lt small = record {
  sized = v.sized;
  tight = v.tight;
  aligned = v.aligned;
  grouped = rw (length-set b.memory g w) v.grouped;
  small = v.small;
  words = λ h. ground (arith, group-write b g w h lt, v.words h);
}

-- A word that differs from the group in one bit changes that bit alone.
pub bit_at-write :
    (b : Bitmap) (id w value : ℕ)
    → id / 64 < length b.memory
    → ((k : ℕ) → k < 64 → bit w k ≡ (if id % 64 == k then value else bit (group b (id / 64)) k))
    → (j : ℕ) → bit_at (write_group b (id / 64) w) j ≡ (if id == j then value else bit_at b j)
unfolding bit_at
bit_at-write b id w value lt h j =
    ground (arith, group-write b (id / 64) w (j / 64) lt, h (j % 64) (omega arith))

-- Clearing and setting one bit of a word.
pub bit-clear :
    (w i k : ℕ)
    → i < 64
    → k < 64
    → bit (bit_and w (not_size (shl 1 i))) k ≡ (if i == k then 0 else bit w k)
bit-clear w i k hi hk = ground (
  arith,
  bit-bit_and w (not_size (shl 1 i)) k,
  bit-not_size (shl 1 i) k,
  bit-shl 1 i k,
  bit-lt w k,
)

pub bit-put :
    (w v i k : ℕ)
    → v < 2
    → i < 64
    → bit (bit_or w (shl v i)) k ≡ (if i == k then max (bit w i) v else bit w k)
bit-put w v i k hv hi = ground (arith, bit-bit_or w (shl v i) k, bit-shl v i k)
