-- ===== src/Bitmap/Create.antt =====
-- os_bitmap_create and os_bitmap_remove.
use dreamos_cversion.Base.{
  ℕ, zero, suc, ◌+◌, ◌-◌, ◌*◌, ◌/◌, ◌%◌, ◌<◌, ◌≤◌, ◌≡◌, refl, Bool, true, false, Option, none, some,
  List, [], ◌∷◌, arith, ltb, ◌==◌, if◌then◌else◌, length, get_or,
}
use dreamos_cversion.Word.{size_mod, number_max, align_up}
use dreamos_cversion.Word.Bits.{bit-number_max, bit-zero}
use dreamos_cversion.Word.Align.{align_up-eq}
use dreamos_cversion.Bitmap.{
  Bitmap, created, memset_groups, create_request, create_clears, create_in, create,
}
use dreamos_cversion.Bitmap.View.{bit_at, IsValid}
use dreamos_cversion.Bitmap.SetBits.{as_bit}

abbrev default_word : ℕ → ℕ
default_word value = if value == 0 then 0 else number_max

-- What the block holds after its first `n` groups have become `w`.
memset_groups-eq :
    (xs : List ℕ) (w n : ℕ)
    → n ≤ length xs
    → (ys : List ℕ) × (memset_groups xs w n ≡ some ys)
      × (length ys ≡ length xs)
      × ((g : ℕ) → get_or ys g 0 ≡ (if ltb g n then w else get_or xs g 0))
unfolding memset_groups
memset_groups-eq xs w zero h = (xs, refl, refl, λ g. ground arith)
memset_groups-eq [] w (suc n) h = elim h [ ]
memset_groups-eq (x ∷ xs) w (suc n) h =
    let (ys, e, l, at) = memset_groups-eq xs w n (omega arith) in
    (w ∷ ys, rw e, omega arith, read ys at)
  where
    read :
        (ys : List ℕ)
        → ((g : ℕ) → get_or ys g 0 ≡ (if ltb g n then w else get_or xs g 0))
        → (g : ℕ) → get_or (w ∷ ys) g 0 ≡ (if ltb g (suc n) then w else get_or (x ∷ xs) g 0)
    read ys at zero = ground arith
    read ys at (suc g) = ground (arith, at g)

memset_groups_overrun : (xs : List ℕ) (w n : ℕ) → length xs < n → memset_groups xs w n ≡ none
unfolding memset_groups
memset_groups_overrun xs w zero h = elim h [ ]
memset_groups_overrun [] w (suc n) h = refl
memset_groups_overrun (x ∷ xs) w (suc n) h = rw (memset_groups_overrun xs w n (omega arith))

-- The capacity for `bits` bits: whole groups.
capacity-eq : (bits : ℕ) → bits ≤ size_mod - 64 → align_up bits 64 ≡ (bits + 63) / 64 * 64
capacity-eq bits h = align_up-eq 6 bits (omega arith) (omega arith)

clears-eq : (bits : ℕ) → bits ≤ size_mod - 64 → create_clears bits / 8 ≡ (bits + 63) / 64
clears-eq bits h = rw (capacity-eq bits h) (omega arith)

-- A block of enough groups becomes a valid bitmap with every bit at its default.
create_in-IsValid :
    (bits : ℕ) (block : List ℕ) (own : Bool) (default_value : ℕ)
    → bits ≤ size_mod - 64
    → bits ≤ 64 * length block
    → ((g : ℕ) → get_or block g 0 < size_mod)
    → (b : Bitmap) × (create_in bits block own default_value ≡ some (created b))
      × IsValid b
      × (b.size ≡ bits)
      × (b.allocated ≡ own)
      × ((j : ℕ) → j < bits → bit_at b j ≡ as_bit default_value)
unfolding create_in bit_at
create_in-IsValid bits block own value small room words =
    let few : (bits + 63) / 64 ≤ length block = omega arith in
    filled (memset_groups-eq block (default_word value) ((bits + 63) / 64) few)
  where
    filled :
        (ys : List ℕ) × (memset_groups block (default_word value) ((bits + 63) / 64) ≡ some ys)
          × (length ys ≡ length block)
          × ((g : ℕ)
              → get_or ys g 0
                ≡ (if ltb g ((bits + 63) / 64) then default_word value else get_or block g 0))
        → (b : Bitmap) × (create_in bits block own value ≡ some (created b))
          × IsValid b
          × (b.size ≡ bits)
          × (b.allocated ≡ own)
          × ((j : ℕ) → j < bits → bit_at b j ≡ as_bit value)
    filled (ys, e, l, at) = (
      record { memory = ys; capacity = align_up bits 64; size = bits; allocated = own },
      rw (clears-eq bits small, e, create_in),
      record {
        sized = rw (capacity-eq bits small) (omega arith);
        tight = rw (capacity-eq bits small) (omega arith);
        aligned = rw (capacity-eq bits small) (omega arith);
        grouped = rw (capacity-eq bits small) (omega arith);
        small = rw (capacity-eq bits small) (omega arith);
        words = λ g. ground (arith, at g, words g);
      },
      refl,
      refl,
      λ j lt. ground (arith, at (j / 64), bit-number_max (j % 64) (omega arith), bit-zero (j % 64)),
    )

-- In a caller's block of enough groups, os_bitmap_create makes a valid bitmap of `bits` bits, at
-- least 1 and so few that they can be rounded up to whole groups, each of which is 0 if
-- `default_value` is 0 and 1 otherwise, and does not call os_memory_alloc.
pub create-IsValid :
    (alloc : ℕ → Option (List ℕ)) (bits : ℕ) (block : List ℕ) (default_value : ℕ)
    → 0 < bits
    → bits ≤ size_mod - 64
    → bits ≤ 64 * length block
    → ((g : ℕ) → get_or block g 0 < size_mod)
    → (b : Bitmap) × (create alloc bits (some block) default_value ≡ some (created b))
      × IsValid b
      × (b.size ≡ bits)
      × (b.allocated ≡ false)
      × ((j : ℕ) → j < bits → bit_at b j ≡ as_bit default_value)
unfolding create
create-IsValid alloc bits block value pos small room words =
    let nonzero : (bits == 0) ≡ false = ground arith in
    let not_max : (bits == number_max) ≡ false = ground arith in
    rw (nonzero, not_max) (create_in-IsValid bits block false value small room words)

-- When os_bitmap_create allocates the block itself, and os_memory_alloc gives a block of fewer
-- groups than the bytes asked for, it writes past the end of the block: it asks for one byte, and
-- clears one group of eight bytes, for every 64 bits.
pub create_overrun :
    (alloc : ℕ → Option (List ℕ)) (bits : ℕ) {block : List ℕ} (default_value : ℕ)
    → bits ≤ size_mod - 64
    → alloc (create_request bits) ≡ some block
    → length block < create_request bits
    → create alloc bits none default_value ≡ none
unfolding create create_in
create_overrun alloc bits {block} value small e short =
    let few : length block < (bits + 63) / 64 = omega (arith, capacity-eq bits small) in
    let fails : create_in bits block true value ≡ none = rw (
      clears-eq bits small,
      memset_groups_overrun block (default_word value) ((bits + 63) / 64) few,
      create_in,
    ) in
    rw (e, create) (ground (arith, fails))
