-- ===== src/Bitmap.antt =====
-- src/os_bitmap.c: a bitmap over an array of 64-bit groups.
--
-- `none` stands for a failed OS_ASSERT, or for a write past the memory block, after which the
-- kernel does not go on. A loop returns `none` also when its fuel is used up.
pub mod Access
pub mod Find
pub mod SetBits
pub mod Create
pub mod View
mod Tests
use dreamos_cversion.Base.{
  ℕ, zero, suc, ◌+◌, ◌-◌, ◌*◌, ◌/◌, ◌<◌, ◌≤◌, ◌≡◌, Bool, true, false, ◌&&◌, not, Option, none, some,
  List, [], ◌∷◌, bit_and, bit_or, ltb, leb, ◌==◌, if◌then◌else◌, length, get_or, set,
}
use dreamos_cversion.Word.{
  size_mod, number_max, add_size, sub_size, not_size, shl, shr, size, mask, mask_value, align_up,
}

-- os_bitmap_t; `memory` is the array that the pointer leads to, in groups.
pub record Bitmap : Type 0 where
  pub memory : List ℕ
  pub capacity : ℕ
  pub size : ℕ
  pub allocated : Bool

-- OS_SIZE_T_BITS, GROUP_SIZE, GROUP_ID, INDEX_ID
abbrev pub group_bits : ℕ
group_bits = 6

abbrev pub group_size : ℕ
group_size = size group_bits

abbrev pub group_id : ℕ → ℕ
group_id x = shr x group_bits

abbrev pub index_id : ℕ → ℕ
index_id x = mask_value x (mask group_bits)

-- bitmap -> memory[group]
abbrev pub group : Bitmap → ℕ → ℕ
group b g = get_or b.memory g 0

abbrev pub write_group : Bitmap → ℕ → ℕ → Bitmap
write_group b g w = record b { memory = set b.memory g w }

-- os_memset over whole groups: the first `n` of them become `w`; `none` if there are fewer.
memset_groups : List ℕ → ℕ → ℕ → Option (List ℕ)
memset_groups xs w zero = some xs
memset_groups [] w (suc n) = none
memset_groups (x ∷ xs) w (suc n) = elim (memset_groups xs w n) [
  | none ↦ none
  | some ys ↦ some (w ∷ ys)
]

-- What os_bitmap_create returns: OS_ERR_OK with the bitmap, or -OS_ERR_ENOMEM.
pub data Created : Type 0 where
  created : Bitmap → Created
  enomem : Created

-- The bytes that os_bitmap_create asks os_memory_alloc for, and those that it clears.
abbrev pub create_request : ℕ → ℕ
create_request bits = align_up bits 64 / 64

abbrev pub create_clears : ℕ → ℕ
create_clears bits = shr (align_up bits 64) 3

create_in : ℕ → List ℕ → Bool → ℕ → Option Created
unfolding memset_groups
create_in bits block own default_value =
    elim (memset_groups block (if default_value == 0 then 0 else number_max)
      (create_clears bits / 8)) [
        | none ↦ none
        | some memory ↦ some (
            created (record {
              memory = memory;
              capacity = align_up bits 64;
              size = bits;
              allocated = own;
            }))
      ]

-- os_bitmap_create. `memory` is the caller's block, and `alloc` is os_memory_alloc: from a number of
-- bytes to the groups of the block, if there is one.
pub create :
    (alloc : ℕ → Option (List ℕ)) (bits : ℕ) (memory : Option (List ℕ)) (default_value : ℕ)
    → Option Created
unfolding create_in
create alloc bits memory default_value =
    if bits == 0 then none else if bits == number_max then none else elim memory [
      | some block ↦ create_in bits block false default_value
      | none ↦ elim (alloc (create_request bits)) [
        | none ↦ some enomem
        | some block ↦ create_in bits block true default_value
      ]
    ]

-- os_bitmap_remove; with it, whether os_memory_free is called on the memory.
pub remove : Bitmap → Bitmap × Bool
remove b = (record b { allocated = false; size = 0; capacity = 0 }, b.allocated)

-- os_bitmap_get_bit
pub get_bit : Bitmap → ℕ → Option ℕ
get_bit b id =
    if ltb id b.size then some (bit_and (shr (group b (group_id id)) (index_id id)) 1) else none

-- os_bitmap_set_bit: clear the bit, then put the low bit of `value` there.
pub set_bit : Bitmap → ℕ → ℕ → Option Bitmap
set_bit b id value =
    let g = group_id id in
    let i = index_id id in
    let b' = write_group b g (bit_and (group b g) (not_size (shl 1 i))) in
    if ltb id b.size
    then some (write_group b' g (bit_or (group b' g) (shl (bit_and value 1) i)))
    else none

-- The loop of the two searches, over the test of a whole group and the test of one bit. Its
-- variables are i, ret and remainedcount.
module _ (whole : ℕ → Bool) (hit : ℕ → Bool) (b : Bitmap) (count : ℕ) where
  find_loop : (fuel i ret remained : ℕ) → Option ℕ
  find_loop zero i ret remained = none
  find_loop (suc fuel) i ret remained =
      let g = group b (group_id i) in
      let next_group = find_loop fuel (add_size i group_size) ret (sub_size remained group_size) in
      let next_hit = find_loop fuel (add_size i 1) ret (sub_size remained 1) in
      let next_miss = find_loop fuel (add_size i 1) (add_size i 1) count in
      if not (ltb i b.size)
      then some number_max
      else if (index_id i == 0) && leb group_size remained && whole g
      then (if sub_size remained group_size == 0 then some ret else next_group)
      else if hit (bit_and (shr g (index_id i)) 1)
      then (if sub_size remained 1 == 0 then some ret else next_hit)
      else next_miss

-- The tests of os_bitmap_find_some_ones and of os_bitmap_find_some_zeros.
abbrev pub all_ones : ℕ → Bool
all_ones w = w == number_max

abbrev pub all_zeros : ℕ → Bool
all_zeros w = w == 0

abbrev pub is_one : ℕ → Bool
is_one v = not (v == 0)

abbrev pub is_zero : ℕ → Bool
is_zero v = v == 0

-- os_bitmap_find_some_ones, os_bitmap_find_some_zeros
pub find_some_ones : Bitmap → ℕ → ℕ → Option ℕ
unfolding find_loop
find_some_ones b start_id count =
    find_loop all_ones is_one b count (suc b.size) start_id start_id count

pub find_some_zeros : Bitmap → ℕ → ℕ → Option ℕ
unfolding find_loop
find_some_zeros b start_id count =
    find_loop all_zeros is_zero b count (suc b.size) start_id start_id count

-- The loop of os_bitmap_set_bits. Its variables are i and remainedcount.
set_loop : (value : ℕ) (fuel : ℕ) → Bitmap → (i remained : ℕ) → Option Bitmap
set_loop value zero b i remained = none
set_loop value (suc fuel) b i remained =
    let g = group_id i in
    let one = shl 1 (index_id i) in
    let b_group = write_group b g (if value == 0 then 0 else number_max) in
    let b_bit =
      write_group b g
        (if value == 0 then bit_and (group b g) (not_size one) else bit_or (group b g) one) in
    let next_group =
      set_loop value fuel b_group (add_size i group_size) (sub_size remained group_size) in
    let next_bit = set_loop value fuel b_bit (add_size i 1) (sub_size remained 1) in
    if not (ltb i b.size)
    then some b
    else if (index_id i == 0) && leb group_size remained
    then (if sub_size remained group_size == 0 then some b_group else next_group)
    else if sub_size remained 1 == 0
    then some b_bit
    else next_bit

-- os_bitmap_set_bits
pub set_bits : Bitmap → ℕ → ℕ → ℕ → Option Bitmap
unfolding set_loop
set_bits b start_id count value =
    let done = set_loop value (suc b.size) b start_id count in
    if leb (add_size start_id count) b.size then done else none
