-- ===== src/Bitmap/Tests.antt =====
-- The bitmap on concrete inputs.
use dreamos_cversion.Base.{
  ℕ, zero, suc, ◌<◌, ◌≡◌, refl, false, Option, none, some, List, [], ◌∷◌, arith, get_or,
}
use dreamos_cversion.Word.{size_mod, number_max}
use dreamos_cversion.Bitmap.{
  Bitmap, created, create, set_bit, set_bits, find_some_ones, find_some_zeros, is_one, is_zero,
}
use dreamos_cversion.Bitmap.View.{bit_at, IsValid}
use dreamos_cversion.Bitmap.Access.{get_from, get_bit-set_bit}
use dreamos_cversion.Bitmap.Find.{FindResult, find_some_ones-FindResult, find_some_zeros-FindResult}
use dreamos_cversion.Bitmap.SetBits.{as_bit, Writes, set_bits-Writes}
use dreamos_cversion.Bitmap.Create.{create-IsValid, create_overrun}

-- 100 bits in two groups: 0 to 63 are ones, and 72 to 79.
abbrev sample : Bitmap
sample = record { memory = number_max ∷ 0xff00 ∷ []; capacity = 128; size = 100; allocated = false }

two_words : (a b g : ℕ) → a < size_mod → b < size_mod → get_or (a ∷ b ∷ []) g 0 < size_mod
two_words a b zero h h' = h
two_words a b (suc zero) h h' = h'
two_words a b (suc (suc g)) h h' = omega arith

sample-IsValid : IsValid sample
sample-IsValid = record {
  sized = omega arith;
  tight = omega arith;
  aligned = refl;
  grouped = omega arith;
  small = omega arith;
  words = λ g. two_words number_max 0xff00 g (omega arith) (omega arith);
}

finds :
    (find_some_ones sample 0 3 ≡ some 0)
    × (find_some_ones sample 64 8 ≡ some 72)
    × (find_some_zeros sample 0 9 ≡ some 80)
    × (find_some_zeros sample 0 100 ≡ some number_max)
unfolding find_some_ones find_some_zeros
finds = (refl, refl, refl, refl)

get_bit-set_bit_example : get_from (set_bit sample 64 3) 64 ≡ some 1
get_bit-set_bit_example = get_bit-set_bit 64 3 64 sample-IsValid (omega arith)

find_some_ones-FindResult_example :
    (r : ℕ) × (find_some_ones sample 64 8 ≡ some r) × FindResult is_one sample 64 8 r
find_some_ones-FindResult_example =
    find_some_ones-FindResult 64 8 sample-IsValid (omega arith) (omega arith)

find_some_zeros-FindResult_example :
    (r : ℕ) × (find_some_zeros sample 0 9 ≡ some r) × FindResult is_zero sample 0 9 r
find_some_zeros-FindResult_example =
    find_some_zeros-FindResult 0 9 sample-IsValid (omega arith) (omega arith)

set_bits-Writes_example : Writes sample 60 6 0 (set_bits sample 60 6 0)
set_bits-Writes_example = set_bits-Writes 60 6 0 sample-IsValid (omega arith) (omega arith)

-- os_memory_alloc gives the one group that create asks for.
abbrev one_group : ℕ → Option (List ℕ)
one_group n = some (7 ∷ [])

create-IsValid_example :
    (b : Bitmap) × (create one_group 70 (some (5 ∷ 6 ∷ [])) 1 ≡ some (created b))
    × IsValid b
    × (b.size ≡ 70)
    × (b.allocated ≡ false)
    × ((j : ℕ) → j < 70 → bit_at b j ≡ as_bit 1)
create-IsValid_example =
    create-IsValid one_group 70 (5 ∷ 6 ∷ []) 1 (omega arith) (omega arith) (omega arith)
      (λ g. two_words 5 6 g (omega arith) (omega arith))

create_overrun_example : create one_group 128 none 0 ≡ none
create_overrun_example = create_overrun one_group 128 0 (omega arith) refl (omega arith)
