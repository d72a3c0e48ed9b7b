-- ===== src/Hashmap/Tests.antt =====
-- The hash map on concrete inputs.
use dreamos_cversion.Base.{
  ℕ, zero, suc, ◌%◌, ◌^◌, ◌<◌, ◌≡◌, refl, ◌⊎◌, true, false, none, some, [], ◌∷◌, arith, get_or,
}
use dreamos_cversion.Word.{align_up_min}
use dreamos_cversion.Word.Log.{align_up_min-least}
use dreamos_cversion.Hashmap.{Hashmap, done, enomem, create, set_item, get, remove_item}
use dreamos_cversion.Hashmap.Buckets.{distinct}
use dreamos_cversion.Hashmap.Laws.{IsValid, lookup, Updated, set_item-Updated, remove_item-Updated}
use dreamos_cversion.Hashmap.Create.{create-lookup}

-- Two buckets, of even and of odd keys; 3 and 5 are in the second.
abbrev sample : Hashmap
sample = record {
  list = [] ∷ (record { key = 3; value = 30 } ∷ record { key = 5; value = 50 } ∷ []) ∷ [];
  count = 2;
  count_bit = 1;
  hash_function = λ bits key. key % 2;
}

distinct_buckets : (i : ℕ) → distinct (get_or sample.list i []) ≡ true
distinct_buckets zero = refl
distinct_buckets (suc zero) = refl
distinct_buckets (suc (suc i)) = refl

sample-IsValid : IsValid sample
sample-IsValid = record {
  sized = refl;
  hashed = λ key. omega arith;
  distinct = λ key. distinct_buckets (key % 2);
}

values : (get sample 5 ≡ some (true, 50)) × (get sample 4 ≡ some (false, 0))
unfolding get
values = (refl, refl)

set_item-Updated_example :
    ((map' : Hashmap) × (set_item sample true 4 40 ≡ some (done map'))
      × Updated sample 4 (some 40) map')
    ⊎ ((set_item sample true 4 40 ≡ some enomem) × (true ≡ false) × (lookup sample 4 ≡ none))
set_item-Updated_example = set_item-Updated sample true 4 40 sample-IsValid

remove_item-Updated_example :
    (map' : Hashmap) × (remove_item sample 3 ≡ some map') × Updated sample 3 none map'
remove_item-Updated_example = remove_item-Updated sample 3 sample-IsValid

small : align_up_min 3 < 31
small = omega (arith, (align_up_min-least 3 (omega arith) (omega arith)).1 2 (omega arith))

create-lookup_example :
    (map : Hashmap) × (create true 3 none ≡ some (done map))
    × IsValid map
    × (map.count ≡ 2 ^ align_up_min 3)
    × ((key : ℕ) → lookup map key ≡ none)
create-lookup_example = create-lookup 3 none (omega arith) small (λ f e. cc)
