-- ===== src/Str/Tests.antt =====
-- Strings on concrete inputs.
use dreamos_cversion.Base.{
  ℕ, suc, ◌<◌, ◌≡◌, ◌↔◌, refl, none, some, List, [], ◌∷◌, ◌++◌, arith, drop, replicate,
}
use dreamos_cversion.Str.{less, same, greater, strlen, strcmp, memset, strcpy}
use dreamos_cversion.Str.Order.{comes_before, is_less, opposite, strcmp-order}
use dreamos_cversion.Str.Blocks.{memset-eq, strcpy-eq}

abbrev abc : List ℕ
abc = 97 ∷ 98 ∷ 99 ∷ []

abbrev abd : List ℕ
abd = 97 ∷ 98 ∷ 100 ∷ []

compares : (strcmp abc abd ≡ less) × (strcmp abc (97 ∷ []) ≡ greater) × (strcmp abc abc ≡ same)
unfolding strcmp
compares = (refl, refl, refl)

copies :
    (strcpy (1 ∷ 2 ∷ 3 ∷ []) (97 ∷ []) ≡ some (97 ∷ 0 ∷ 3 ∷ []))
    × (strcpy (1 ∷ []) (97 ∷ []) ≡ none)
unfolding strcpy
copies = (refl, refl)

strcmp-order_example :
    ((strcmp abc abd ≡ same) ↔ (abc ≡ abd))
    × (is_less (strcmp abc abd) ≡ comes_before abc abd)
    × (strcmp abd abc ≡ opposite (strcmp abc abd))
    × (strcmp abc abd ≡ less → strcmp abd (98 ∷ []) ≡ less → strcmp abc (98 ∷ []) ≡ less)
strcmp-order_example = strcmp-order abc abd (98 ∷ []) refl refl refl

room : strlen abc < 5
unfolding strlen
room = omega arith

strcpy-eq_example :
    strcpy (1 ∷ 2 ∷ 3 ∷ 4 ∷ 5 ∷ []) abc
    ≡ some (abc ++ 0 ∷ drop (suc (strlen abc)) (1 ∷ 2 ∷ 3 ∷ 4 ∷ 5 ∷ []))
strcpy-eq_example = strcpy-eq (1 ∷ 2 ∷ 3 ∷ 4 ∷ 5 ∷ []) abc room

memset-eq_example : memset abc 0 2 ≡ some (replicate 2 0 ++ drop 2 abc)
memset-eq_example = memset-eq abc 0 2 (omega arith)
