-- ===== src/Hashmap/Buckets.antt =====
-- A bucket as an association list.
use dreamos_cversion.Base.{
  ℕ, ◌≡◌, refl, Bool, true, false, ◌&&◌, ◌||◌, not, Option, none, some, List, [], ◌∷◌, ◌++◌, arith,
  ◌==◌, if◌then◌else◌, is_some,
}
use dreamos_cversion.Hashmap.{Item, find, write_value, unlink}

-- No two items have the same key.
abbrev pub distinct : List Item → Bool
distinct [] = true
distinct (item ∷ items) = not (is_some (find items item.key)) && distinct items

-- The value of a key.
abbrev pub value_in : List Item → ℕ → Option ℕ
value_in [] key = none
value_in (item ∷ items) key = if item.key == key then some item.value else value_in items key

module _ (key : ℕ) where
  pub find-value_in : (items : List Item) → is_some (find items key) ≡ is_some (value_in items key)
  find-value_in [] = refl
  find-value_in (item ∷ items) = ground (arith, find-value_in items)

  pub value_in-append :
      (value k : ℕ) (items : List Item)
      → is_some (find items key) ≡ false
      → value_in (items ++ record { key = key; value = value } ∷ []) k
        ≡ (if key == k then some value else value_in items k)
  value_in-append value k [] h = refl
  value_in-append value k (item ∷ items) h = ground (arith, value_in-append value k items)

  pub value_in-write_value :
      (value k : ℕ) (items : List Item)
      → is_some (find items key) ≡ true
      → value_in (write_value items key value) k
        ≡ (if key == k then some value else value_in items k)
  value_in-write_value value k [] h = cc
  value_in-write_value value k (item ∷ items) h = ground (arith, value_in-write_value value k items)

  pub value_in-unlink :
      (k : ℕ) (items : List Item)
      → distinct items ≡ true
      → value_in (unlink items key) k ≡ (if key == k then none else value_in items k)
  value_in-unlink k [] d = ground arith
  value_in-unlink k (item ∷ items) d = ground (arith, value_in-unlink k items, find-value_in items)

  find-append :
      (value k : ℕ) (items : List Item)
      → is_some (find (items ++ record { key = key; value = value } ∷ []) k)
        ≡ (is_some (find items k) || (key == k))
  find-append value k [] = ground arith
  find-append value k (item ∷ items) = ground (arith, find-append value k items)

  pub distinct-append :
      (value : ℕ) (items : List Item)
      → is_some (find items key) ≡ false
      → distinct items ≡ true
      → distinct (items ++ record { key = key; value = value } ∷ []) ≡ true
  distinct-append value [] h d = refl
  distinct-append value (item ∷ items) h d =
      ground (arith, distinct-append value items, find-append value item.key items)

  find-write_value :
      (value k : ℕ) (items : List Item)
      → is_some (find (write_value items key value) k) ≡ is_some (find items k)
  find-write_value value k [] = refl
  find-write_value value k (item ∷ items) = ground (arith, find-write_value value k items)

  pub distinct-write_value :
      (value : ℕ) (items : List Item)
      → distinct items ≡ true
      → distinct (write_value items key value) ≡ true
  distinct-write_value value [] d = refl
  distinct-write_value value (item ∷ items) d =
      ground (arith, distinct-write_value value items, find-write_value value item.key items)

  find-unlink :
      (k : ℕ) (items : List Item)
      → is_some (find items k) ≡ false
      → is_some (find (unlink items key) k) ≡ false
  find-unlink k [] h = refl
  find-unlink k (item ∷ items) h = ground (arith, find-unlink k items)

  pub distinct-unlink :
      (items : List Item) → distinct items ≡ true → distinct (unlink items key) ≡ true
  distinct-unlink [] d = refl
  distinct-unlink (item ∷ items) d =
      ground (arith, distinct-unlink items, find-unlink item.key items)
