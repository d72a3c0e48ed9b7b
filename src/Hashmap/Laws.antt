-- ===== src/Hashmap/Laws.antt =====
-- The operations of the hash map against a function from keys to values.
use dreamos_cversion.Base.{
  ℕ, ◌<◌, ◌≡◌, ◌≢◌, refl, sym, ap, ◌∙◌, ◌⊎◌, inl, inr, Bool, true, false, Option, none, some, List,
  [], ◌∷◌, ◌++◌, arith, ltb, ◌==◌, if◌then◌else◌, Bool-cases, is_some, ℕ_discrete, length, get_or,
  set, length-set, get_or-set_self, get_or-set_ne,
}
use dreamos_cversion.Hashmap.{
  Item, Hashmap, done, enomem, hash_id, bucket, with_bucket, find, write_value, unlink, set_item,
  get, remove_item,
}
use dreamos_cversion.Hashmap.Buckets.{
  distinct, value_in, find-value_in, value_in-append, value_in-write_value, value_in-unlink,
  distinct-append, distinct-write_value, distinct-unlink,
}

-- As many buckets as `count` says, the hash function stays below it, and no bucket has a key twice.
pub record IsValid (map : Hashmap) : Type 0 where
  pub sized : length map.list ≡ map.count
  pub hashed : (key : ℕ) → hash_id map key < map.count
  pub distinct : (key : ℕ) → distinct (bucket map key) ≡ true

-- The value of a key.
abbrev pub lookup : Hashmap → ℕ → Option ℕ
lookup map key = value_in (bucket map key) key

-- Another map has the same values but for `key`.
abbrev pub Updated : Hashmap → (key : ℕ) → Option ℕ → Hashmap → Type 0
Updated map key value map' =
    IsValid map' × ((k : ℕ) → lookup map' k ≡ (if key == k then value else lookup map k))

module _ (map : Hashmap) (key : ℕ) (items : List Item) (v : IsValid map) where
  inside : hash_id map key < length map.list
  inside = omega (arith, v.sized, v.hashed key)

  replaced_lem :
      (k : ℕ) → hash_id map key ≡ hash_id map k → bucket (with_bucket map key items) k ≡ items
  replaced_lem k e =
      ap (λ h. get_or (set map.list (hash_id map key) items) h []) (sym e)
      ∙ get_or-set_self map.list (hash_id map key) items [] inside

  other_lem :
      (k : ℕ)
      → hash_id map key ≢ hash_id map k
      → bucket (with_bucket map key items) k ≡ bucket map k
  other_lem k ne = get_or-set_ne map.list (hash_id map key) (hash_id map k) items [] ne

  -- A bucket is replaced by one with the same values but for `key`.
  with_bucket-Updated :
      (value : Option ℕ)
      → distinct items ≡ true
      → ((k : ℕ) → value_in items k ≡ (if key == k then value else value_in (bucket map key) k))
      → Updated map key value (with_bucket map key items)
  with_bucket-Updated value d at = (
    record {
      sized = length-set map.list (hash_id map key) items ∙ v.sized;
      hashed = v.hashed;
      distinct = λ k. elim (ℕ_discrete (hash_id map key) (hash_id map k)) [
        | yes e ↦ ap distinct (replaced_lem k e) ∙ d
        | no ne ↦ ap distinct (other_lem k ne) ∙ v.distinct k
      ];
    },
    λ k. elim (ℕ_discrete (hash_id map key) (hash_id map k)) [
      | yes e ↦
          ap (λ b. value_in b k) (replaced_lem k e)
          ∙ at k
          ∙ ap (λ h. if key == k then value else value_in (get_or map.list h []) k) e
      | no ne ↦
          let other : key ≢ k = λ z. ne (ap (hash_id map) z) in
          ap (λ b. value_in b k) (other_lem k ne) ∙ ground arith
    ],
  )

none_lem : (o : Option ℕ) → is_some o ≡ false → o ≡ none
none_lem none h = refl
none_lem (some x) h = cc

-- In a valid hash map, os_hashmap_set gives a valid map in which the key has the value, whether
-- it was there or not, and every other key has the value that it had, or none; or it gives
-- -OS_ERR_ENOMEM, which it does only if there is no room for an item and the key was not there.
pub set_item-Updated :
    (map : Hashmap) (room : Bool) (key value : ℕ)
    → IsValid map
    → ((map' : Hashmap) × (set_item map room key value ≡ some (done map'))
        × Updated map key (some value) map')
      ⊎ ((set_item map room key value ≡ some enomem) × (room ≡ false) × (lookup map key ≡ none))
unfolding set_item
set_item-Updated map room key value v =
    let low : ltb (hash_id map key) map.count ≡ true = ground (arith, v.hashed key) in
    let items = bucket map key in
    elim (Bool-cases (is_some (find items key))) [
      | inl there ↦ inl (
        with_bucket map key (write_value items key value),
        rw (low, there) refl,
        with_bucket-Updated map key (write_value items key value) v (some value)
            (distinct-write_value key value items (v.distinct key))
            (λ k. value_in-write_value key value k items there),
      )
      | inr absent ↦ elim (Bool-cases room) [
        | inl free ↦ inl (
          with_bucket map key (items ++ record { key = key; value = value } ∷ []),
          rw (low, absent, free) refl,
          with_bucket-Updated map key (items ++ record { key = key; value = value } ∷ []) v
              (some value) (distinct-append key value items absent (v.distinct key))
              (λ k. value_in-append key value k items absent),
        )
        | inr full ↦ inr (
          rw (low, absent, full) refl,
          full,
          none_lem (lookup map key) (sym (find-value_in key items) ∙ absent),
        )
      ]
    ]

-- Without room for an item, a key that is not there is not added.
pub set_item_full :
    (map : Hashmap) (key value : ℕ)
    → IsValid map
    → lookup map key ≡ none
    → set_item map false key value ≡ some enomem
unfolding set_item
set_item_full map key value v h =
    let low : ltb (hash_id map key) map.count ≡ true = ground (arith, v.hashed key) in
    let absent : is_some (find (bucket map key) key) ≡ false =
      find-value_in key (bucket map key) ∙ ap is_some h in
    rw (low, absent) refl

-- In a valid hash map, os_hashmap_remove_item gives a valid map in which the key is not there,
-- whether it was before or not, and every other key has the value that it had, or none.
pub remove_item-Updated :
    (map : Hashmap) (key : ℕ)
    → IsValid map
    → (map' : Hashmap) × (remove_item map key ≡ some map') × Updated map key none map'
unfolding remove_item
remove_item-Updated map key v =
    let low : ltb (hash_id map key) map.count ≡ true = ground (arith, v.hashed key) in
    let items = bucket map key in
    elim (Bool-cases (is_some (find items key))) [
      | inl there ↦ (
        with_bucket map key (unlink items key),
        rw (low, there) refl,
        with_bucket-Updated map key (unlink items key) v none
            (distinct-unlink key items (v.distinct key))
            (λ k. value_in-unlink key k items (v.distinct key)),
      )
      | inr absent ↦ (
        map,
        rw (low, absent) refl,
        (
          v,
          λ k. elim (ℕ_discrete key k) [
            | yes e ↦
                let gone : lookup map k ≡ none =
                  ap (lookup map) (sym e)
                  ∙ none_lem (lookup map key) (sym (find-value_in key items) ∙ absent) in
                ground arith
            | no ne ↦ ground arith
          ],
        ),
      )
    ]

-- In a valid hash map, os_hashmap_get tells whether the key is there, and gives its value, or
-- OS_NULL if it is not.
pub get-lookup :
    (map : Hashmap) (key : ℕ)
    → IsValid map
    → get map key
      ≡ some (is_some (lookup map key), elim (lookup map key) [ none ↦ 0 | some value ↦ value ])
unfolding get
get-lookup map key v =
    let low : ltb (hash_id map key) map.count ≡ true = ground (arith, v.hashed key) in
    rw low (ap (λ r. some r) (read_lem (bucket map key)))
  where
    read_lem :
        (items : List Item)
        → (elim (find items key) as (λ o. Bool × ℕ) [
          | none ↦ (false, 0)
          | some item ↦ (true, item.value)
        ])
          ≡ (
            is_some (value_in items key),
            elim (value_in items key) [ none ↦ 0 | some value ↦ value ],
          )
    read_lem [] = refl
    read_lem (item ∷ items) = elim (Bool-cases (item.key == key)) [
      | inl e ↦ rw e refl
      | inr e ↦ rw e (read_lem items)
    ]
