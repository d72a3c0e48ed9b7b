-- ===== src/Hashmap.antt =====
-- src/os_hashmap.c: a hash map from os_size_t to pointers.
--
-- A pointer is its number, 0 is OS_NULL; a bucket is the list of its items. `none` stands for a
-- failed OS_ASSERT, or for what has no meaning in C.
mod Tests
pub mod Buckets
pub mod Laws
pub mod Create
use dreamos_cversion.Base.{
  ℕ, zero, suc, ◌+◌, ◌-◌, ◌*◌, ◌/◌, ◌%◌, ◌^◌, ◌<◌, ◌≤◌, ◌≡◌, ◌≢◌, ◌↔◌, refl, sym, ap, subst, ◌∙◌,
  ◌⊎◌, inl, inr, min, max, bit_and, bit_or, bit_xor, Bool, true, false, ◌&&◌, ◌||◌, not, Option,
  none, some, List, [], ◌∷◌, ◌++◌, map, arith, ltb, leb, ◌==◌, if◌then◌else◌, Bool-cases,
  Option-cases, is_some, dec_lt, ℕ_discrete, length, get_or, get_elem?, take, drop, replicate, set,
  length-append, length-set, get_or-set_self, get_or-set_ne, length-replicate, get_or-replicate,
  set-set_self, ==_iff, ◌>>=◌,
}
use dreamos_cversion.Word.{mask, shl, align_up_min}

-- os_hashmap_item_t and os_hashmap_t; the hash function reads the map's count_bit and the key.
pub record Item : Type 0 where
  pub key : ℕ
  pub value : ℕ

pub record Hashmap : Type 0 where
  pub list : List (List Item)
  pub count : ℕ
  pub count_bit : ℕ
  pub hash_function : ℕ → ℕ → ℕ

-- OS_ERR_OK with the map, or an error code
pub data Outcome : Type 0 where
  done : Hashmap → Outcome
  einval : Outcome
  enomem : Outcome

-- os_hashmap_default_hash_function
abbrev pub default_hash_function : ℕ → ℕ → ℕ
default_hash_function count_bit key = bit_and key (mask count_bit)

-- 1 << n on a 32-bit int, which has no meaning where the result does not fit.
abbrev pub shl_int_one : ℕ → Option ℕ
shl_int_one n = if ltb n 31 then some (shl 1 n) else none

-- os_hashmap_create, with whether os_memory_alloc has room for the buckets; OS_NULL for the hash
-- function is `none`.
pub create : (room : Bool) → (count : ℕ) → Option (ℕ → ℕ → ℕ) → Option Outcome
create room count hash_function =
    let count_bit = align_up_min count in
    let made : ℕ → Hashmap = λ n. record {
      list = replicate n [];
      count = n;
      count_bit = count_bit;
      hash_function = elim hash_function [ none ↦ default_hash_function | some f ↦ f ];
    } in
    if count == 0
    then some einval
    else (shl_int_one count_bit >>= λ n. some (if room then done (made n) else enomem))

-- The bucket of a key, and the map with another bucket there.
abbrev pub hash_id : Hashmap → ℕ → ℕ
hash_id map key = map.hash_function map.count_bit key

abbrev pub bucket : Hashmap → ℕ → List Item
bucket map key = get_or map.list (hash_id map key) []

abbrev pub with_bucket : Hashmap → ℕ → List Item → Hashmap
with_bucket map key items = record map { list = set map.list (hash_id map key) items }

-- __os_hashmap_find: the first item with the key. What a caller then does with this item.
abbrev pub find : List Item → (key : ℕ) → Option Item
find [] key = none
find (item ∷ items) key = if item.key == key then some item else find items key

abbrev pub write_value : List Item → (key value : ℕ) → List Item
write_value [] key value = []
write_value (item ∷ items) key value =
    if item.key == key
    then record item { value = value } ∷ items
    else item ∷ write_value items key value

abbrev pub unlink : List Item → (key : ℕ) → List Item
unlink [] key = []
unlink (item ∷ items) key = if item.key == key then items else item ∷ unlink items key

-- os_hashmap_set, with whether os_memory_alloc has room for an item
pub set_item : Hashmap → (room : Bool) → (key value : ℕ) → Option Outcome
set_item map room key value =
    let items = bucket map key in
    let added = with_bucket map key (items ++ record { key = key; value = value } ∷ []) in
    let result =
      if is_some (find items key)
      then done (with_bucket map key (write_value items key value))
      else if not room
      then enomem
      else done added in
    if not (ltb (hash_id map key) map.count) then none else some result

-- os_hashmap_get: whether there is an item, and *value.
pub get : Hashmap → (key : ℕ) → Option (Bool × ℕ)
get map key =
    let result : Bool × ℕ = elim (find (bucket map key) key) [
      | none ↦ (false, 0)
      | some item ↦ (true, item.value)
    ] in
    if not (ltb (hash_id map key) map.count) then none else some result

-- os_hashmap_remove_item
pub remove_item : Hashmap → (key : ℕ) → Option Hashmap
remove_item map key =
    if not (ltb (hash_id map key) map.count)
    then none
    else if is_some (find (bucket map key) key)
    then some (with_bucket map key (unlink (bucket map key) key))
    else some map
