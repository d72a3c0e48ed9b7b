-- ===== src/Hashmap/Create.antt =====
-- os_hashmap_create.
use native.Mathlib.Nat.{mod-lt, one-le-pow}
use dreamos_cversion.Base.{
  ℕ, zero, suc, ◌-◌, ◌%◌, ◌^◌, ◌<◌, ◌≤◌, ◌≡◌, refl, sym, ap, subst, ◌∙◌, bit_and, true, Option,
  none, some, List, [], arith, ltb, false, ◌>>=◌, ◌==◌, if◌then◌else◌, get_or, replicate,
  length-replicate,
}
use dreamos_cversion.Word.{mask, shl, align_up_min}
use dreamos_cversion.Word.Bits.{bit_and-ones, shl_one, pow-lt-size}
use dreamos_cversion.Hashmap.{
  Item, Hashmap, Outcome, done, einval, default_hash_function, shl_int_one, create,
}
use dreamos_cversion.Hashmap.Buckets.{distinct, value_in}
use dreamos_cversion.Hashmap.Laws.{IsValid, lookup}

-- The default hash function takes the low bits.
default_hash_function-lt :
    (count_bit key : ℕ) → count_bit < 64 → default_hash_function count_bit key < 2 ^ count_bit
default_hash_function-lt count_bit key h =
    let pos : 1 ≤ 2 ^ count_bit = one-le-pow count_bit 2 (omega arith) in
    let m : mask count_bit ≡ 2 ^ count_bit - 1 =
      omega (arith, shl_one count_bit h, pow-lt-size count_bit h) in
    let e : default_hash_function count_bit key ≡ key % 2 ^ count_bit =
      ap (bit_and key) m ∙ bit_and-ones count_bit key in
    subst (λ z. z < 2 ^ count_bit) (sym e) (mod-lt key (omega arith))

new_bucket : (n i : ℕ) → ◌≡◌ {A = List Item} (get_or (replicate n []) i []) []
new_bucket zero i = refl
new_bucket (suc n) zero = refl
new_bucket (suc n) (suc i) = new_bucket n i

-- The map that os_hashmap_create makes.
abbrev built : (count_bit : ℕ) → (ℕ → ℕ → ℕ) → Hashmap
built count_bit f = record {
  list = replicate (shl 1 count_bit) [];
  count = shl 1 count_bit;
  count_bit = count_bit;
  hash_function = f;
}

abbrev made_map : (count_bit : ℕ) → (ℕ → ℕ → ℕ) → (n : ℕ) → Outcome
made_map count_bit f n =
    done (record { list = replicate n []; count = n; count_bit = count_bit; hash_function = f })

built-IsValid :
    (count_bit : ℕ) (f : ℕ → ℕ → ℕ)
    → count_bit < 64
    → ((key : ℕ) → f count_bit key < 2 ^ count_bit)
    → IsValid (built count_bit f)
      × ((built count_bit f).count ≡ 2 ^ count_bit)
      × ((key : ℕ) → lookup (built count_bit f) key ≡ none)
built-IsValid count_bit f h low = (
  record {
    sized = length-replicate (shl 1 count_bit) [];
    hashed = λ key. subst (λ n. f count_bit key < n) (sym (shl_one count_bit h)) (low key);
    distinct = λ key. ap distinct (new_bucket (shl 1 count_bit) (f count_bit key));
  },
  shl_one count_bit h,
  λ key. ap (λ b. value_in b key) (new_bucket (shl 1 count_bit) (f count_bit key)),
)

create_lem :
    {r : Outcome} (map : ℕ → Outcome) (count n : ℕ)
    → 0 < count
    → n < 31
    → map (shl 1 n) ≡ r
    → (if count == 0 then some einval else (shl_int_one n >>= λ k. some (map k))) ≡ some r
create_lem map count n pos small e =
    let nonzero : (count == 0) ≡ false = ground arith in
    let fits : ltb n 31 ≡ true = ground arith in rw (nonzero, fits) (ap (λ r. some r) e)

-- With room for the buckets and a count that is not 0 and for which ALIGN_UP_MIN is below 31,
-- os_hashmap_create gives a valid map with 2 to the ALIGN_UP_MIN of the count as its number of
-- buckets, in which no key is there, if the hash function that is given, if any, stays below that
-- number.
pub create-lookup :
    (count : ℕ) (hash_function : Option (ℕ → ℕ → ℕ))
    → 0 < count
    → align_up_min count < 31
    → ((f : ℕ → ℕ → ℕ)
        → hash_function ≡ some f
        → (key : ℕ) → f (align_up_min count) key < 2 ^ align_up_min count)
    → (map : Hashmap) × (create true count hash_function ≡ some (done map))
      × IsValid map
      × (map.count ≡ 2 ^ align_up_min count)
      × ((key : ℕ) → lookup map key ≡ none)
unfolding create
create-lookup count none pos small ok =
    let (valid, sized, empty) =
      built-IsValid (align_up_min count) default_hash_function (omega arith)
        (λ key. default_hash_function-lt (align_up_min count) key (omega arith)) in
    let f = default_hash_function in
    (
      built (align_up_min count) f,
      create_lem (made_map (align_up_min count) f) count (align_up_min count) pos small refl,
      valid,
      sized,
      empty,
    )
create-lookup count (some f) pos small ok =
    let (valid, sized, empty) = built-IsValid (align_up_min count) f (omega arith) (ok f refl) in
    (
      built (align_up_min count) f,
      create_lem (made_map (align_up_min count) f) count (align_up_min count) pos small refl,
      valid,
      sized,
      empty,
    )
