-- ===== src/Str.antt =====
-- src/os_string.c: strings and blocks of bytes.
--
-- A string is the list of its bytes before the terminating 0; a block of memory is the list of its
-- bytes, and `none` stands for an access past its end. A char is unsigned, as on the target.
pub mod Order
pub mod Blocks
mod Tests
use dreamos_cversion.Base.{
  ℕ, zero, suc, ◌+◌, ◌-◌, ◌*◌, ◌/◌, ◌%◌, ◌^◌, ◌<◌, ◌≤◌, ◌≡◌, ◌≢◌, ◌↔◌, refl, sym, ap, subst, ◌∙◌,
  ◌⊎◌, inl, inr, min, max, bit_and, bit_or, bit_xor, Bool, true, false, ◌&&◌, ◌||◌, not, Option,
  none, some, List, [], ◌∷◌, ◌++◌, map, arith, ltb, leb, ◌==◌, if◌then◌else◌, Bool-cases,
  Option-cases, is_some, dec_lt, ℕ_discrete, length, get_or, get_elem?, set, take, drop, replicate,
  length-append, length-set, get_or-set_self, get_or-set_ne, length-replicate, get_or-replicate,
  set-set_self, ==_iff,
}

-- -1, 0 and 1
pub data Sign : Type 0 where
  less : Sign
  same : Sign
  greater : Sign

abbrev pub is_same : Sign → Bool
is_same less = false
is_same same = true
is_same greater = false

-- The sign of a difference.
abbrev pub sign : ℕ → ℕ → Sign
sign a b = if ltb a b then less else if a == b then same else greater

-- *str, and str + 1
abbrev pub first : List ℕ → ℕ
first [] = 0
first (x ∷ xs) = x

abbrev pub rest : List ℕ → List ℕ
rest [] = []
rest (x ∷ xs) = xs

-- os_strlen
unfoldable pub strlen : List ℕ → ℕ
strlen [] = 0
strlen (x ∷ xs) = suc (strlen xs)

-- os_strcmp
unfoldable pub strcmp : List ℕ → List ℕ → Sign
strcmp [] ys = sign 0 (first ys)
strcmp (x ∷ xs) ys =
    let next = strcmp xs (rest ys) in
    if (x == first ys) && not (x == 0) then next else sign x (first ys)

-- os_memcmp
unfoldable pub memcmp : List ℕ → List ℕ → (len : ℕ) → Option Sign
memcmp xs ys zero = some same
memcmp [] ys (suc len) = none
memcmp (x ∷ xs) [] (suc len) = none
memcmp (x ∷ xs) (y ∷ ys) (suc len) =
    let next = memcmp xs ys len in if x == y then next else some (sign x y)

-- os_memset, os_memcpy: what the block at `ptr` or `dst` holds afterwards.
pub memset : List ℕ → (value size : ℕ) → Option (List ℕ)
memset block value zero = some block
memset [] value (suc size) = none
memset (x ∷ block) value (suc size) = elim (memset block value size) [
  | none ↦ none
  | some block' ↦ some (value ∷ block')
]

pub memcpy : (dst src : List ℕ) → (size : ℕ) → Option (List ℕ)
memcpy dst src zero = some dst
memcpy [] src (suc size) = none
memcpy (x ∷ dst) [] (suc size) = none
memcpy (x ∷ dst) (y ∷ src) (suc size) = elim (memcpy dst src size) [
  | none ↦ none
  | some dst' ↦ some (y ∷ dst')
]

-- os_strcpy: the bytes of the string and the terminating 0.
pub strcpy : (dst src : List ℕ) → Option (List ℕ)
strcpy [] src = none
strcpy (x ∷ dst) [] = some (0 ∷ dst)
strcpy (x ∷ dst) (y ∷ src) = elim (strcpy dst src) [ none ↦ none | some dst' ↦ some (y ∷ dst') ]
