-- ===== src/Page/Space.antt =====
-- What the free lists measure: sums over the free blocks, and the addresses that these cover.
use native.Mathlib.Nat.{pow-suc}
use dreamos_cversion.Base.{
  ℕ, zero, suc, ◌+◌, ◌-◌, ◌^◌, ◌<◌, ◌≤◌, ◌≡◌, refl, true, ◌&&◌, List, [], ◌∷◌, arith, ltb, leb,
  if◌then◌else◌,
}
use dreamos_cversion.Page.{Layout}
use dreamos_cversion.Page.Addr.{addr_of}
use dreamos_cversion.Page.Chains.{has, remove}
use dreamos_cversion.Page.Lists.{Lists, update_list}

-- A weight of the block of order `i` at an address.
abbrev pub Weight : Type 0
Weight = ℕ → ℕ → ℕ

-- A block weighs as much as its two halves.
abbrev pub IsAdditive : Weight → Type 0
IsAdditive w = (i addr : ℕ) → w (suc i) addr ≡ w i addr + w i (addr + 2 ^ i)

module _ (L : Layout) (w : Weight) where
  pub list_weight : (i : ℕ) → List ℕ → ℕ
  list_weight i [] = 0
  list_weight i (p ∷ xs) = w i (addr_of L p) + list_weight i xs

  -- The sum over the lists of the orders below `n`.
  pub weight_below : (n : ℕ) → Lists → ℕ
  weight_below zero f = 0
  weight_below (suc n) f = weight_below n f + list_weight n (f n)

  pub list_weight-cons :
      (i p : ℕ) (xs : List ℕ) → list_weight i (p ∷ xs) ≡ w i (addr_of L p) + list_weight i xs
  unfolding list_weight
  list_weight-cons i p xs = refl

  pub list_weight-remove :
      (i p : ℕ) (xs : List ℕ)
      → has p xs ≡ true
      → list_weight i xs ≡ w i (addr_of L p) + list_weight i (remove p xs)
  unfolding list_weight
  list_weight-remove i p [] h = cc
  list_weight-remove i p (q ∷ xs) h = ground (arith, list_weight-remove i p xs)

  weight_above :
      (n i : ℕ) (f : Lists) (ys : List ℕ)
      → n ≤ i
      → weight_below n (update_list f i ys) ≡ weight_below n f
  unfolding weight_below
  weight_above zero i f ys h = refl
  weight_above (suc n) i f ys h = ground (arith, weight_above n i f ys)

  pub weight_below-update :
      (n i : ℕ) (f : Lists) (ys : List ℕ)
      → i < n
      → weight_below n (update_list f i ys) + list_weight i (f i)
        ≡ weight_below n f + list_weight i ys
  unfolding weight_below
  weight_below-update zero i f ys h = elim h [ ]
  weight_below-update (suc n) i f ys h =
      ground (arith, weight_below-update n i f ys, weight_above n i f ys)

  pub list_weight-le : (n i : ℕ) (f : Lists) → i < n → list_weight i (f i) ≤ weight_below n f
  unfolding weight_below
  list_weight-le zero i f h = elim h [ ]
  list_weight-le (suc n) i f h = ground (arith, list_weight-le n i f)

pub weight_below-nil : (L : Layout) (w : Weight) (n : ℕ) → weight_below L w n (λ i. []) ≡ 0
unfolding weight_below list_weight
weight_below-nil L w zero = refl
weight_below-nil L w (suc n) = ground (arith, weight_below-nil L w n)

-- All the free lists.
abbrev pub weight : Layout → Weight → Lists → ℕ
weight L w f = weight_below L w 65 f

-- 1 for a block that holds the address `x`, 0 for another.
abbrev pub covers : ℕ → Weight
covers x i addr = if leb addr x && ltb x (addr + 2 ^ i) then 1 else 0

-- The number of pages of a block.
abbrev pub pages_of : Weight
pages_of i addr = 2 ^ (i - 12)

pub covers-IsAdditive : (x : ℕ) → IsAdditive (covers x)
covers-IsAdditive x i addr = ground (arith, pow-suc 2 i)

-- The number of free blocks that hold the address `x`.
abbrev pub cover : Layout → Lists → ℕ → ℕ
cover L f x = weight L (covers x) f

pub cover-listed :
    (L : Layout) (f : Lists) (i p x : ℕ)
    → i < 65
    → has p (f i) ≡ true
    → addr_of L p ≤ x
    → x < addr_of L p + 2 ^ i
    → 0 < cover L f x
cover-listed L f i p x hi m lo hx =
    ground
      (arith, list_weight-le L (covers x) 65 i f hi, list_weight-remove L (covers x) i p (f i) m)
