-- ===== src/Page/Halves.antt =====
-- Addresses that are multiples of a power of two, and the two halves of a block.
use native.Mathlib.Nat.{
  pow-suc, div-div-eq-div-mul, mod-add-div', add-mod_right, add-div_right, one-le-pow,
}
use dreamos_cversion.Base.{
  ℕ, zero, suc, ◌+◌, ◌*◌, ◌/◌, ◌%◌, ◌^◌, ◌≤◌, ◌≡◌, sym, subst, arith, dec_lt,
}

mod_double : (p a : ℕ) → a % (p * 2) ≡ a % p + a / p % 2 * p
mod_double p a =
    let e₁ = mod-add-div' a (p * 2) in
    let e₂ = mod-add-div' a p in
    let e₃ = mod-add-div' (a / p) 2 in
    let e₄ : a / (p * 2) ≡ a / p / 2 = sym (div-div-eq-div-mul a p 2) in
    let e₅ : a % (p * 2) + a / p / 2 * (p * 2) ≡ a % p + (a / p % 2 + a / p / 2 * 2) * p =
      grind (arith, e₁, e₂, e₃, e₄) in
    grind arith

-- A multiple of 2 ^ (i + 1) is an even multiple of 2 ^ i, and conversely.
pub halve : (i a : ℕ) → a % 2 ^ suc i ≡ 0 → (a % 2 ^ i ≡ 0) × (a / 2 ^ i % 2 ≡ 0)
halve i a h =
    let e : a % (2 ^ i * 2) ≡ 0 = ground (arith, pow-suc 2 i) in
    let p : 1 ≤ 2 ^ i = one-le-pow i 2 (omega arith) in
    let d = mod_double (2 ^ i) a in
    elim (dec_lt 0 (a / 2 ^ i % 2)) [
      | yes odd ↦ let o : a / 2 ^ i % 2 ≡ 1 = omega arith in absurd (ground arith)
      | no even ↦ ground arith
    ]

pub whole : (i a : ℕ) → a % 2 ^ i ≡ 0 → a / 2 ^ i % 2 ≡ 0 → a % 2 ^ suc i ≡ 0
whole i a h even = rw (pow-suc, mod_double (2 ^ i) a, h, even) (omega arith)

pub page_aligned : (i a : ℕ) → 12 ≤ i → a % 2 ^ i ≡ 0 → a % 4096 ≡ 0
page_aligned zero a least h = absurd (omega arith)
page_aligned (suc i) a least h = elim (dec_lt i 12) [
  | yes low ↦ let e : i ≡ 11 = omega arith in subst (λ k. a % 2 ^ suc k ≡ 0) e h
  | no high ↦ page_aligned i a (omega arith) (halve i a h).0
]

-- The second half of a block is aligned like the first.
pub second_half : (i a : ℕ) → (a + 2 ^ i) % 2 ^ i ≡ a % 2 ^ i
second_half i a = add-mod_right a (2 ^ i)

pub second_odd : (i a : ℕ) → (a + 2 ^ i) / 2 ^ i ≡ a / 2 ^ i + 1
second_odd i a = add-div_right a (one-le-pow i 2 (omega arith))
