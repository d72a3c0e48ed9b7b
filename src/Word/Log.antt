-- ===== src/Word/Log.antt =====
-- IS_POWER_OF_2, ALIGN_DOWN_MAX and ALIGN_UP_MIN.
use native.Mathlib.Nat.{pow-suc, one-le-pow, pow-le-pow_right, mod_self}
use dreamos_cversion.Base.{
  ℕ, zero, suc, ◌+◌, ◌-◌, ◌/◌, ◌%◌, ◌^◌, ◌<◌, ◌≤◌, ◌≡◌, ◌≢◌, sym, ap, subst, ◌∙◌, inl, inr, bit_and,
  true, false, arith, ltb, Bool-cases, dec_lt, ℕ_discrete,
}
use dreamos_cversion.Word.Defs.{size_mod, sub_size, log2, is_power_of_2, align_up_min}
use dreamos_cversion.Word.Bits.{bit_and_step, bit_and-ones}

log2-bounds :
    (fuel v : ℕ) → 0 < v → v < 2 ^ suc fuel → (2 ^ log2 fuel v ≤ v) × (v < 2 ^ suc (log2 fuel v))
unfolding log2
log2-bounds zero v pos h = (omega (arith, pow-suc 2 0), h)
log2-bounds (suc fuel) v pos h = elim (dec_lt v 2) [
  | yes low ↦ let e : ltb v 2 ≡ true = ground arith in rw e (omega arith, omega arith)
  | no high ↦
      let e : ltb v 2 ≡ false = ground arith in
      let (lo, hi) = log2-bounds fuel (v / 2) (omega arith) (omega (arith, pow-suc 2 (suc fuel))) in
      rw e (
        omega (arith, pow-suc 2 (log2 fuel (v / 2))),
        omega (arith, pow-suc 2 (suc (log2 fuel (v / 2)))),
      )
]

bit_and_self : (n a : ℕ) → a ≤ n → bit_and a a ≡ a
bit_and_self n zero h = bit_and_step 0 0
bit_and_self zero (suc a) h = elim h [ ]
bit_and_self (suc n) (suc a) h =
    omega (arith, bit_and_step (suc a) (suc a), bit_and_self n (suc a / 2) (omega arith))

-- A number whose lowest bit, taken off, leaves nothing in common is a power of two.
power_lem : (fuel v : ℕ) → 0 < v → v < 2 ^ suc fuel → bit_and v (v - 1) ≡ 0 → v ≡ 2 ^ log2 fuel v
unfolding log2
power_lem zero v pos h e = omega (arith, pow-suc 2 0)
power_lem (suc fuel) v pos h e = elim (dec_lt v 2) [
  | yes low ↦ let b : ltb v 2 ≡ true = ground arith in rw b (omega arith)
  | no high ↦
      let b : ltb v 2 ≡ false = ground arith in
      let step = bit_and_step v (v - 1) in
      elim (ℕ_discrete (v % 2) 0) [
        | yes even ↦
            let half : (v - 1) / 2 ≡ v / 2 - 1 = omega arith in
            let e' : bit_and (v / 2) (v / 2 - 1) ≡ 0 =
              omega (arith, step, ap (bit_and (v / 2)) half) in
            let rest =
              power_lem fuel (v / 2) (omega arith) (omega (arith, pow-suc 2 (suc fuel))) e' in
            rw b (omega (arith, rest, pow-suc 2 (log2 fuel (v / 2))))
        | no odd ↦
            let half : (v - 1) / 2 ≡ v / 2 = omega arith in
            absurd (
              omega (
                arith,
                step,
                ap (bit_and (v / 2)) half,
                bit_and_self (v / 2) (v / 2) (omega arith),
              ))
      ]
]

exponent-le : (a k : ℕ) → 2 ^ a ≤ 2 ^ k → a ≤ k
exponent-le a k h = elim (dec_lt k a) [
  | yes lt ↦
      let mono : 2 ^ suc k ≤ 2 ^ a = pow-le-pow_right (omega arith) (omega arith) in
      absurd (omega (arith, mono, pow-suc 2 k, one-le-pow k 2 (omega arith)))
  | no ge ↦ omega arith
]

exponent-lt : (a k : ℕ) → 2 ^ a < 2 ^ k → a + 1 ≤ k
exponent-lt a k h = elim (dec_lt a k) [
  | yes lt ↦ omega arith
  | no ge ↦
      let mono : 2 ^ k ≤ 2 ^ a = pow-le-pow_right (omega arith) (omega arith) in
      absurd (omega arith)
]

power_and : (a : ℕ) → bit_and (2 ^ a) (2 ^ a - 1) ≡ 0
power_and a = bit_and-ones a (2 ^ a) ∙ mod_self (2 ^ a)

-- ALIGN_UP_MIN of a number that is not 0 is the least exponent of a power of two that is as large.
pub align_up_min-least :
    (v : ℕ)
    → 0 < v
    → v < size_mod
    → (v ≤ 2 ^ align_up_min v) × ((k : ℕ) → v ≤ 2 ^ k → align_up_min v ≤ k)
align_up_min-least v pos h =
    let a = log2 63 v in
    let (lo, hi) = log2-bounds 63 v pos h in
    let sub : sub_size v 1 ≡ v - 1 = omega arith in
    elim (Bool-cases (is_power_of_2 v)) [
      | inl power ↦
          let e : v ≡ 2 ^ a = power_lem 63 v pos h (ground (arith, ap (bit_and v) sub)) in
          rw power (omega arith, λ k le. exponent-le a k (omega arith))
      | inr other ↦
          let ne : v ≢ 2 ^ a = λ e. absurd (
            ground (
              arith,
              ap (bit_and v) sub,
              subst (λ z. bit_and z (z - 1) ≡ 0) (sym e) (power_and a),
            )) in
          let up : 2 ^ suc a ≡ 2 ^ (a + 1) = ap (λ k. 2 ^ k) (omega arith) in
          rw other (omega (arith, up), λ k le. exponent-lt a k (omega arith))
    ]
