-- ===== src/Word/Align.antt =====
-- ALIGN_UP, ALIGN_DOWN, MASK_VALUE and UMASK_VALUE for a bound that is a power of two.
use native.Mathlib.Nat.{
  mod-eq_of_lt, pow-suc, pow-succ', one-le-pow, pow-le-pow_right, div-div-eq-div-mul,
}
use dreamos_cversion.Base.{
  ℕ, zero, suc, ◌+◌, ◌-◌, ◌*◌, ◌/◌, ◌%◌, ◌^◌, ◌<◌, ◌≤◌, ◌≡◌, ◌∙◌, bit_and, arith,
}
use dreamos_cversion.Word.Defs.{size_mod, not_size, sub_size, add_size, align_up, align_down}
use dreamos_cversion.Word.Bits.{bit_and_step, bit_and-ones}

-- A word of ones above `k` zeros clears the low `k` bits.
pub bit_and-high : (w k a : ℕ) → k ≤ w → a < 2 ^ w → bit_and a (2 ^ w - 2 ^ k) ≡ a / 2 ^ k * 2 ^ k
bit_and-high w zero a h lt = bit_and-ones w a ∙ omega (arith, mod-eq_of_lt lt)
bit_and-high zero (suc k) a h lt = elim h [ ]
bit_and-high (suc w) (suc k) a h lt =
    let mono : 2 ^ k ≤ 2 ^ w = pow-le-pow_right (omega arith) (omega arith) in
    let half : (2 ^ suc w - 2 ^ suc k) / 2 ≡ 2 ^ w - 2 ^ k =
      omega (arith, pow-suc 2 w, pow-suc 2 k) in
    let even : (2 ^ suc w - 2 ^ suc k) % 2 ≡ 0 = omega (arith, pow-suc 2 w, pow-suc 2 k) in
    let rest : bit_and (a / 2) (2 ^ w - 2 ^ k) ≡ a / 2 / 2 ^ k * 2 ^ k =
      bit_and-high w k (a / 2) (omega arith) (omega (arith, pow-suc 2 w)) in
    let shift : a / 2 ^ suc k ≡ a / 2 / 2 ^ k = rw (pow-succ', div-div-eq-div-mul) in
    bit_and_step a (2 ^ suc w - 2 ^ suc k) ∙ rw (half, even, rest, shift, pow-suc) (grind arith)

pub align_up-eq :
    (k value : ℕ)
    → k < 64
    → value + 2 ^ k ≤ size_mod
    → align_up value (2 ^ k) ≡ (value + (2 ^ k - 1)) / 2 ^ k * 2 ^ k
align_up-eq k value h fits =
    let pos : 1 ≤ 2 ^ k = one-le-pow k 2 (omega arith) in
    let sub : sub_size (2 ^ k) 1 ≡ 2 ^ k - 1 = omega arith in
    let add : add_size value (2 ^ k - 1) ≡ value + (2 ^ k - 1) = omega arith in
    let m : not_size (2 ^ k - 1) ≡ 2 ^ 64 - 2 ^ k = omega arith in
    rw (sub, add, m) (bit_and-high 64 k (value + (2 ^ k - 1)) (omega arith) (omega arith))

pub align_down-eq :
    (k value : ℕ) → k < 64 → value < size_mod → align_down value (2 ^ k) ≡ value / 2 ^ k * 2 ^ k
align_down-eq k value h fits =
    let pos : 1 ≤ 2 ^ k = one-le-pow k 2 (omega arith) in
    let top : 2 ^ k ≤ 2 ^ 63 = pow-le-pow_right (omega arith) {j = 63} (omega arith) in
    let sub : sub_size (2 ^ k) 1 ≡ 2 ^ k - 1 = omega arith in
    let m : not_size (2 ^ k - 1) ≡ 2 ^ 64 - 2 ^ k = omega arith in
    rw (sub, m) (bit_and-high 64 k value (omega arith) fits)
