-- ===== src/Word/Xor.antt =====
-- `^` by a power of two.
use native.Mathlib.Nat.{pow-suc}
use Prim.Native.Nat.{differ, bit_xor-bitwise}
use dreamos_cversion.Base.{
  ℕ, zero, suc, ◌+◌, ◌-◌, ◌*◌, ◌/◌, ◌%◌, ◌^◌, ◌<◌, ◌≤◌, ◌≡◌, ◌≢◌, refl, sym, ◌∙◌, bit_xor, arith,
  ◌==◌, if◌then◌else◌,
}
use dreamos_cversion.Word.Bits.{bit, digits_enough, shr-bit, bit_and-ones}

-- One binary digit of the exclusive or.
abbrev xor_digit : ℕ → ℕ → ℕ
xor_digit a b = differ a b

bit_xor_step : (a b : ℕ) → bit_xor a b ≡ bit_xor (a / 2) (b / 2) * 2 + differ (a % 2) (b % 2)
bit_xor_step zero b = omega (arith, bit_xor-bitwise 0 b, bit_xor-bitwise 0 (b / 2))
bit_xor_step (suc a) b = omega (
  arith,
  bit_xor-bitwise (suc a) b,
  bit_xor-bitwise (suc a / 2) (b / 2),
  digits_enough (λ b. b) differ (suc a / 2) a (suc a / 2) (b / 2) (omega arith) (omega arith),
)

differ-zero : (x : ℕ) → differ x 0 ≡ x
differ-zero zero = refl
differ-zero (suc x) = refl

differ-one : (x : ℕ) → x < 2 → differ x 1 ≡ 1 - x
differ-one zero h = refl
differ-one (suc zero) h = refl
differ-one (suc (suc x)) h = absurd (omega arith)

bit_xor_nil : (n a : ℕ) → a ≤ n → bit_xor a 0 ≡ a
bit_xor_nil n zero h = bit_xor-bitwise 0 0
bit_xor_nil zero (suc a) h = elim h [ ]
bit_xor_nil (suc n) (suc a) h = ground (
  arith,
  bit_xor_step (suc a) 0,
  differ-zero (suc a % 2),
  bit_xor_nil n (suc a / 2) (omega arith),
)

bit_one-le : (i a : ℕ) → bit a i ≢ 0 → 2 ^ i ≤ a
unfolding bit
bit_one-le zero a h = omega arith
bit_one-le (suc i) a h = omega (arith, pow-suc 2 i, bit_one-le i (a / 2) h)

-- Bit `i` is flipped: 2 ^ i is added where the bit is 0, and taken off where it is 1.
pub bit_xor-pow : (i a : ℕ) → bit_xor a (2 ^ i) ≡ (if bit a i == 0 then a + 2 ^ i else a - 2 ^ i)
unfolding bit
bit_xor-pow zero a = ground (
  arith,
  bit_xor_step a 1,
  differ-one (a % 2) (omega arith),
  bit_xor_nil (a / 2) (a / 2) (omega arith),
)
bit_xor-pow (suc i) a =
    let half : 2 ^ suc i / 2 ≡ 2 ^ i = omega (arith, pow-suc 2 i) in
    let even : 2 ^ suc i % 2 ≡ 0 = omega (arith, pow-suc 2 i) in
    bit_xor_step a (2 ^ suc i)
    ∙ rw (half, even, bit_xor-pow i (a / 2), differ-zero)
        (ground (arith, pow-suc 2 i, bit_one-le i (a / 2)))

pub bit-div : (i w : ℕ) → bit w i ≡ w / 2 ^ i % 2
bit-div i w = sym (shr-bit w i) ∙ bit_and-ones 1 (w / 2 ^ i)
