-- ===== src/Word/Bits.antt =====
-- The bits of a word: what `&`, `|`, `~` and the shifts do to each of them, at every width.
use Prim.Native.Nat.{digits, bit_and-bitwise, bit_or-bitwise}
use native.Mathlib.Nat.{pow-suc, pow-succ', one-le-pow, pow-le-pow_right, div-div-eq-div-mul}
use dreamos_cversion.Word.Defs.{size_mod, number_max, not_size, shl}
use dreamos_cversion.Base.{
  ℕ, zero, suc, ◌+◌, ◌-◌, ◌*◌, ◌/◌, ◌%◌, ◌^◌, ◌<◌, ◌≤◌, ◌≡◌, refl, ◌∙◌, min, max, bit_and, bit_or,
  arith, ◌==◌, if◌then◌else◌,
}

-- Both operations are one recursion on the digits, which needs no more fuel than its first number.
module _ (left : ℕ → ℕ) (join : ℕ → ℕ → ℕ) where
  pub digits_enough :
      (a k l b : ℕ) → a ≤ k → a ≤ l → digits left join k a b ≡ digits left join l a b
  digits_enough zero zero zero b p q = refl
  digits_enough zero zero (suc l) b p q = refl
  digits_enough zero (suc k) zero b p q = refl
  digits_enough zero (suc k) (suc l) b p q = refl
  digits_enough (suc a) zero l b p q = elim p [ ]
  digits_enough (suc a) (suc k) zero b p q = elim q [ ]
  digits_enough (suc a) (suc k) (suc l) b p q =
      omega (arith, digits_enough (suc a / 2) k l (b / 2) (omega arith) (omega arith))

pub bit_and_step : (a b : ℕ) → bit_and a b ≡ bit_and (a / 2) (b / 2) * 2 + min (a % 2) (b % 2)
bit_and_step zero b = omega (arith, bit_and-bitwise 0 b, bit_and-bitwise 0 (b / 2))
bit_and_step (suc a) b = omega (
  arith,
  bit_and-bitwise (suc a) b,
  bit_and-bitwise (suc a / 2) (b / 2),
  digits_enough (λ b. zero) min (suc a / 2) a (suc a / 2) (b / 2) (omega arith) (omega arith),
)

pub bit_or_step : (a b : ℕ) → bit_or a b ≡ bit_or (a / 2) (b / 2) * 2 + max (a % 2) (b % 2)
bit_or_step zero b = omega (arith, bit_or-bitwise 0 b, bit_or-bitwise 0 (b / 2))
bit_or_step (suc a) b = omega (
  arith,
  bit_or-bitwise (suc a) b,
  bit_or-bitwise (suc a / 2) (b / 2),
  digits_enough (λ b. b) max (suc a / 2) a (suc a / 2) (b / 2) (omega arith) (omega arith),
)

-- Bit `i` of `w`.
unfoldable pub bit : ℕ → ℕ → ℕ
bit w zero = w % 2
bit w (suc i) = bit (w / 2) i

pub bit-lt : (w i : ℕ) → bit w i < 2
unfolding bit
bit-lt w zero = omega arith
bit-lt w (suc i) = bit-lt (w / 2) i

pub bit-bit_and : (a b i : ℕ) → bit (bit_and a b) i ≡ min (bit a i) (bit b i)
unfolding bit
bit-bit_and a b zero = omega (arith, bit_and_step a b)
bit-bit_and a b (suc i) =
    let half : bit_and a b / 2 ≡ bit_and (a / 2) (b / 2) = omega (arith, bit_and_step a b) in
    rw half (bit-bit_and (a / 2) (b / 2) i)

pub bit-bit_or : (a b i : ℕ) → bit (bit_or a b) i ≡ max (bit a i) (bit b i)
unfolding bit
bit-bit_or a b zero = omega (arith, bit_or_step a b)
bit-bit_or a b (suc i) =
    let half : bit_or a b / 2 ≡ bit_or (a / 2) (b / 2) = omega (arith, bit_or_step a b) in
    rw half (bit-bit_or (a / 2) (b / 2) i)

pub bit-zero : (i : ℕ) → bit 0 i ≡ 0
unfolding bit
bit-zero zero = refl
bit-zero (suc i) = bit-zero i

-- `2 ^ k - 1 - w` is `~w` at width k.
pub bit-complement : (k w i : ℕ) → w < 2 ^ k → i < k → bit (2 ^ k - 1 - w) i ≡ 1 - bit w i
unfolding bit
bit-complement zero w i h lt = elim lt [ ]
bit-complement (suc k) w zero h lt = omega (arith, pow-suc 2 k)
bit-complement (suc k) w (suc i) h lt =
    let half : (2 ^ suc k - 1 - w) / 2 ≡ 2 ^ k - 1 - w / 2 = omega (arith, pow-suc 2 k) in
    rw half (bit-complement k (w / 2) i (omega (arith, pow-suc 2 k)) (omega arith))

pub bit-pow : (k i : ℕ) → bit (2 ^ k) i ≡ (if k == i then 1 else 0)
unfolding bit
bit-pow zero zero = refl
bit-pow zero (suc i) = ground (arith, bit-zero i)
bit-pow (suc k) zero = ground (arith, pow-suc 2 k)
bit-pow (suc k) (suc i) =
    let half : 2 ^ suc k / 2 ≡ 2 ^ k = omega (arith, pow-suc 2 k) in
    rw half (ground (arith, bit-pow k i))

bit_and_nil : (n a : ℕ) → a ≤ n → bit_and a 0 ≡ 0
bit_and_nil n zero h = bit_and-bitwise 0 0
bit_and_nil zero (suc a) h = elim h [ ]
bit_and_nil (suc n) (suc a) h =
    omega (arith, bit_and_step (suc a) 0, bit_and_nil n (suc a / 2) (omega arith))

double-mod : (a p : ℕ) → 0 < p → (a / 2 % p) * 2 + a % 2 ≡ a % (p * 2)
double-mod a p h = grind arith

-- A mask of `k` ones keeps the remainder by `2 ^ k`.
pub bit_and-ones : (k a : ℕ) → bit_and a (2 ^ k - 1) ≡ a % 2 ^ k
bit_and-ones zero a = omega (arith, bit_and_nil a a (omega arith))
bit_and-ones (suc k) a =
    let half : (2 ^ suc k - 1) / 2 ≡ 2 ^ k - 1 = omega (arith, pow-suc 2 k) in
    let odd : (2 ^ suc k - 1) % 2 ≡ 1 = omega (arith, pow-suc 2 k, one-le-pow k 2 (omega arith)) in
    bit_and_step a (2 ^ suc k - 1)
    ∙ rw (half, odd, bit_and-ones k (a / 2), pow-suc)
        (ground (arith, double-mod a (2 ^ k) (one-le-pow k 2 (omega arith))))

-- `(w >> i) & 1`
pub shr-bit : (w i : ℕ) → bit_and (w / 2 ^ i) 1 ≡ bit w i
unfolding bit
shr-bit w zero = bit_and-ones 1 (w / 1) ∙ omega arith
shr-bit w (suc i) =
    let shift : w / 2 ^ suc i ≡ w / 2 / 2 ^ i = rw (pow-succ', div-div-eq-div-mul) in
    rw shift (shr-bit (w / 2) i)

-- Words with the same bits are equal.
pub eq_of_bits : (k a b : ℕ) → a < 2 ^ k → b < 2 ^ k → ((i : ℕ) → i < k → bit a i ≡ bit b i) → a ≡ b
unfolding bit
eq_of_bits zero a b p q h = omega arith
eq_of_bits (suc k) a b p q h =
    let low : a % 2 ≡ b % 2 = h 0 (omega arith) in
    let high : a / 2 ≡ b / 2 =
      eq_of_bits k (a / 2) (b / 2) (omega (arith, pow-suc 2 k)) (omega (arith, pow-suc 2 k))
        (λ i lt. h (suc i) (omega arith)) in
    omega arith

pub pow-lt-size : (i : ℕ) → i < 64 → 2 ^ i < 2 ^ 64
pow-lt-size i h =
    omega (arith, pow-le-pow_right {n = 2} (omega arith) {i = i} {j = 63} (omega arith))

pub shl_one : (i : ℕ) → i < 64 → shl 1 i ≡ 2 ^ i
shl_one i h = omega (arith, pow-lt-size i h)

-- A single bit, shifted into place.
pub bit-shl : (v i j : ℕ) → v < 2 → i < 64 → bit (shl v i) j ≡ (if i == j then v else 0)
bit-shl zero i j h lt = ground (arith, bit-zero j)
bit-shl (suc zero) i j h lt = rw (shl_one i lt) (bit-pow i j)
bit-shl (suc (suc v)) i j h lt = absurd (omega arith)

pub bit-number_max : (i : ℕ) → i < 64 → bit number_max i ≡ 1
bit-number_max i lt = ground (arith, bit-complement 64 0 i (omega arith) lt, bit-zero i)

pub bit-not_size : (w i : ℕ) → w < size_mod → i < 64 → bit (not_size w) i ≡ 1 - bit w i
bit-not_size w i h lt = bit-complement 64 w i h lt

-- The operations stay within a width.
pub bit_and-lt : (k a b : ℕ) → a < 2 ^ k → bit_and a b < 2 ^ k
bit_and-lt zero zero b h = omega (arith, bit_and-bitwise 0 b)
bit_and-lt zero (suc a) b h = absurd (omega arith)
bit_and-lt (suc k) a b h = omega (
  arith,
  pow-suc 2 k,
  bit_and_step a b,
  bit_and-lt k (a / 2) (b / 2) (omega (arith, pow-suc 2 k)),
)

pub bit_or-lt : (k a b : ℕ) → a < 2 ^ k → b < 2 ^ k → bit_or a b < 2 ^ k
bit_or-lt zero zero b h p = omega (arith, bit_or-bitwise 0 b)
bit_or-lt zero (suc a) b h p = absurd (omega arith)
bit_or-lt (suc k) a b h p = omega (
  arith,
  pow-suc 2 k,
  bit_or_step a b,
  bit_or-lt k (a / 2) (b / 2) (omega (arith, pow-suc 2 k)) (omega (arith, pow-suc 2 k)),
)
