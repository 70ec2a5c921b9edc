-- ===== src/Base/Bits.antt =====
-- Laws of `bit_xor`, `bit_or` and `bit_and` at variables, from the digit recursion that the native
-- operations stand for.
use Prim.Native.Nat.{
  ℕ, zero, suc, ◌+◌, ◌-◌, ◌*◌, ◌/◌, ◌%◌, ◌^◌, ◌≤◌, ◌<◌, min, max, bit_and, bit_or, bit_xor, differ,
  digits, bitwise, bit_and-bitwise, bit_or-bitwise, bit_xor-bitwise,
}
use mathlib.Core.Path.{◌≡◌, refl, ap, ◌∙◌}
use native.Mathlib.Nat.{pow-suc}
use native.Mathlib.Omega.{arith}

-- Fuel that is not needed changes nothing.
module _ (z : ℕ → ℕ) (f : ℕ → ℕ → ℕ) where
  one_more : (b n a : ℕ) → a ≤ n → digits z f (suc n) a b ≡ digits z f n a b
  one_more b zero zero h = refl
  one_more b (suc n) zero h = refl
  one_more b zero (suc a) h = absurd (omega arith)
  one_more b (suc n) (suc a) h = rw (one_more (b / 2) n (suc a / 2) (omega arith))

  many_more : (b n a k : ℕ) → a ≤ n → digits z f (k + n) a b ≡ digits z f n a b
  many_more b n a zero h = ap (λ (t : ℕ). digits z f t a b) {x = 0 + n} {y = n} (omega arith)
  many_more b n a (suc k) h =
      ap (λ (t : ℕ). digits z f t a b) {x = suc k + n} {y = suc (k + n)} (omega arith)
      ∙ one_more b (k + n) a (omega arith)
      ∙ many_more b n a k h

  half_digits : (a half b : ℕ) → half ≤ a → digits z f a half b ≡ bitwise z f half b
  half_digits a half b h =
      ap (λ (n : ℕ). digits z f n half b) {x = a} {y = a - half + half} (omega arith)
      ∙ many_more b half half (a - half) (omega arith)

  lowest_digit :
      (b a : ℕ)
      → f (suc a % 2) (b % 2) + 2 * bitwise z f (suc a / 2) (b / 2) ≡ bitwise z f (suc a) b
  lowest_digit b a = omega (arith, half_digits a (suc a / 2) (b / 2) (omega arith))

differ-bit : (y x : ℕ) → y < 2 → x < 2 → differ x y ≡ (x + y) % 2
differ-bit y zero q p = omega arith
differ-bit zero (suc zero) q p = refl
differ-bit (suc zero) (suc zero) q p = refl
differ-bit (suc (suc y)) (suc zero) q p = absurd (omega arith)
differ-bit y (suc (suc x)) q p = absurd (omega arith)

bit_xor-differ : (b a : ℕ) → differ (a % 2) (b % 2) + 2 * bit_xor (a / 2) (b / 2) ≡ bit_xor a b
bit_xor-differ b zero = simp bit_xor-bitwise (omega arith)
bit_xor-differ b (suc a) = simp bit_xor-bitwise (lowest_digit (λ y. y) differ b a)

pub bit_xor_step : (a b : ℕ) → bit_xor a b ≡ bit_xor (a / 2) (b / 2) * 2 + (a % 2 + b % 2) % 2
bit_xor_step a b =
    omega (arith, bit_xor-differ b a, differ-bit (b % 2) (a % 2) (omega arith) (omega arith))

bit_and_step : (a b : ℕ) → min (a % 2) (b % 2) + 2 * bit_and (a / 2) (b / 2) ≡ bit_and a b
bit_and_step zero b = simp bit_and-bitwise (omega arith)
bit_and_step (suc a) b = simp bit_and-bitwise (lowest_digit (λ y. 0) min b a)

pub bit_or_step : (a b : ℕ) → max (a % 2) (b % 2) + 2 * bit_or (a / 2) (b / 2) ≡ bit_or a b
bit_or_step zero b = simp bit_or-bitwise (omega arith)
bit_or_step (suc a) b = simp bit_or-bitwise (lowest_digit (λ y. y) max b a)

zero-bit_or : (b : ℕ) → bit_or 0 b ≡ b
zero-bit_or b = bit_or-bitwise 0 b

zero-bit_xor : (b : ℕ) → bit_xor 0 b ≡ b
zero-bit_xor b = bit_xor-bitwise 0 b

zero-bit_and : (b : ℕ) → bit_and 0 b ≡ 0
zero-bit_and b = bit_and-bitwise 0 b

-- Fields.

two_pow : (q k : ℕ) → q * 2 ^ suc k ≡ 2 * (q * 2 ^ k)
two_pow q k = omega (arith, ap (λ (t : ℕ). q * t) (pow-suc 2 k))

pub bit_or_low_high : (k lo q : ℕ) → lo < 2 ^ k → bit_or lo (q * 2 ^ k) ≡ q * 2 ^ k + lo
bit_or_low_high zero zero q h = omega (arith, zero-bit_or (q * 2 ^ 0))
bit_or_low_high zero (suc lo) q h = absurd (omega arith)
bit_or_low_high (suc k) lo q h = ground (
  arith,
  bit_or_step lo (q * 2 ^ suc k),
  two_pow q k,
  pow-suc 2 k,
  bit_or_low_high k (lo / 2) q (omega (arith, pow-suc 2 k)),
)

bit_or_comm_fuel : (n a b : ℕ) → a ≤ n → b ≤ n → bit_or a b ≡ bit_or b a
bit_or_comm_fuel zero zero zero p q = refl
bit_or_comm_fuel zero zero (suc b) p q = absurd (omega arith)
bit_or_comm_fuel zero (suc a) b p q = absurd (omega arith)
bit_or_comm_fuel (suc n) a b p q = omega (
  arith,
  bit_or_step a b,
  bit_or_step b a,
  bit_or_comm_fuel n (a / 2) (b / 2) (omega arith) (omega arith),
)

bit_or_comm : (a b : ℕ) → bit_or a b ≡ bit_or b a
bit_or_comm a b = bit_or_comm_fuel (a + b) a b (omega arith) (omega arith)

-- `(q << k) | lo` is a sum when `lo` fits into `k` bits.
pub bit_or_high_low : (k q lo : ℕ) → lo < 2 ^ k → bit_or (q * 2 ^ k) lo ≡ q * 2 ^ k + lo
bit_or_high_low k q lo h = bit_or_comm (q * 2 ^ k) lo ∙ bit_or_low_high k lo q h

-- Masks.

bit_and_none : (n a : ℕ) → a ≤ n → bit_and a 0 ≡ 0
bit_and_none n zero h = zero-bit_and 0
bit_and_none zero (suc a) h = absurd (omega arith)
bit_and_none (suc n) (suc a) h =
    omega (arith, bit_and_step (suc a) 0, bit_and_none n (suc a / 2) (omega arith))

pub bit_and-one : (a : ℕ) → bit_and a 1 ≡ a % 2
bit_and-one a = omega (arith, bit_and_step a 1, bit_and_none (a / 2) (a / 2) (omega arith))

bit_and-15 : (a : ℕ) → bit_and a 15 ≡ a % 16
bit_and-15 a = omega (
  arith,
  bit_and_step a 15,
  bit_and_step (a / 2) 7,
  bit_and_step (a / 2 / 2) 3,
  bit_and-one (a / 2 / 2 / 2),
)

pub bit_and-255 : (a : ℕ) → bit_and a 255 ≡ a % 256
bit_and-255 a = omega (
  arith,
  bit_and_step a 255,
  bit_and_step (a / 2) 127,
  bit_and_step (a / 2 / 2) 63,
  bit_and_step (a / 2 / 2 / 2) 31,
  bit_and-15 (a / 2 / 2 / 2 / 2),
)

-- Exclusive or.

pub bit_xor-lt : (k a b : ℕ) → a < 2 ^ k → b < 2 ^ k → bit_xor a b < 2 ^ k
bit_xor-lt zero a b p q = ground (arith, zero-bit_xor 0)
bit_xor-lt (suc k) a b p q = omega (
  arith,
  bit_xor_step a b,
  pow-suc 2 k,
  bit_xor-lt k (a / 2) (b / 2) (omega (arith, pow-suc 2 k)) (omega (arith, pow-suc 2 k)),
)

-- A number with a digit at or above place `k` keeps one when a smaller one is mixed in.
pub bit_xor_high : (k a b : ℕ) → a < 2 ^ k → 2 ^ k ≤ b → 2 ^ k ≤ bit_xor a b
bit_xor_high zero a b p q = ground (arith, zero-bit_xor b)
bit_xor_high (suc k) a b p q = omega (
  arith,
  bit_xor_step a b,
  pow-suc 2 k,
  bit_xor_high k (a / 2) (b / 2) (omega (arith, pow-suc 2 k)) (omega (arith, pow-suc 2 k)),
)

cancel_right : (n a b c : ℕ) → a ≤ n → b ≤ n → bit_xor a c ≡ bit_xor b c → a ≡ b
cancel_right zero a b c p q e = omega arith
cancel_right (suc n) a b c p q e =
    let halves =
      cancel_right n (a / 2) (b / 2) (c / 2) (omega arith) (omega arith)
        (omega (arith, bit_xor_step a c, bit_xor_step b c)) in
    omega (arith, bit_xor_step a c, bit_xor_step b c, halves)

pub bit_xor_cancel_right : (a b c : ℕ) → bit_xor a c ≡ bit_xor b c → a ≡ b
bit_xor_cancel_right a b c = cancel_right (a + b) a b c (omega arith) (omega arith)

cancel_left : (n a b c : ℕ) → c ≤ n → bit_xor c a ≡ bit_xor c b → a ≡ b
cancel_left zero a b zero p e = omega (arith, zero-bit_xor a, zero-bit_xor b)
cancel_left zero a b (suc c) p e = absurd (omega arith)
cancel_left (suc n) a b c p e =
    let halves =
      cancel_left n (a / 2) (b / 2) (c / 2) (omega arith)
        (omega (arith, bit_xor_step c a, bit_xor_step c b)) in
    omega (arith, bit_xor_step c a, bit_xor_step c b, halves)

pub bit_xor_cancel_left : (a b c : ℕ) → bit_xor c a ≡ bit_xor c b → a ≡ b
bit_xor_cancel_left a b c = cancel_left c a b c (omega arith)
