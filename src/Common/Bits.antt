-- ===== src/Common/Bits.antt =====
-- The laws of `&`, `|` and `^` at variables. The native operations stand for a recursion on
-- binary digits with fuel; here the fuel is dropped, and masks and disjoint fields become
-- remainders and sums, which `omega` reads.
use Prim.Native.Nat.{digits, bitwise, bit_and-bitwise, bit_or-bitwise}
use Prim.Native.Nat.{ℕ, zero, suc, ◌+◌, ◌-◌, ◌*◌, ◌/◌, ◌%◌, ◌^◌, ◌≤◌, ◌<◌, min, max}
use Prim.Native.Nat.{bit_and, bit_or}
use mathlib.Core.Path.{◌≡◌, refl, sym, ap, ◌∙◌}
use native.Mathlib.Nat.{le_refl, pow-suc, one-le-pow, mul_comm, div-div-eq-div-mul, div-add-mod'}
use native.Mathlib.Omega.{arith}

module _ (rest : ℕ → ℕ) (op : ℕ → ℕ → ℕ) where
  -- More fuel than the number needs changes nothing.
  digits-fuel : (k l a b : ℕ) → a ≤ k → a ≤ l → digits rest op k a b ≡ digits rest op l a b
  digits-fuel zero zero a b p q = refl
  digits-fuel (suc k) (suc l) zero b p q = refl
  digits-fuel (suc k) zero zero b p q = refl
  digits-fuel zero (suc l) zero b p q = refl
  digits-fuel (suc k) zero (suc a) b p q = absurd (omega arith)
  digits-fuel zero (suc l) (suc a) b p q = absurd (omega arith)
  digits-fuel (suc k) (suc l) (suc a) b p q =
      let half : suc a / 2 ≤ k = omega arith in
      let half' : suc a / 2 ≤ l = omega arith in
      ap (λ t. t * 2 + op (suc a % 2) (b % 2)) (digits-fuel k l (suc a / 2) (b / 2) half half')

  low_digit :
      (a b : ℕ)
      → bitwise rest op (suc a) b ≡ bitwise rest op (suc a / 2) (b / 2) * 2 + op (suc a % 2) (b % 2)
  low_digit a b =
      ap (λ t. t * 2 + op (suc a % 2) (b % 2))
        (digits-fuel a (suc a / 2) (suc a / 2) (b / 2) (omega arith) (le_refl _))

pub bit_and-digit : (a b : ℕ) → bit_and a b ≡ bit_and (a / 2) (b / 2) * 2 + min (a % 2) (b % 2)
bit_and-digit zero b = simp bit_and-bitwise (omega arith)
bit_and-digit (suc a) b = simp bit_and-bitwise (low_digit (λ y. 0) min a b)

pub bit_or-digit : (a b : ℕ) → bit_or a b ≡ bit_or (a / 2) (b / 2) * 2 + max (a % 2) (b % 2)
bit_or-digit zero b = simp bit_or-bitwise (omega arith)
bit_or-digit (suc a) b = simp bit_or-bitwise (low_digit (λ y. y) max a b)

pub zero-bit_and : (b : ℕ) → bit_and 0 b ≡ 0
zero-bit_and b = bit_and-bitwise 0 b

pub zero-bit_or : (b : ℕ) → bit_or 0 b ≡ b
zero-bit_or b = bit_or-bitwise 0 b

bit_and-zero_below : (n a : ℕ) → a ≤ n → bit_and a 0 ≡ 0
bit_and-zero_below n zero h = refl
bit_and-zero_below zero (suc a) h = absurd (omega arith)
bit_and-zero_below (suc n) (suc a) h =
    omega (arith, bit_and-digit (suc a) 0, bit_and-zero_below n (suc a / 2) (omega arith))

pub bit_and-zero : (a : ℕ) → bit_and a 0 ≡ 0
bit_and-zero a = bit_and-zero_below a a (le_refl a)

double_pow : (q k : ℕ) → q * 2 ^ suc k ≡ q * 2 ^ k * 2
double_pow q k = omega (arith, ap (λ (t : ℕ). q * t) (pow-suc 2 k))

half_double : (n : ℕ) → n * 2 / 2 ≡ n
half_double n = omega arith

div-double : (a k : ℕ) → a / 2 ^ suc k ≡ a / 2 / 2 ^ k
div-double a k =
    ap (λ t. a / t) (pow-suc 2 k ∙ mul_comm (2 ^ k) 2) ∙ sym (div-div-eq-div-mul a 2 (2 ^ k))

mod-double : (a k : ℕ) → a % 2 ^ suc k ≡ a / 2 % 2 ^ k * 2 + a % 2
mod-double a k = ground (
  arith,
  div-add-mod' a (2 ^ suc k),
  div-add-mod' (a / 2) (2 ^ k),
  div-double a k,
  double_pow (a / 2 / 2 ^ k) k,
)

-- A mask of the `k` low bits is the remainder by `2 ^ k`.
pub bit_and-mask : (k a : ℕ) → bit_and a (2 ^ k - 1) ≡ a % 2 ^ k
bit_and-mask zero a = omega (arith, bit_and-zero a)
bit_and-mask (suc k) a = ground (
  arith,
  bit_and-digit a (2 ^ suc k - 1),
  pow-suc 2 k,
  one-le-pow k 2,
  mod-double a k,
  bit_and-mask k (a / 2),
)

-- A mask shifted up by `k` cuts the `k` low bits off first.
pub bit_and-shifted : (k a m : ℕ) → bit_and a (m * 2 ^ k) ≡ bit_and (a / 2 ^ k) m * 2 ^ k
bit_and-shifted zero a m = ground arith
bit_and-shifted (suc k) a m = ground (
  arith,
  bit_and-digit a (m * 2 ^ suc k),
  double_pow m k,
  double_pow (bit_and (a / 2 / 2 ^ k) m) k,
  div-double a k,
  bit_and-shifted k (a / 2) m,
)

-- `low | (high <<< k)` is a sum where `low` fits the `k` bits.
pub bit_or-high : (k low high : ℕ) → low < 2 ^ k → bit_or low (high * 2 ^ k) ≡ low + high * 2 ^ k
bit_or-high zero low high h = ground (arith, zero-bit_or high)
bit_or-high (suc k) low high h = ground (
  arith,
  bit_or-digit low (high * 2 ^ suc k),
  double_pow high k,
  pow-suc 2 k,
  bit_or-high k (low / 2) high,
)

bit_or-zero_below : (n a : ℕ) → a ≤ n → bit_or a 0 ≡ a
bit_or-zero_below n zero h = zero-bit_or 0
bit_or-zero_below zero (suc a) h = absurd (omega arith)
bit_or-zero_below (suc n) (suc a) h =
    omega (arith, bit_or-digit (suc a) 0, bit_or-zero_below n (suc a / 2) (omega arith))

-- The same with the high part first.
pub bit_or-low : (k low high : ℕ) → low < 2 ^ k → bit_or (high * 2 ^ k) low ≡ high * 2 ^ k + low
bit_or-low zero low high h =
    let none_low : low ≡ 0 = omega arith in
    rw none_low (bit_or-zero_below (high * 1) (high * 1) (le_refl _) ∙ omega arith)
bit_or-low (suc k) low high h = ground (
  arith,
  bit_or-digit (high * 2 ^ suc k) low,
  double_pow high k,
  pow-suc 2 k,
  bit_or-low k (low / 2) high,
)

-- One bit of a word, as a test reads it.
pub bit_and-bit : (k a : ℕ) → bit_and a (2 ^ k) ≡ a / 2 ^ k % 2 * 2 ^ k
bit_and-bit k a = ground (arith, bit_and-shifted k a 1, bit_and-mask 1 (a / 2 ^ k))

pub pow-add : (j k : ℕ) → 2 ^ (j + k) ≡ 2 ^ j * 2 ^ k
pow-add zero k = ground arith
pow-add (suc j) k =
    let front : suc j + k ≡ suc (j + k) = omega arith in
    ap (λ t. 2 ^ t) front
    ∙ pow-suc 2 (j + k)
    ∙ omega (arith, pow-add j k, ap (λ (t : ℕ). t * 2 ^ k) (pow-suc 2 j))
