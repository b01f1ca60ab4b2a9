-- ===== src/Kernel/Sched/Wait/Slots.antt =====
-- src/kernel/sched/wait.rs: the word of a wait queue as a set of slots.
use zheos.Common.{
  ℕ, zero, suc, ◌-◌, ◌*◌, ◌/◌, ◌%◌, ◌^◌, ◌≤◌, ◌<◌, ◌≡◌, refl, ap, ap₂, ◌∙◌, sym, max, min, Bool,
  true, false, not, ◌&&◌, ◌||◌, ◌==◌, ◌/=◌, if◌then◌else◌, arith, bit_or, bit_and, ◌<<<◌, u32,
}
use zheos.Common.Bits.{bit_and-digit, bit_or-digit, bit_and-bit}
use native.Mathlib.Nat.{pow-suc, one-le-pow, mul_comm, div-div-eq-div-mul, pow-le-pow_right}
use zheos.Kernel.Sched.Wait.{waits}

-- Bit `k` of a number.
abbrev bit_at : ℕ → ℕ → ℕ
bit_at a k = a / 2 ^ k % 2

bit_at-suc : (a k : ℕ) → bit_at a (suc k) ≡ bit_at (a / 2) k
bit_at-suc a k =
    ap (λ (t : ℕ). t % 2)
      (ap (λ (t : ℕ). a / t) (pow-suc 2 k ∙ mul_comm (2 ^ k) 2)
        ∙ sym (div-div-eq-div-mul a 2 (2 ^ k)))

bit_at-bit_or : (a b k : ℕ) → bit_at (bit_or a b) k ≡ max (bit_at a k) (bit_at b k)
bit_at-bit_or a b zero = omega (arith, bit_or-digit a b)
bit_at-bit_or a b (suc k) =
    let half : bit_or a b / 2 ≡ bit_or (a / 2) (b / 2) = omega (arith, bit_or-digit a b) in
    bit_at-suc (bit_or a b) k
    ∙ ap (λ t. bit_at t k) half
    ∙ bit_at-bit_or (a / 2) (b / 2) k
    ∙ sym (ap₂ max (bit_at-suc a k) (bit_at-suc b k))

bit_at-bit_and : (a b k : ℕ) → bit_at (bit_and a b) k ≡ min (bit_at a k) (bit_at b k)
bit_at-bit_and a b zero = omega (arith, bit_and-digit a b)
bit_at-bit_and a b (suc k) =
    let half : bit_and a b / 2 ≡ bit_and (a / 2) (b / 2) = omega (arith, bit_and-digit a b) in
    bit_at-suc (bit_and a b) k
    ∙ ap (λ t. bit_at t k) half
    ∙ bit_at-bit_and (a / 2) (b / 2) k
    ∙ sym (ap₂ min (bit_at-suc a k) (bit_at-suc b k))

bit_at-zero : (k : ℕ) → bit_at 0 k ≡ 0
bit_at-zero zero = refl
bit_at-zero (suc k) = bit_at-suc 0 k ∙ bit_at-zero k

-- The test of `suc c` and `suc k` is that of `c` and `k`.
same-suc : (c k : ℕ) → (suc c == suc k) ≡ (c == k)
same-suc c k = ground arith

other : (k : ℕ) → (0 == suc k) ≡ false
other k = ground arith

above : (k : ℕ) → (suc k == 0) ≡ false
above k = ground arith

bit_at-pow : (c k : ℕ) → bit_at (2 ^ c) k ≡ (if c == k then 1 else 0)
bit_at-pow zero zero = refl
bit_at-pow zero (suc k) =
    bit_at-suc 1 k ∙ bit_at-zero k ∙ sym (ap (λ b. if b then 1 else 0) (other k))
bit_at-pow (suc c) zero = ground (arith, pow-suc 2 c)
bit_at-pow (suc c) (suc k) =
    let half : 2 ^ suc c / 2 ≡ 2 ^ c = omega (arith, pow-suc 2 c) in
    bit_at-suc (2 ^ suc c) k
    ∙ ap (λ t. bit_at t k) half
    ∙ bit_at-pow c k
    ∙ ap (λ b. if b then 1 else 0) (sym (same-suc c k))

bit_at-ones : (n k : ℕ) → k < n → bit_at (2 ^ n - 1) k ≡ 1
bit_at-ones zero k h = absurd (omega arith)
bit_at-ones (suc n) zero h = omega (arith, pow-suc 2 n, one-le-pow n 2 (omega arith))
bit_at-ones (suc n) (suc k) h =
    let half : (2 ^ suc n - 1) / 2 ≡ 2 ^ n - 1 = omega (arith, pow-suc 2 n) in
    bit_at-suc (2 ^ suc n - 1) k ∙ ap (λ t. bit_at t k) half ∙ bit_at-ones n k (omega arith)

-- All ones but at `c`.
bit_at-but : (n c k : ℕ) → c < n → k < n → bit_at (2 ^ n - 1 - 2 ^ c) k ≡ (if c == k then 0 else 1)
bit_at-but zero c k h g = absurd (omega arith)
bit_at-but (suc n) zero zero h g = omega (arith, pow-suc 2 n)
bit_at-but (suc n) zero (suc k) h g =
    let half : (2 ^ suc n - 1 - 1) / 2 ≡ 2 ^ n - 1 =
      omega (arith, pow-suc 2 n, one-le-pow n 2 (omega arith)) in
    bit_at-suc (2 ^ suc n - 1 - 1) k
    ∙ ap (λ t. bit_at t k) half
    ∙ bit_at-ones n k (omega arith)
    ∙ sym (ap (λ b. if b then 0 else 1) (other k))
bit_at-but (suc n) (suc c) zero h g =
    let less = pow-le-pow_right {n = 2} (omega arith) {i = suc c} {j = n} (omega arith) in
    let odd : bit_at (2 ^ suc n - 1 - 2 ^ suc c) 0 ≡ 1 =
      omega (arith, pow-suc 2 n, pow-suc 2 c, less, one-le-pow c 2 (omega arith)) in
    odd ∙ sym (ap (λ b. if b then 0 else 1) (above c))
bit_at-but (suc n) (suc c) (suc k) h g =
    let half : (2 ^ suc n - 1 - 2 ^ suc c) / 2 ≡ 2 ^ n - 1 - 2 ^ c =
      omega (arith, pow-suc 2 n, pow-suc 2 c) in
    bit_at-suc (2 ^ suc n - 1 - 2 ^ suc c) k
    ∙ ap (λ t. bit_at t k) half
    ∙ bit_at-but n c k (omega arith) (omega arith)
    ∙ ap (λ b. if b then 0 else 1) (sym (same-suc c k))

shifted : (c : ℕ) → c < 4 → u32 (1 <<< c) ≡ 2 ^ c
shifted c h =
    let most = pow-le-pow_right {n = 2} (omega arith) {i = c} {j = 4} (omega arith) in
    omega (arith, most)

times-test : (b p : ℕ) → b < 2 → 1 ≤ p → (b * p /= 0) ≡ (b == 1)
times-test zero p h g = ground arith
times-test (suc zero) p h g = ground arith
times-test (suc (suc b)) p h g = absurd (omega arith)

max-test : (t : Bool) (b : ℕ) → b < 2 → (max b (if t then 1 else 0) == 1) ≡ (t || b == 1)
max-test true b h = ground arith
max-test false b h = ground arith

min-test : (t : Bool) (b : ℕ) → b < 2 → (min b (if t then 0 else 1) == 1) ≡ (not t && b == 1)
min-test true b h = ground arith
min-test false b h = ground arith

waits-bit_at : (w j : ℕ) → j < 4 → waits w j ≡ (bit_at w j == 1)
waits-bit_at w j h =
    let positive = one-le-pow j 2 (omega arith) in
    ap (λ m. bit_and w m /= 0) (shifted j h)
    ∙ ap (λ m. m /= 0) (bit_and-bit j w)
    ∙ times-test (w / 2 ^ j % 2) (2 ^ j) (omega arith) positive

-- The word with slot `c` put in, and with it taken out.
pub waits-put :
    (w c j : ℕ) → c < 4 → j < 4 → waits (bit_or w (u32 (1 <<< c))) j ≡ (c == j || waits w j)
waits-put w c j h g =
    waits-bit_at (bit_or w (u32 (1 <<< c))) j g
    ∙ ap (λ b. b == 1)
        (ap (λ m. bit_at (bit_or w m) j) (shifted c h)
          ∙ bit_at-bit_or w (2 ^ c) j
          ∙ ap (max (bit_at w j)) (bit_at-pow c j))
    ∙ max-test (c == j) (bit_at w j) (omega arith)
    ∙ ap (λ b. c == j || b) (sym (waits-bit_at w j g))

pub waits-out :
    (w c j : ℕ)
    → c < 4
    → j < 4
    → waits (bit_and w (2 ^ 32 - 1 - u32 (1 <<< c))) j ≡ (not (c == j) && waits w j)
waits-out w c j h g =
    waits-bit_at (bit_and w (2 ^ 32 - 1 - u32 (1 <<< c))) j g
    ∙ ap (λ b. b == 1)
        (ap (λ (m : ℕ). bit_at (bit_and w (2 ^ 32 - 1 - m)) j) (shifted c h)
          ∙ bit_at-bit_and w (2 ^ 32 - 1 - 2 ^ c) j
          ∙ ap (min (bit_at w j)) (bit_at-but 32 c j (omega arith) (omega arith)))
    ∙ min-test (c == j) (bit_at w j) (omega arith)
    ∙ ap (λ b. not (c == j) && b) (sym (waits-bit_at w j g))
