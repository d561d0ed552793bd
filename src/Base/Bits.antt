-- ===== src/Base/Bits.antt =====
-- The digits of `bit_and`, `bit_or` and `bit_xor`, at variables.
use Prim.Native.Nat.{
  ℕ, zero, suc, ◌+◌, ◌-◌, ◌*◌, ◌/◌, ◌%◌, ◌^◌, ◌≤◌, ◌<◌, min, max, bit_and, bit_or, bit_xor, digits,
  differ, bit_and-bitwise, bit_or-bitwise, bit_xor-bitwise,
}
use mathlib.Core.Path.{◌≡◌, refl, ◌∙◌, sym, ap, ap₂}
use mathlib.Core.WellFounded
use native.Mathlib.Nat.{pow-suc, le_refl, one-le-pow}
use native.Mathlib.Omega.{arith}
mod Order
use Order.{lt_wf}

-- Bit `i` of `x`.
abbrev pub bit_at : ℕ → ℕ → ℕ
bit_at x zero = x % 2
bit_at x (suc i) = bit_at (x / 2) i

module _ (z : ℕ → ℕ) (f : ℕ → ℕ → ℕ) where
  -- Fuel beyond the first number changes nothing.
  enough : (n k a b : ℕ) → a ≤ n → a ≤ k → digits z f n a b ≡ digits z f k a b
  enough n k zero b p q = first n ∙ sym (first k)
    where
      first : (m : ℕ) → digits z f m zero b ≡ z b
      first zero = refl
      first (suc m) = refl
  enough zero k (suc a) b p q = absurd (omega arith)
  enough (suc n) zero (suc a) b p q = absurd (omega arith)
  enough (suc n) (suc k) (suc a) b p q =
      omega (arith, enough n k (suc a / 2) (b / 2) (omega arith) (omega arith))

  lowest :
      (a b : ℕ)
      → digits z f (suc a) (suc a) b
        ≡ digits z f (suc a / 2) (suc a / 2) (b / 2) * 2 + f (suc a % 2) (b % 2)
  lowest a b = omega (arith, enough a (suc a / 2) (suc a / 2) (b / 2) (omega arith) (le_refl _))

pub and_step : (a b : ℕ) → bit_and a b ≡ bit_and (a / 2) (b / 2) * 2 + min (a % 2) (b % 2)
and_step zero b = simp bit_and-bitwise (omega arith)
and_step (suc a) b = simp bit_and-bitwise (lowest (λ y. 0) min a b)

pub or_step : (a b : ℕ) → bit_or a b ≡ bit_or (a / 2) (b / 2) * 2 + max (a % 2) (b % 2)
or_step zero b = simp bit_or-bitwise (omega arith)
or_step (suc a) b = simp bit_or-bitwise (lowest (λ y. y) max a b)

pub xor_step : (a b : ℕ) → bit_xor a b ≡ bit_xor (a / 2) (b / 2) * 2 + differ (a % 2) (b % 2)
xor_step zero b = simp bit_xor-bitwise (omega arith)
xor_step (suc a) b = simp bit_xor-bitwise (lowest (λ y. y) differ a b)

differ-le : (x y : ℕ) → differ x y ≤ max x y
differ-le zero y = omega arith
differ-le (suc x) zero = omega arith
differ-le (suc x) (suc y) = omega (arith, differ-le x y)

-- Each bit of a word operation is the operation on the bits.
pub bit_at-and : (i a b : ℕ) → bit_at (bit_and a b) i ≡ min (bit_at a i) (bit_at b i)
bit_at-and zero a b = omega (arith, and_step a b)
bit_at-and (suc i) a b =
    let half : bit_and a b / 2 ≡ bit_and (a / 2) (b / 2) = omega (arith, and_step a b) in
    rw half (bit_at-and i (a / 2) (b / 2))

pub bit_at-or : (i a b : ℕ) → bit_at (bit_or a b) i ≡ max (bit_at a i) (bit_at b i)
bit_at-or zero a b = omega (arith, or_step a b)
bit_at-or (suc i) a b =
    let half : bit_or a b / 2 ≡ bit_or (a / 2) (b / 2) = omega (arith, or_step a b) in
    rw half (bit_at-or i (a / 2) (b / 2))

pub bit_at-lt : (i a : ℕ) → bit_at a i < 2
bit_at-lt zero a = omega arith
bit_at-lt (suc i) a = bit_at-lt i (a / 2)

pub bit_at-not : (k i a : ℕ) → a < 2 ^ k → i < k → bit_at (2 ^ k - 1 - a) i + bit_at a i ≡ 1
bit_at-not zero i a h lt = absurd (omega arith)
bit_at-not (suc k) zero a h lt = omega (arith, pow-suc 2 k)
bit_at-not (suc k) (suc i) a h lt =
    let half : (2 ^ suc k - 1 - a) / 2 ≡ 2 ^ k - 1 - a / 2 = omega (arith, pow-suc 2 k) in
    rw half (bit_at-not k i (a / 2) (omega (arith, pow-suc 2 k)) (omega arith))

-- Words of `k` bits with the same bits are equal.
pub bits_ext :
    (k a b : ℕ) → a < 2 ^ k → b < 2 ^ k → ((i : ℕ) → i < k → bit_at a i ≡ bit_at b i) → a ≡ b
bits_ext zero a b p q h = omega arith
bits_ext (suc k) a b p q h =
    let low : a % 2 ≡ b % 2 = h 0 (omega arith) in
    let high : a / 2 ≡ b / 2 =
      bits_ext k (a / 2) (b / 2) (omega (arith, pow-suc 2 k)) (omega (arith, pow-suc 2 k))
        (λ i lt. h (suc i) (omega arith)) in
    omega (arith, low, high)

pub bit_or-lt : (k a b : ℕ) → a < 2 ^ k → b < 2 ^ k → bit_or a b < 2 ^ k
bit_or-lt zero a b p q =
    let a0 : a ≡ 0 = omega arith in let b0 : b ≡ 0 = omega arith in rw (a0, b0) (omega arith)
bit_or-lt (suc k) a b p q = omega (
  arith,
  or_step a b,
  pow-suc 2 k,
  bit_or-lt k (a / 2) (b / 2) (omega (arith, pow-suc 2 k)) (omega (arith, pow-suc 2 k)),
)

pub bit_and-lt : (k a b : ℕ) → a < 2 ^ k → bit_and a b < 2 ^ k
bit_and-lt zero a b p = let a0 : a ≡ 0 = omega arith in rw (a0, bit_and-bitwise) (omega arith)
bit_and-lt (suc k) a b p =
    omega
      (arith, and_step a b, pow-suc 2 k, bit_and-lt k (a / 2) (b / 2) (omega (arith, pow-suc 2 k)))

pub bit_xor-lt : (k a b : ℕ) → a < 2 ^ k → b < 2 ^ k → bit_xor a b < 2 ^ k
bit_xor-lt zero a b p q =
    let a0 : a ≡ 0 = omega arith in let b0 : b ≡ 0 = omega arith in rw (a0, b0) (omega arith)
bit_xor-lt (suc k) a b p q = omega (
  arith,
  xor_step a b,
  differ-le (a % 2) (b % 2),
  pow-suc 2 k,
  bit_xor-lt k (a / 2) (b / 2) (omega (arith, pow-suc 2 k)) (omega (arith, pow-suc 2 k)),
)

-- Induction from half of a number to the number.
halving : (P : ℕ → Type 0) → P 0 → ((n : ℕ) → P (suc n / 2) → P (suc n)) → (n : ℕ) → P n
halving P base double n = WellFounded.induction lt_wf {C = P} n from_below
  where
    from_below : (k : ℕ) → ((i : ℕ) → i < k → P i) → P k
    from_below zero below = base
    from_below (suc k) below = double k (below (suc k / 2) (omega arith))

pub or-zero : (a : ℕ) → bit_or a 0 ≡ a
or-zero = halving (λ a. bit_or a 0 ≡ a) refl (λ a half. omega (arith, half, or_step (suc a) 0))

pub and-zero : (a : ℕ) → bit_and a 0 ≡ 0
and-zero = halving (λ a. bit_and a 0 ≡ 0) refl (λ a half. omega (arith, half, and_step (suc a) 0))

pow_double : (q k : ℕ) → q * 2 ^ suc k ≡ 2 * (q * 2 ^ k)
pow_double q k = omega (arith, ap (λ (t : ℕ). q * t) (pow-suc 2 k))

-- Fields that do not overlap are joined by a sum.
pub or_fields : (k q b : ℕ) → b < 2 ^ k → bit_or (q * 2 ^ k) b ≡ q * 2 ^ k + b
or_fields zero q b h = let b0 : b ≡ 0 = omega arith in rw b0 (omega (arith, or-zero (q * 2 ^ 0)))
or_fields (suc k) q b h =
    let even : q * 2 ^ suc k ≡ 2 * (q * 2 ^ k) = pow_double q k in
    let half : q * 2 ^ suc k / 2 ≡ q * 2 ^ k = omega (arith, even) in
    omega (
      arith,
      even,
      or_step (q * 2 ^ suc k) b,
      ap (λ x. bit_or x (b / 2)) half,
      or_fields k q (b / 2) (omega (arith, pow-suc 2 k)),
    )

and_fields : (k q r : ℕ) → r < 2 ^ k → bit_and (q * 2 ^ k + r) (2 ^ k - 1) ≡ r
and_fields zero q r h = omega (arith, and-zero (q * 2 ^ 0 + r))
and_fields (suc k) q r h =
    let even : q * 2 ^ suc k ≡ 2 * (q * 2 ^ k) = pow_double q k in
    let half : (q * 2 ^ suc k + r) / 2 ≡ q * 2 ^ k + r / 2 = omega (arith, even) in
    let ones : (2 ^ suc k - 1) / 2 ≡ 2 ^ k - 1 = omega (arith, pow-suc 2 k) in
    omega (
      arith,
      even,
      pow-suc 2 k,
      one-le-pow k 2,
      and_step (q * 2 ^ suc k + r) (2 ^ suc k - 1),
      ap₂ bit_and half ones,
      and_fields k q (r / 2) (omega (arith, pow-suc 2 k)),
    )

-- A mask of `k` low ones keeps the remainder by `2 ^ k`.
pub and-mask : (k a : ℕ) → bit_and a (2 ^ k - 1) ≡ a % 2 ^ k
and-mask k a = ground (arith, one-le-pow k 2, and_fields k (a / 2 ^ k) (a % 2 ^ k))

-- The same for numbers known to fit.
pub or_disjoint : (k a b : ℕ) → a % 2 ^ k ≡ 0 → b < 2 ^ k → bit_or a b ≡ a + b
or_disjoint k a b clear fits =
    let split : a ≡ a / 2 ^ k * 2 ^ k = ground (arith, one-le-pow k 2) in
    ap (λ x. bit_or x b) split ∙ or_fields k (a / 2 ^ k) b fits ∙ ap (λ (x : ℕ). x + b) (sym split)
