-- ===== src/Wire/Bits.antt =====
-- The bit operators of C on unsigned integers: an operation digit by digit, on numbers that are
-- given in two parts.
use Prim.Native.Nat.{min, max, bit_and, bit_or, digits, bit_and-bitwise, bit_or-bitwise}
use native.Mathlib.Nat.{pow-suc, one-le-pow}
use soft_ui_warp.Prelude.{
  ℕ, zero, suc, ◌+◌, ◌-◌, ◌*◌, ◌/◌, ◌%◌, ◌^◌, ◌≤◌, ◌<◌, ◌≡◌, refl, ap, ◌∙◌, arith,
}

module _ (z : ℕ → ℕ) (f : ℕ → ℕ → ℕ) where
  -- Any fuel that covers the first number gives the same digits.
  digits_enough : (n m a b : ℕ) → a ≤ n → a ≤ m → digits z f n a b ≡ digits z f m a b
  digits_enough zero zero zero b p q = refl
  digits_enough zero (suc m) zero b p q = refl
  digits_enough (suc n) zero zero b p q = refl
  digits_enough (suc n) (suc m) zero b p q = refl
  digits_enough zero m (suc a) b p q = absurd (omega arith)
  digits_enough (suc n) zero (suc a) b p q = absurd (omega arith)
  digits_enough (suc n) (suc m) (suc a) b p q =
      ap (λ d. d * 2 + f (suc a % 2) (b % 2))
        (digits_enough n m (suc a / 2) (b / 2) (omega arith) (omega arith))

-- `&` and `|` by the lowest digit.
pub bit_and-digit : (a b : ℕ) → bit_and a b ≡ bit_and (a / 2) (b / 2) * 2 + min (a % 2) (b % 2)
bit_and-digit zero b = omega (arith, bit_and-bitwise 0 b, bit_and-bitwise 0 (b / 2))
bit_and-digit (suc a) b = omega (
  arith,
  bit_and-bitwise (suc a) b,
  bit_and-bitwise (suc a / 2) (b / 2),
  digits_enough (λ c. zero) min a (suc a / 2) (suc a / 2) (b / 2) (omega arith) (omega arith),
)

pub bit_or-digit : (a b : ℕ) → bit_or a b ≡ bit_or (a / 2) (b / 2) * 2 + max (a % 2) (b % 2)
bit_or-digit zero b = omega (arith, bit_or-bitwise 0 b, bit_or-bitwise 0 (b / 2))
bit_or-digit (suc a) b = omega (
  arith,
  bit_or-bitwise (suc a) b,
  bit_or-bitwise (suc a / 2) (b / 2),
  digits_enough (λ c. c) max a (suc a / 2) (suc a / 2) (b / 2) (omega arith) (omega arith),
)

module _ (op f : ℕ → ℕ → ℕ) (nothing : op 0 0 ≡ 0)
    (digit : (a b : ℕ) → op a b ≡ op (a / 2) (b / 2) * 2 + f (a % 2) (b % 2)) where
  -- An operation on the parts above and below digit k.
  parts :
      (k q r m n : ℕ)
      → r < 2 ^ k
      → n < 2 ^ k
      → op (q * 2 ^ k + r) (m * 2 ^ k + n) ≡ op q m * 2 ^ k + op r n
  parts zero q r m n p s =
      let a : q * 2 ^ 0 + r ≡ q = omega arith in
      let b : m * 2 ^ 0 + n ≡ m = omega arith in
      let c : r ≡ 0 = omega arith in
      let d : n ≡ 0 = omega arith in rw (a, b, c, d, nothing) (omega arith)
  parts (suc k) q r m n p s =
      let ih =
        parts k q (r / 2) m (n / 2) (omega (arith, pow-suc 2 k)) (omega (arith, pow-suc 2 k)) in
      let e : q * 2 ^ suc k ≡ 2 * (q * 2 ^ k) =
        omega (arith, ap (λ (t : ℕ). q * t) (pow-suc 2 k)) in
      let d : m * 2 ^ suc k ≡ 2 * (m * 2 ^ k) =
        omega (arith, ap (λ (t : ℕ). m * t) (pow-suc 2 k)) in
      let g : op q m * 2 ^ suc k ≡ 2 * (op q m * 2 ^ k) =
        omega (arith, ap (λ (t : ℕ). op q m * t) (pow-suc 2 k)) in
      let up = digit (q * 2 ^ suc k + r) (m * 2 ^ suc k + n) in
      let a : (q * 2 ^ suc k + r) / 2 ≡ q * 2 ^ k + r / 2 = omega (arith, e) in
      let b : (m * 2 ^ suc k + n) / 2 ≡ m * 2 ^ k + n / 2 = omega (arith, d) in
      let a' : (q * 2 ^ suc k + r) % 2 ≡ r % 2 = omega (arith, e) in
      let b' : (m * 2 ^ suc k + n) % 2 ≡ n % 2 = omega (arith, d) in
      up ∙ rw (a, b, a', b', ih, g) (omega (arith, digit r n))

pub bit_and-parts :
    (k q r m n : ℕ)
    → r < 2 ^ k
    → n < 2 ^ k
    → bit_and (q * 2 ^ k + r) (m * 2 ^ k + n) ≡ bit_and q m * 2 ^ k + bit_and r n
bit_and-parts = parts bit_and min refl bit_and-digit

pub bit_or-parts :
    (k q r m n : ℕ)
    → r < 2 ^ k
    → n < 2 ^ k
    → bit_or (q * 2 ^ k + r) (m * 2 ^ k + n) ≡ bit_or q m * 2 ^ k + bit_or r n
bit_or-parts = parts bit_or max refl bit_or-digit

-- Masks of no digit and of all digits below k.
pub bit_and-zero : (a : ℕ) → bit_and a 0 ≡ 0
bit_and-zero a = below a a (omega arith)
  where
    below : (n a : ℕ) → a ≤ n → bit_and a 0 ≡ 0
    below n zero h = refl
    below zero (suc a) h = absurd (omega arith)
    below (suc n) (suc a) h =
        omega (arith, bit_and-digit (suc a) 0, below n (suc a / 2) (omega arith))

pub bit_and-ones : (k a : ℕ) → a < 2 ^ k → bit_and a (2 ^ k - 1) ≡ a
bit_and-ones zero a h = let e : a ≡ 0 = omega arith in rw e refl
bit_and-ones (suc k) a h =
    let p = pow-suc 2 k in
    let half : (2 ^ suc k - 1) / 2 ≡ 2 ^ k - 1 = omega (arith, p, one-le-pow k 2) in
    let odd : (2 ^ suc k - 1) % 2 ≡ 1 = omega (arith, p, one-le-pow k 2) in
    bit_and-digit a (2 ^ suc k - 1)
    ∙ rw (half, odd, bit_and-ones k (a / 2) (omega (arith, p))) (ground arith)

pub zero-bit_or : (a : ℕ) → bit_or 0 a ≡ a
zero-bit_or a = bit_or-bitwise 0 a

pub bit_or-zero : (a : ℕ) → bit_or a 0 ≡ a
bit_or-zero a = below a a (omega arith)
  where
    below : (n a : ℕ) → a ≤ n → bit_or a 0 ≡ a
    below n zero h = refl
    below zero (suc a) h = absurd (omega arith)
    below (suc n) (suc a) h =
        omega (arith, bit_or-digit (suc a) 0, below n (suc a / 2) (omega arith))
