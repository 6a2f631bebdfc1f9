-- ===== src/Common/Bits.antt =====
-- `|` of a low field and a shifted one, and `&` with a low mask, as arithmetic.
use Prim.Native.Nat.{
  ℕ, zero, suc, ◌+◌, ◌*◌, ◌/◌, ◌%◌, ◌^◌, ◌≤◌, ◌<◌, min, max, bit_and, bit_or, digits,
  bit_and-bitwise, bit_or-bitwise,
}
use mathlib.Core.Path.{◌≡◌, refl, ap, ◌∙◌}
use native.Mathlib.Omega.{arith}
use native.Mathlib.Nat.{pow-suc}

-- The recursion on binary digits gives the same number on any two sufficient fuels.
module _ (rest : ℕ → ℕ) (digit : ℕ → ℕ → ℕ) where
  digits-fuel : (a b n m : ℕ) → a ≤ n → a ≤ m → digits rest digit n a b ≡ digits rest digit m a b
  digits-fuel zero b zero zero hn hm = refl
  digits-fuel zero b zero (suc m) hn hm = refl
  digits-fuel zero b (suc n) zero hn hm = refl
  digits-fuel zero b (suc n) (suc m) hn hm = refl
  digits-fuel (suc a) b n zero hn hm = absurd (omega arith)
  digits-fuel (suc a) b zero (suc m) hn hm = absurd (omega arith)
  digits-fuel (suc a) b (suc n) (suc m) hn hm =
      ap (λ r. r * 2 + digit (suc a % 2) (b % 2))
        (digits-fuel (suc a / 2) (b / 2) n m (omega arith) (omega arith))

  -- An operation that is this recursion takes its operands apart at the lowest digit.
  pub split_lowest :
      (op : ℕ → ℕ → ℕ)
      → ((x y : ℕ) → op x y ≡ digits rest digit x x y)
      → (a b : ℕ) → 0 < a
      → op a b ≡ digit (a % 2) (b % 2) + 2 * op (a / 2) (b / 2)
  split_lowest op law zero b pos = absurd (omega arith)
  split_lowest op law (suc a) b pos = omega (
    arith,
    law (suc a) b,
    law (suc a / 2) (b / 2),
    digits-fuel (suc a / 2) (b / 2) a (suc a / 2) (omega arith) (omega arith),
  )

pub bit_or_lowest : (a b : ℕ) → bit_or a b ≡ max (a % 2) (b % 2) + 2 * bit_or (a / 2) (b / 2)
bit_or_lowest zero y = omega (arith, bit_or-bitwise 0 y, bit_or-bitwise 0 (y / 2))
bit_or_lowest (suc x) y = split_lowest (λ r. r) max bit_or bit_or-bitwise (suc x) y (omega arith)

bit_and_lowest : (a b : ℕ) → bit_and a b ≡ min (a % 2) (b % 2) + 2 * bit_and (a / 2) (b / 2)
bit_and_lowest zero y = omega (arith, bit_and-bitwise 0 y, bit_and-bitwise 0 (y / 2))
bit_and_lowest (suc x) y = split_lowest (λ r. 0) min bit_and bit_and-bitwise (suc x) y (omega arith)

pub zero-bit_or : (b : ℕ) → bit_or 0 b ≡ b
zero-bit_or b = bit_or-bitwise 0 b

-- A field below `2 ^ k` and one shifted by `k` do not meet, so `|` adds them.
pub bit_or_shifted : (k a b : ℕ) → a < 2 ^ k → bit_or a (b * 2 ^ k) ≡ a + b * 2 ^ k
bit_or_shifted zero a b h =
    let e : a ≡ 0 = omega arith in rw e (omega (arith, zero-bit_or (b * 2 ^ 0)))
bit_or_shifted (suc k) a b h = omega (
  arith,
  bit_or_lowest a (b * 2 ^ suc k),
  ap (λ (t : ℕ). b * t) (pow-suc 2 k),
  pow-suc 2 k,
  bit_or_shifted k (a / 2) b (omega (arith, pow-suc 2 k)),
  ap (bit_or (a / 2)) (halve k b),
)
  where
    halve : (k b : ℕ) → b * 2 ^ suc k / 2 ≡ b * 2 ^ k
    halve k b = omega (arith, ap (λ (t : ℕ). b * t) (pow-suc 2 k))

-- No digit is in both a number and zero.
no_digit : (count x : ℕ) → digits (λ r. 0) min count x 0 ≡ 0
no_digit zero x = refl
no_digit (suc count) zero = refl
no_digit (suc count) (suc x) = omega (arith, no_digit count (suc x / 2))

bit_and_nothing : (x : ℕ) → bit_and x 0 ≡ 0
bit_and_nothing x = bit_and-bitwise x 0 ∙ no_digit x x

-- A mask that ends in a one keeps the lowest digit.
bit_and-odd : (a m : ℕ) → bit_and a (m * 2 + 1) ≡ bit_and (a / 2) m * 2 + a % 2
bit_and-odd a m =
    let e : (m * 2 + 1) / 2 ≡ m = omega arith in
    omega (arith, bit_and_lowest a (m * 2 + 1), ap (bit_and (a / 2)) e)

bit_and-two_digits : (a m : ℕ) → bit_and a (m * 4 + 3) ≡ bit_and (a / 4) m * 4 + a % 4
bit_and-two_digits a m =
    let e : (m * 2 + 1) * 2 + 1 ≡ m * 4 + 3 = omega arith in
    let d : a / 2 / 2 ≡ a / 4 = omega arith in
    omega (
      arith,
      bit_and-odd a (m * 2 + 1),
      bit_and-odd (a / 2) m,
      ap (bit_and a) e,
      ap (λ (t : ℕ). bit_and t m) d,
    )

-- The mask 0xFF keeps the low byte.
pub bit_and_byte : (a : ℕ) → bit_and a 0xFF ≡ a % 256
bit_and_byte a = omega (
  arith,
  bit_and-two_digits a 63,
  bit_and-two_digits (a / 4) 15,
  bit_and-two_digits (a / 4 / 4) 3,
  bit_and-two_digits (a / 4 / 4 / 4) 0,
  bit_and_nothing (a / 4 / 4 / 4 / 4),
)
