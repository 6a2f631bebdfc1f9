-- ===== src/Common/Xor.antt =====
-- `^` undone by a second `^`, its range, and when `|` and `^` give zero.
use Prim.Native.Nat.{
  ℕ, zero, suc, ◌+◌, ◌*◌, ◌/◌, ◌%◌, ◌^◌, ◌≤◌, ◌<◌, bit_or, bit_xor, differ, bit_xor-bitwise,
}
use mathlib.Core.Path.{◌≡◌, refl, ap, ◌∙◌, sym}
use native.Mathlib.Omega.{arith}
use native.Mathlib.Nat.{pow-suc}
use net_copy.Common.Bits.{split_lowest, bit_or_lowest, zero-bit_or}

bit_xor_lowest : (a b : ℕ) → bit_xor a b ≡ differ (a % 2) (b % 2) + 2 * bit_xor (a / 2) (b / 2)
bit_xor_lowest zero y = omega (arith, bit_xor-bitwise 0 y, bit_xor-bitwise 0 (y / 2))
bit_xor_lowest (suc x) y =
    split_lowest (λ r. r) differ bit_xor bit_xor-bitwise (suc x) y (omega arith)

-- On binary digits.
differ-lt : (x y : ℕ) → x < 2 → y < 2 → differ x y < 2
differ-lt zero y hx hy = hy
differ-lt (suc zero) zero hx hy = omega arith
differ-lt (suc zero) (suc zero) hx hy = omega arith
differ-lt (suc zero) (suc (suc y)) hx hy = absurd (omega arith)
differ-lt (suc (suc x)) y hx hy = absurd (omega arith)

differ-differ : (x y : ℕ) → x < 2 → y < 2 → differ (differ x y) y ≡ x
differ-differ zero zero hx hy = refl
differ-differ zero (suc zero) hx hy = refl
differ-differ zero (suc (suc y)) hx hy = absurd (omega arith)
differ-differ (suc zero) zero hx hy = refl
differ-differ (suc zero) (suc zero) hx hy = refl
differ-differ (suc zero) (suc (suc y)) hx hy = absurd (omega arith)
differ-differ (suc (suc x)) y hx hy = absurd (omega arith)

cancel_fuel : (n a b : ℕ) → a ≤ n → b ≤ n → bit_xor (bit_xor a b) b ≡ a
cancel_fuel zero zero zero ha hb = refl
cancel_fuel zero zero (suc b) ha hb = absurd (omega arith)
cancel_fuel zero (suc a) b ha hb = absurd (omega arith)
cancel_fuel (suc n) a b ha hb = omega (
  arith,
  bit_xor_lowest (bit_xor a b) b,
  ap (λ (t : ℕ). bit_xor t (b / 2)) half,
  ap (λ (t : ℕ). differ t (b % 2)) low,
  differ-differ (a % 2) (b % 2) (omega arith) (omega arith),
  cancel_fuel n (a / 2) (b / 2) (omega arith) (omega arith),
)
  where
    half : bit_xor a b / 2 ≡ bit_xor (a / 2) (b / 2)
    half = omega (arith, bit_xor_lowest a b, differ-lt (a % 2) (b % 2) (omega arith) (omega arith))

    low : bit_xor a b % 2 ≡ differ (a % 2) (b % 2)
    low = omega (arith, bit_xor_lowest a b, differ-lt (a % 2) (b % 2) (omega arith) (omega arith))

-- The same key a second time gives the number back.
pub bit_xor_cancel : (a b : ℕ) → bit_xor (bit_xor a b) b ≡ a
bit_xor_cancel a b = cancel_fuel (a + b) a b (omega arith) (omega arith)

pub bit_xor-lt : (k a b : ℕ) → a < 2 ^ k → b < 2 ^ k → bit_xor a b < 2 ^ k
bit_xor-lt zero zero zero ha hb = omega arith
bit_xor-lt zero zero (suc b) ha hb = absurd (omega arith)
bit_xor-lt zero (suc a) b ha hb = absurd (omega arith)
bit_xor-lt (suc k) a b ha hb = omega (
  arith,
  pow-suc 2 k,
  bit_xor_lowest a b,
  differ-lt (a % 2) (b % 2) (omega arith) (omega arith),
  bit_xor-lt k (a / 2) (b / 2) (omega (arith, pow-suc 2 k)) (omega (arith, pow-suc 2 k)),
)

zero-bit_xor : (b : ℕ) → bit_xor 0 b ≡ b
zero-bit_xor b = bit_xor-bitwise 0 b

-- Only equal numbers have no digit apart.
pub eq_of_bit_xor : (a b : ℕ) → bit_xor a b ≡ 0 → a ≡ b
eq_of_bit_xor a b h = sym (bit_xor_cancel a b) ∙ ap (λ (t : ℕ). bit_xor t b) h ∙ zero-bit_xor b

pub bit_xor_self : (a : ℕ) → bit_xor a a ≡ 0
bit_xor_self a = ap (λ (t : ℕ). bit_xor t a) (sym (zero-bit_xor a)) ∙ bit_xor_cancel 0 a

zero_fuel : (n a b : ℕ) → a ≤ n → bit_or a b ≡ 0 → (a ≡ 0) × (b ≡ 0)
zero_fuel n zero b ha h = (refl, sym (zero-bit_or b) ∙ h)
zero_fuel zero (suc a) b ha h = absurd (omega arith)
zero_fuel (suc n) (suc a) b ha h =
    let (p, q) =
      zero_fuel n (suc a / 2) (b / 2) (omega arith) (omega (arith, bit_or_lowest (suc a) b)) in
    (omega (arith, bit_or_lowest (suc a) b), omega (arith, bit_or_lowest (suc a) b))

-- Only zeros make a zero.
pub bit_or-eq_zero : (a b : ℕ) → bit_or a b ≡ 0 → (a ≡ 0) × (b ≡ 0)
bit_or-eq_zero a b h = zero_fuel a a b (omega arith) h

differ-middle : (x y z : ℕ) → x < 2 → y < 2 → z < 2 → differ (differ x y) (differ y z) ≡ differ x z
differ-middle zero zero z hx hy hz = refl
differ-middle zero (suc zero) zero hx hy hz = refl
differ-middle zero (suc zero) (suc zero) hx hy hz = refl
differ-middle (suc zero) zero z hx hy hz = refl
differ-middle (suc zero) (suc zero) zero hx hy hz = refl
differ-middle (suc zero) (suc zero) (suc zero) hx hy hz = refl
differ-middle zero (suc (suc y)) z hx hy hz = absurd (omega arith)
differ-middle (suc zero) (suc (suc y)) z hx hy hz = absurd (omega arith)
differ-middle (suc (suc x)) y z hx hy hz = absurd (omega arith)
differ-middle zero (suc zero) (suc (suc z)) hx hy hz = absurd (omega arith)
differ-middle (suc zero) (suc zero) (suc (suc z)) hx hy hz = absurd (omega arith)

-- The halves and the low digits.
xor_half : (a b : ℕ) → bit_xor a b / 2 ≡ bit_xor (a / 2) (b / 2)
xor_half a b =
    omega (arith, bit_xor_lowest a b, differ-lt (a % 2) (b % 2) (omega arith) (omega arith))

xor_low : (a b : ℕ) → bit_xor a b % 2 ≡ differ (a % 2) (b % 2)
xor_low a b =
    omega (arith, bit_xor_lowest a b, differ-lt (a % 2) (b % 2) (omega arith) (omega arith))

middle_fuel :
    (n a b c : ℕ) → a ≤ n → b ≤ n → c ≤ n → bit_xor (bit_xor a b) (bit_xor b c) ≡ bit_xor a c
middle_fuel zero zero zero zero ha hb hc = refl
middle_fuel zero zero zero (suc c) ha hb hc = absurd (omega arith)
middle_fuel zero zero (suc b) c ha hb hc = absurd (omega arith)
middle_fuel zero (suc a) b c ha hb hc = absurd (omega arith)
middle_fuel (suc n) a b c ha hb hc = omega (
  arith,
  bit_xor_lowest (bit_xor a b) (bit_xor b c),
  bit_xor_lowest a c,
  ap (λ (t : ℕ). bit_xor t (bit_xor b c / 2)) (xor_half a b),
  ap (λ (t : ℕ). bit_xor (bit_xor (a / 2) (b / 2)) t) (xor_half b c),
  ap (λ (t : ℕ). differ t (bit_xor b c % 2)) (xor_low a b),
  ap (λ (t : ℕ). differ (differ (a % 2) (b % 2)) t) (xor_low b c),
  differ-middle (a % 2) (b % 2) (c % 2) (omega arith) (omega arith) (omega arith),
  middle_fuel n (a / 2) (b / 2) (c / 2) (omega arith) (omega arith) (omega arith),
)

-- What stands twice in the middle falls out.
pub bit_xor_middle : (a b c : ℕ) → bit_xor (bit_xor a b) (bit_xor b c) ≡ bit_xor a c
bit_xor_middle a b c = middle_fuel (a + b + c) a b c (omega arith) (omega arith) (omega arith)
