-- ===== src/Prelude/Bits.antt =====
-- Laws of `bit_or` and `bit_xor` at variables, from the digit recursion that the native operations
-- stand for.
use Prim.Native.Nat.{
  ℕ, zero, suc, ◌+◌, ◌*◌, ◌/◌, ◌%◌, ◌≤◌, ◌<◌, max, bit_or, bit_xor, digits, bit_or-bitwise,
  bit_xor-bitwise, differ,
}
use mathlib.Core.Path.{◌≡◌, refl}
use native.Mathlib.Omega.{arith}

-- `x << k`
abbrev pub shl : ℕ → ℕ → ℕ
shl zero x = x
shl (suc k) x = 2 * shl k x

abbrev or_digits : ℕ → ℕ → ℕ → ℕ
or_digits n a b = digits (λ b. b) max n a b

or_digits_fuel : (n m a b : ℕ) → a ≤ n → a ≤ m → or_digits n a b ≡ or_digits m a b
or_digits_fuel zero zero a b p q = refl
or_digits_fuel zero (suc m) zero b p q = refl
or_digits_fuel zero (suc m) (suc a) b p q = absurd (omega arith)
or_digits_fuel (suc n) zero zero b p q = refl
or_digits_fuel (suc n) zero (suc a) b p q = absurd (omega arith)
or_digits_fuel (suc n) (suc m) zero b p q = refl
or_digits_fuel (suc n) (suc m) (suc a) b p q =
    omega (arith, or_digits_fuel n m (suc a / 2) (b / 2) (omega arith) (omega arith))

pub zero-bit_or : (b : ℕ) → bit_or 0 b ≡ b
zero-bit_or b = bit_or-bitwise 0 b

pub bit_or_step : (a b : ℕ) → bit_or a b ≡ bit_or (a / 2) (b / 2) * 2 + max (a % 2) (b % 2)
bit_or_step zero b = omega (arith, zero-bit_or b, zero-bit_or (b / 2))
bit_or_step (suc a) b = omega (
  arith,
  bit_or-bitwise (suc a) b,
  bit_or-bitwise (suc a / 2) (b / 2),
  or_digits_fuel a (suc a / 2) (suc a / 2) (b / 2) (omega arith) (omega arith),
)

bit_or-zero_fuel : (n a : ℕ) → a ≤ n → bit_or a 0 ≡ a
bit_or-zero_fuel n zero h = zero-bit_or 0
bit_or-zero_fuel zero (suc a) h = absurd (omega arith)
bit_or-zero_fuel (suc n) (suc a) h =
    omega (arith, bit_or_step (suc a) 0, bit_or-zero_fuel n (suc a / 2) (omega arith))

pub bit_or-zero : (a : ℕ) → bit_or a 0 ≡ a
bit_or-zero a = bit_or-zero_fuel a a (omega arith)

shl-half : (k x : ℕ) → shl (suc k) x / 2 ≡ shl k x
shl-half k x = omega arith

-- Bits that do not meet are added.
pub bit_or-shl_left : (k hi lo : ℕ) → lo < shl k 1 → bit_or (shl k hi) lo ≡ shl k hi + lo
bit_or-shl_left zero hi zero h = omega (arith, bit_or-zero hi)
bit_or-shl_left zero hi (suc lo) h = absurd (omega arith)
bit_or-shl_left (suc k) hi lo h =
    let step = rw (shl-half k hi) at (bit_or_step (shl (suc k) hi) lo) in
    omega (arith, step, bit_or-shl_left k hi (lo / 2) (omega arith))

pub bit_or-shl_right : (k hi lo : ℕ) → lo < shl k 1 → bit_or lo (shl k hi) ≡ shl k hi + lo
bit_or-shl_right zero hi zero h = omega (arith, zero-bit_or hi)
bit_or-shl_right zero hi (suc lo) h = absurd (omega arith)
bit_or-shl_right (suc k) hi lo h =
    let step = rw (shl-half k hi) at (bit_or_step lo (shl (suc k) hi)) in
    omega (arith, step, bit_or-shl_right k hi (lo / 2) (omega arith))

-- The same for shifts by one and by two bytes, as the code writes them.
pub bit_or-byte_left : (hi lo : ℕ) → lo < 0x100 → bit_or (hi * 0x100) lo ≡ hi * 0x100 + lo
bit_or-byte_left hi lo h =
    let e : hi * 0x100 ≡ shl 8 hi = omega arith in rw e (bit_or-shl_left 8 hi lo (omega arith))

pub bit_or-byte_right : (hi lo : ℕ) → lo < 0x100 → bit_or lo (hi * 0x100) ≡ hi * 0x100 + lo
bit_or-byte_right hi lo h =
    let e : hi * 0x100 ≡ shl 8 hi = omega arith in rw e (bit_or-shl_right 8 hi lo (omega arith))

pub bit_or-word_left : (hi lo : ℕ) → lo < 0x10000 → bit_or (hi * 0x10000) lo ≡ hi * 0x10000 + lo
bit_or-word_left hi lo h =
    let e : hi * 0x10000 ≡ shl 16 hi = omega arith in rw e (bit_or-shl_left 16 hi lo (omega arith))

abbrev xor_digits : ℕ → ℕ → ℕ → ℕ
xor_digits n a b = digits (λ b. b) differ n a b

xor_digits_fuel : (n m a b : ℕ) → a ≤ n → a ≤ m → xor_digits n a b ≡ xor_digits m a b
xor_digits_fuel zero zero a b p q = refl
xor_digits_fuel zero (suc m) zero b p q = refl
xor_digits_fuel zero (suc m) (suc a) b p q = absurd (omega arith)
xor_digits_fuel (suc n) zero zero b p q = refl
xor_digits_fuel (suc n) zero (suc a) b p q = absurd (omega arith)
xor_digits_fuel (suc n) (suc m) zero b p q = refl
xor_digits_fuel (suc n) (suc m) (suc a) b p q =
    omega (arith, xor_digits_fuel n m (suc a / 2) (b / 2) (omega arith) (omega arith))

zero-bit_xor : (b : ℕ) → bit_xor 0 b ≡ b
zero-bit_xor b = bit_xor-bitwise 0 b

bit_xor_step : (a b : ℕ) → bit_xor a b ≡ bit_xor (a / 2) (b / 2) * 2 + differ (a % 2) (b % 2)
bit_xor_step zero b = omega (arith, zero-bit_xor b, zero-bit_xor (b / 2))
bit_xor_step (suc a) b = omega (
  arith,
  bit_xor-bitwise (suc a) b,
  bit_xor-bitwise (suc a / 2) (b / 2),
  xor_digits_fuel a (suc a / 2) (suc a / 2) (b / 2) (omega arith) (omega arith),
)

differ-lt : (a b : ℕ) → a < 2 → b < 2 → differ a b < 2
differ-lt zero b h k = k
differ-lt (suc a) zero h k = h
differ-lt (suc a) (suc b) h k = differ-lt a b (omega arith) (omega arith)

-- The result is no wider than the operands.
pub bit_xor-lt : (k a b : ℕ) → a < shl k 1 → b < shl k 1 → bit_xor a b < shl k 1
bit_xor-lt zero zero zero h h' = omega (arith, zero-bit_xor 0)
bit_xor-lt zero zero (suc b) h h' = absurd (omega arith)
bit_xor-lt zero (suc a) b h h' = absurd (omega arith)
bit_xor-lt (suc k) a b h h' = omega (
  arith,
  bit_xor_step a b,
  bit_xor-lt k (a / 2) (b / 2) (omega arith) (omega arith),
  differ-lt (a % 2) (b % 2) (omega arith) (omega arith),
)
