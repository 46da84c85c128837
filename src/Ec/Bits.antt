-- ===== src/Ec/Bits.antt =====
-- Facts about the native `bit_or` that the masks of src/oio/blob/ec/blob.cpp need.
use Prim.Native.Nat.{max, bit_or, digits, bit_or-bitwise}
use oio_sds_cpp.Prelude.{ℕ, zero, suc, ◌+◌, ◌*◌, ◌/◌, ◌%◌, ◌^◌, ◌≤◌, ◌≡◌, refl, arith}

abbrev or_digits : ℕ → ℕ → ℕ → ℕ
or_digits n a b = digits (λ b. b) max n a b

or_digits_fuel : (n m a b : ℕ) → a ≤ n → a ≤ m → or_digits n a b ≡ or_digits m a b
or_digits_fuel zero zero a b p q = refl
or_digits_fuel zero (suc m) zero b p q = refl
or_digits_fuel zero (suc m) (suc a) b p q = absurd (omega arith)
or_digits_fuel (suc n) zero zero b p q = refl
or_digits_fuel (suc n) zero (suc a) b p q = absurd (omega arith)
or_digits_fuel (suc n) (suc m) zero b p q = refl
or_digits_fuel (suc n) (suc m) (suc a) b p q =
    omega (arith, or_digits_fuel n m (suc a / 2) (b / 2) (omega arith) (omega arith))

pub zero-bit_or : (b : ℕ) → bit_or 0 b ≡ b
zero-bit_or b = bit_or-bitwise 0 b

bit_or_step : (a b : ℕ) → bit_or a b ≡ bit_or (a / 2) (b / 2) * 2 + max (a % 2) (b % 2)
bit_or_step zero b = omega (arith, zero-bit_or b, zero-bit_or (b / 2))
bit_or_step (suc a) b = omega (
  arith,
  bit_or-bitwise (suc a) b,
  bit_or-bitwise (suc a / 2) (b / 2),
  or_digits_fuel a (suc a / 2) (suc a / 2) (b / 2) (omega arith) (omega arith),
)

le_fuel : (n a b : ℕ) → a ≤ n → (a ≤ bit_or a b) × (b ≤ bit_or a b)
le_fuel n zero b h = (omega (arith, zero-bit_or b), omega (arith, zero-bit_or b))
le_fuel zero (suc a) b h = absurd (omega arith)
le_fuel (suc n) (suc a) b h =
    let (p, q) = le_fuel n (suc a / 2) (b / 2) (omega arith) in
    (omega (arith, bit_or_step (suc a) b), omega (arith, bit_or_step (suc a) b))

pub le-bit_or_left : (a b : ℕ) → a ≤ bit_or a b
le-bit_or_left a b = (le_fuel a a b (omega arith)).0

pub le-bit_or_right : (a b : ℕ) → b ≤ bit_or a b
le-bit_or_right a b = (le_fuel a a b (omega arith)).1

pub one_le-pow : (i : ℕ) → 1 ≤ 2 ^ i
one_le-pow zero = omega arith
one_le-pow (suc i) = omega (arith, one_le-pow i)

pub two_le-pow : (i : ℕ) → 2 ≤ 2 ^ suc i
two_le-pow i = omega (arith, one_le-pow i)
