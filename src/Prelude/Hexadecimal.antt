-- ===== src/Prelude/Hexadecimal.antt =====
-- Numbers as `os << std::hex` prints them, and as the digits are read back.
use oio_sds_cpp.Prelude.Bools.{ltb, leb, if◌then◌else◌, Bool-cases, ltb→le}
use oio_sds_cpp.Prelude.ByteStrings.{Bytes}
use oio_sds_cpp.Prelude.Lists.{All, All-append}
use Prim.Native.Nat.{ℕ, zero, suc, ◌+◌, ◌-◌, ◌*◌, ◌/◌, ◌%◌, ◌<◌}
use mathlib.Core.Path.{◌≡◌, refl, ◌∙◌}
use mathlib.Core.Bool.{Bool, true, ◌&&◌, ◌||◌}
use mathlib.Core.Logic.{inl, inr}
use mathlib.Core.List.{[], ◌∷◌, ◌++◌}
use native.Mathlib.Omega.{arith}

abbrev pub hex_digit : ℕ → ℕ
hex_digit d = if ltb d 10 then 48 + d else 87 + d

unfoldable pub hex_digits : ℕ → ℕ → Bytes
hex_digits zero n = []
hex_digits (suc fuel) n =
    let more = hex_digits fuel (n / 16) ++ hex_digit (n % 16) ∷ [] in
    if ltb n 16 then hex_digit n ∷ [] else more

-- os << std::hex << n
unfoldable pub hexadecimal : ℕ → Bytes
unfolding hex_digits
hexadecimal n = hex_digits (suc n) n

abbrev pub is_hex_digit : ℕ → Bool
is_hex_digit c = (leb 48 c && ltb c 58) || (leb 97 c && ltb c 103)

abbrev pub hex_digit_value : ℕ → ℕ
hex_digit_value c = if ltb c 58 then c - 48 else c - 87

unfoldable pub hex_value : ℕ → Bytes → ℕ
hex_value acc [] = acc
hex_value acc (c ∷ cs) = hex_value (acc * 16 + hex_digit_value c) cs

hex_value-append :
    (acc : ℕ) (xs ys : Bytes) → hex_value acc (xs ++ ys) ≡ hex_value (hex_value acc xs) ys
unfolding hex_value
hex_value-append acc [] ys = refl
hex_value-append acc (x ∷ xs) ys = hex_value-append (acc * 16 + hex_digit_value x) xs ys

hex_digit_lem :
    (d : ℕ) → d < 16 → (hex_digit_value (hex_digit d) ≡ d) × (is_hex_digit (hex_digit d) ≡ true)
hex_digit_lem d h = ground arith

hex_digits_lem : (fuel n : ℕ) → n < fuel → hex_value 0 (hex_digits fuel n) ≡ n
unfolding hex_digits hex_value
hex_digits_lem zero n h = absurd (omega arith)
hex_digits_lem (suc fuel) n h = elim (Bool-cases (ltb n 16)) [
  | inl small ↦ rw small (ground (arith, hex_digit_lem n))
  | inr big ↦ rw big (
      hex_value-append 0 (hex_digits fuel (n / 16)) (hex_digit (n % 16) ∷ [])
      ∙ omega (
        arith,
        hex_digits_lem fuel (n / 16) (omega (arith, ltb→le n 16 big)),
        (hex_digit_lem (n % 16) (omega arith)).0,
      ))
]

-- What is printed reads back.
pub hex_value-hexadecimal : (n : ℕ) → hex_value 0 (hexadecimal n) ≡ n
unfolding hexadecimal
hex_value-hexadecimal n = hex_digits_lem (suc n) n (omega arith)

abbrev pub IsHexDigit : ℕ → Type 0
IsHexDigit c = is_hex_digit c ≡ true

hex_digits-IsHexDigit : (fuel n : ℕ) → All IsHexDigit (hex_digits fuel n)
unfolding hex_digits
hex_digits-IsHexDigit zero n = tt
hex_digits-IsHexDigit (suc fuel) n = elim (Bool-cases (ltb n 16)) [
  | inl small ↦ rw small (ground (arith, hex_digit_lem n), tt)
  | inr big ↦ rw big (
      All-append IsHexDigit (hex_digits fuel (n / 16)) _ (hex_digits-IsHexDigit fuel (n / 16))
        ((hex_digit_lem (n % 16) (omega arith)).1, tt))
]

pub hexadecimal-IsHexDigit : (n : ℕ) → All IsHexDigit (hexadecimal n)
unfolding hexadecimal
hexadecimal-IsHexDigit n = hex_digits-IsHexDigit (suc n) n
