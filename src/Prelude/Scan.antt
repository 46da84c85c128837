-- ===== src/Prelude/Scan.antt =====
-- Searching byte strings, as std::string does, and the characters that numbers are scanned from.
use oio_sds_cpp.Prelude.Bools.{ltb, leb, ◌==◌, if◌then◌else◌}
use oio_sds_cpp.Prelude.ByteStrings.{Bytes}
use oio_sds_cpp.Prelude.Lists.{All, length, take, drop}
use oio_sds_cpp.Prelude.Decimal.{IsDigit}
use Prim.Native.Nat.{ℕ, ◌+◌}
use mathlib.Core.Logic.{◌≢◌}
use mathlib.Core.Path.{◌≡◌, refl, ap}
use mathlib.Core.Bool.{Bool, true, false, ◌&&◌, ◌||◌}
use mathlib.Core.Option.{Option, none, some}
use mathlib.Core.List.{[], ◌∷◌, ◌++◌}
use native.Mathlib.Omega.{arith}

abbrev pub is_digit : ℕ → Bool
is_digit c = leb 48 c && ltb c 58

-- isspace of the C locale
abbrev pub is_space : ℕ → Bool
is_space c = (c == 32) || (leb 9 c && leb c 13)

abbrev pub digit_run : Bytes → Bytes
digit_run [] = []
digit_run (c ∷ s) = let rest = digit_run s in if is_digit c then c ∷ rest else []

abbrev pub skip_space : Bytes → Bytes
skip_space [] = []
skip_space (c ∷ s) = let rest = skip_space s in if is_space c then rest else c ∷ s

pub digit_run-All : (ds : Bytes) → All IsDigit ds → digit_run ds ≡ ds
digit_run-All [] h = refl
digit_run-All (d ∷ ds) h = let later = digit_run-All ds h.1 in ground arith

abbrev pub is_prefix : Bytes → Bytes → Bool
is_prefix [] s = true
is_prefix (x ∷ xs) [] = false
is_prefix (x ∷ xs) (c ∷ s) = (x == c) && is_prefix xs s

abbrev pub after : ℕ → Option ℕ → Option ℕ
after n none = none
after n (some i) = some (n + i)

-- s.find(needle)
unfoldable pub index_of : Bytes → Bytes → Option ℕ
index_of needle [] = if is_prefix needle [] then some 0 else none
index_of needle (c ∷ s) =
    let later = after 1 (index_of needle s) in if is_prefix needle (c ∷ s) then some 0 else later

abbrev before_last : ℕ → ℕ → Bytes → Option (Bytes × Bytes) → Option (Bytes × Bytes)
before_last c x xs (some (before, behind)) = some (x ∷ before, behind)
before_last c x xs none = if x == c then some ([], xs) else none

-- s.rfind(c): what stands before the last such character, and what stands behind it.
unfoldable pub rfind_char : ℕ → Bytes → Option (Bytes × Bytes)
rfind_char c [] = none
rfind_char c (x ∷ xs) = before_last c x xs (rfind_char c xs)

-- s.find(needle, from), of a needle that is not empty.
abbrev pub index_from : Bytes → Bytes → ℕ → Option ℕ
index_from needle s from = after from (index_of needle (drop from s))

-- s.substr(from, count); `none` where it throws std::out_of_range.
abbrev pub substr : Bytes → ℕ → ℕ → Option Bytes
substr s from count = if leb from (length s) then some (take count (drop from s)) else none

-- A character is found behind a string that does not have it.
pub index_of-append :
    (c : ℕ) (s rest : Bytes)
    → All (λ x. c ≢ x) s
    → index_of (c ∷ []) (s ++ c ∷ rest) ≡ some (length s)
unfolding index_of
index_of-append c [] rest h = ground arith
index_of-append c (x ∷ s) rest h = let later = index_of-append c s rest h.1 in grind arith

rfind_char-none : (c : ℕ) (s : Bytes) → All (λ x. c ≢ x) s → rfind_char c s ≡ none
unfolding rfind_char
rfind_char-none c [] h = refl
rfind_char-none c (x ∷ s) h = let later = rfind_char-none c s h.1 in grind arith

-- The last such character is found, whatever stands before it.
pub rfind_char-append :
    (c : ℕ) (s rest : Bytes) → All (λ x. c ≢ x) rest → rfind_char c (s ++ c ∷ rest) ≡ some (s, rest)
unfolding rfind_char
rfind_char-append c [] rest h = let none_behind = rfind_char-none c rest h in grind arith
rfind_char-append c (x ∷ s) rest h =
    ap (before_last c x (s ++ c ∷ rest)) (rfind_char-append c s rest h)
