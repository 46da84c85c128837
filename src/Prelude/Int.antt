-- ===== src/Prelude/Int.antt =====
-- Signed results of the C++ code: an `int32_t` is read off the low 32 bits of a size.
use Prim.Native.Nat.{ℕ, ◌-◌, ◌%◌, ◌<◌}
use mathlib.Core.Path.{◌≡◌}
use native.Mathlib.Omega.{arith}
use oio_sds_cpp.Prelude.Bools.{ltb, if◌then◌else◌}

-- `negsuc n` is -(n + 1).
pub data ℤ : Type 0 where
  pos : ℕ → ℤ
  negsuc : ℕ → ℤ

abbrev pub u32_mod : ℕ
u32_mod = 4294967296

abbrev pub i32_limit : ℕ
i32_limit = 2147483648

-- The conversion of a `size_t` to `int32_t`.
unfoldable pub to_int32 : ℕ → ℤ
to_int32 n = let m = n % u32_mod in if ltb m i32_limit then pos m else negsuc (u32_mod - 1 - m)

pub to_int32_small : (n : ℕ) → n < i32_limit → to_int32 n ≡ pos n
unfolding to_int32
to_int32_small n h = ground arith
