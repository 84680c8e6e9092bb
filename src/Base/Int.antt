-- ===== src/Base/Int.antt =====
-- Signed integers, and the conversions `static_cast` makes between intN_t and uintN_t.
use Prim.Native.Nat.{ℕ, ◌-◌, ◌*◌, ◌%◌, ◌<◌}
use mathlib.Core.Path.{◌≡◌}
use native.Mathlib.Omega.{arith}
use farseer.Base.Tests.{ltb, if◌then◌else◌}

-- `negsuc n` is -(n + 1).
pub data ℤ : Type 0 where
  pos : ℕ → ℤ
  negsuc : ℕ → ℤ

-- The value modulo `m`, where `m` is 2 ^ N: intN_t to uintN_t.
unfoldable pub to_unsigned : ℕ → ℤ → ℕ
to_unsigned m (pos n) = n % m
to_unsigned m (negsuc n) = m - 1 - n % m

-- uintN_t to intN_t: the upper half of the range stands for the negative numbers.
unfoldable pub to_signed : ℕ → ℕ → ℤ
to_signed m n = if ltb (2 * n) m then pos n else negsuc (m - 1 - n)

-- The values of intN_t, for `m` = 2 ^ N.
abbrev pub InSignedRange : ℕ → ℤ → Type 0
InSignedRange m (pos n) = 2 * n < m
InSignedRange m (negsuc n) = 2 * n < m

pub to_unsigned-lt : (m : ℕ) (z : ℤ) → 0 < m → InSignedRange m z → to_unsigned m z < m
unfolding to_unsigned
to_unsigned-lt m (pos n) p h = grind arith
to_unsigned-lt m (negsuc n) p h = grind arith

pub to_signed-to_unsigned :
    (m h : ℕ) (z : ℤ) → m ≡ 2 * h → 0 < h → InSignedRange m z → to_signed m (to_unsigned m z) ≡ z
unfolding to_unsigned to_signed
to_signed-to_unsigned m h (pos n) e p r =
    let small : n % m ≡ n = grind arith in ground (arith, small)
to_signed-to_unsigned m h (negsuc n) e p r =
    let small : n % m ≡ n = grind arith in ground (arith, small)
