-- ===== src/Common/Int.antt =====
-- Python's integers where a negative one is met.
use Prim.Native.Nat.{ℕ}
use mathlib.Core.Bool.{Bool, false, ◌&&◌}
use seapath_webui.Common.Tests.{leb, nat_eq}

-- `negsuc n` is -(n + 1).
pub data ℤ : Type 0 where
  pos : ℕ → ℤ
  negsuc : ℕ → ℤ

-- x == 0
unfoldable pub is_zero : ℤ → Bool
is_zero (pos n) = nat_eq n 0
is_zero (negsuc n) = false

-- low <= x <= high, for bounds that are not negative
unfoldable pub within_range : ℕ → ℕ → ℤ → Bool
within_range low high (pos n) = leb low n && leb n high
within_range low high (negsuc n) = false
