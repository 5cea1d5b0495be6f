-- ===== src/Console/Window.antt =====
-- app/console/service.py: the size of a terminal window.
pub mod Bounds
use seapath_webui.Common.{ℕ, ◌≤◌, min, max, leb, ◌≡◌, if◌then◌else◌, arith}
use seapath_webui.Common.Int.{ℤ, pos, negsuc}

-- _clamp, between bounds that are not negative
unfoldable pub clamp : ℤ → ℕ → ℕ → ℕ
clamp (pos n) low high = max low (min high n)
clamp (negsuc n) low high = low

unfoldable pub clamp_window : ℤ → ℤ → ℕ × ℕ
unfolding clamp
clamp_window columns lines = (clamp columns 20 500, clamp lines 5 200)
