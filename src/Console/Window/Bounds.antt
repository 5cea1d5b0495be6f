-- ===== src/Console/Window/Bounds.antt =====
-- Every window has a size that the far end can use.
use seapath_webui.Common.{ℕ, ◌≤◌, ◌≡◌, arith}
use seapath_webui.Common.Int.{ℤ, pos, negsuc}
use seapath_webui.Console.Window.{clamp, clamp_window}

clamp_bounds :
    (value : ℤ) (low high : ℕ)
    → low ≤ high
    → (low ≤ clamp value low high)
      × (clamp value low high ≤ high)
      × ((n : ℕ) → value ≡ pos n → low ≤ n → n ≤ high → clamp value low high ≡ n)
unfolding clamp
clamp_bounds (pos m) low high h =
    (omega arith, omega arith, λ n e from to. let same : m ≡ n = cc in omega (arith, same))
clamp_bounds (negsuc m) low high h = (omega arith, h, λ n e from to. cc)

-- For every size that a browser sends, the window is of 20 to 500 columns and 5 to 200 lines, and a
-- size in that range is kept.
pub clamp_window_bounds :
    (columns lines : ℤ)
    → let (width, height) = clamp_window columns lines in
      (20 ≤ width)
      × (width ≤ 500)
      × (5 ≤ height)
      × (height ≤ 200)
      × ((n : ℕ) → columns ≡ pos n → 20 ≤ n → n ≤ 500 → width ≡ n)
      × ((n : ℕ) → lines ≡ pos n → 5 ≤ n → n ≤ 200 → height ≡ n)
unfolding clamp_window
clamp_window_bounds columns lines =
    let (width_from, width_to, width_same) = clamp_bounds columns 20 500 (omega arith) in
    let (height_from, height_to, height_same) = clamp_bounds lines 5 200 (omega arith) in
    (width_from, width_to, height_from, height_to, width_same, height_same)
