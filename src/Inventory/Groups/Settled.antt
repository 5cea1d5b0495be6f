-- ===== src/Inventory/Groups/Settled.antt =====
-- How deep a group sits below the groups that adopt it.
use seapath_webui.Common.{ℕ, zero, suc, ◌≤◌, ◌<◌, Text, ◌==◌, true, false, All, ◌≡◌}
use seapath_webui.Common.Dict.{Dict, has}
use seapath_webui.Inventory.Resolve.{root}
use seapath_webui.Inventory.Groups.{Groups}
use seapath_webui.Inventory.Groups.Depths.{depth_at, relax_pass, depths}

-- A child that has a depth sits below its parent.
abbrev pub SitsBelow : Dict ℕ → Text → Text → Type 0
SitsBelow ordering parent child =
    has child ordering ≡ true → depth_at parent ordering < depth_at child ordering

-- Each group sits above its children.
abbrev pub IsSettled : Dict ℕ → Groups → Type 0
IsSettled ordering table = All (λ g. All (SitsBelow ordering (g.0)) (g.1.children)) table

-- Each of so many rounds changes a depth.
abbrev pub KeepsMoving : ℕ → Groups → Dict ℕ → Type 0
KeepsMoving zero table ordering = Unit
KeepsMoving (suc rounds) table ordering =
    ((relax_pass table (record { depths = ordering; changed = false })).changed ≡ true)
    × KeepsMoving rounds table
        ((relax_pass table (record { depths = ordering; changed = false })).depths)

-- All but the root sit at one or deeper.
abbrev IsGrounded : Dict ℕ → Type 0
IsGrounded ordering = All (λ e. (e.0 == root) ≡ false → 1 ≤ e.1) ordering
