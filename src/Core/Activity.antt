-- ===== src/Core/Activity.antt =====
-- app/core/activity.py: when somebody signed in last asked this service anything. Readings of the
-- monotonic clock are numbers of one fixed unit, and `clock` never goes back.
use seapath_webui.Common.{ℕ, ◌-◌, ltb, Bool, false, Option, none, some}

pub record Activity : Type 0 where
  pub last : Option ℕ

unfoldable pub mark : ℕ → Activity → Activity
mark clock activity = record activity { last = some clock }

recent : ℕ → ℕ → Option ℕ → Bool
recent seconds clock none = false
recent seconds clock (some last) = ltb (clock - last) seconds

unfoldable pub within : ℕ → ℕ → Activity → Bool
unfolding recent
within seconds clock activity = recent seconds clock activity.last
