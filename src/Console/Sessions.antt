-- ===== src/Console/Sessions.antt =====
-- app/console/service.py: `open`, `open_graphic`, `close` and `close_graphic`. An opening is two parts,
-- the checks and, once the adapter has answered, the count: between them it awaits the adapter, and
-- other requests are served. What the machine holds as these run is `Machine`.
pub mod Admitted
pub mod Count
use seapath_webui.Common.{
  ℕ, zero, suc, ◌+◌, ◌-◌, Text, leb, filter, Bool, true, false, Option, none, some, List, [], ◌∷◌,
  ◌++◌, ◌≡◌, ◌⊎◌, if◌then◌else◌,
}
use seapath_webui.Common.Int.{ℤ}
use seapath_webui.Inventory.Model.{InventoryState}
use seapath_webui.Console.Window.{clamp_window}
use seapath_webui.Console.Commands.{graphic_command}
use seapath_webui.Console.Targets.{
  ConsoleTarget, TargetKind, this_machine, machine, guest, Self, Attempt, granted, unavailable,
  console_disabled, console_busy, trust_missing, host_key_unknown, resolve, ◌>>=◌,
}
use seapath_webui.Console.Routes.{serial_route, graphic_route}

pub record Settings : Type 0 where
  pub self : Self
  pub user : Text
  pub enabled : Bool
  pub max_sessions : ℕ
  pub relay : Text

-- What a request finds: the inventory, the recorded names, where guests are reported, whether the key
-- of the service exists, and which of the other keys do.
pub record Surroundings : Type 0 where
  pub state : Option InventoryState
  pub recorded : List Text
  pub locate : Text → Option Text
  pub private_key_exists : Bool
  pub extra_keys : List (Text × Bool)

pub record ConsoleRequest : Type 0 where
  pub address : Text
  pub user : Text
  pub extra_key_files : List Text
  pub command : Text
  pub window : Option (ℕ × ℕ)

pub record Opened : Type 0 where
  pub request : ConsoleRequest
  pub target : ConsoleTarget
  pub console_guest : Option Text

unfoldable pub check_enabled : Settings → Attempt (Unit {0})
check_enabled settings = if settings.enabled then granted tt else unavailable console_disabled

existing : List (Text × Bool) → List Text
existing [] = []
existing ((path, true) ∷ paths) = path ∷ existing paths
existing ((path, false) ∷ paths) = existing paths

offered_keys : TargetKind → List (Text × Bool) → List Text
unfolding existing
offered_keys this_machine keys = []
offered_keys machine keys = existing keys
offered_keys guest keys = existing keys

-- ConsoleService._admit
unfoldable pub admit : Settings → Surroundings → ℕ → ConsoleTarget → Attempt (List Text)
unfolding offered_keys
admit settings around active target =
    if leb settings.max_sessions active
    then unavailable console_busy
    else if around.private_key_exists
    then (if target.host_key_known
        then granted (offered_keys target.kind around.extra_keys)
        else unavailable (host_key_unknown target.name))
    else unavailable trust_missing

abbrev pub as_shell : ConsoleTarget → ConsoleTarget × Text
as_shell target = (target, [])

unfoldable pub destination :
    Settings → Surroundings → Option Text → Option Text → Attempt (ConsoleTarget × Text)
destination settings around host none = do
  target ← resolve settings.self around.recorded around.state host
  granted (as_shell target)
destination settings around host (some []) = do
  target ← resolve settings.self around.recorded around.state host
  granted (as_shell target)
destination settings around host (some (c ∷ serial)) =
    serial_route settings.self around.recorded around.state around.locate (c ∷ serial)

-- ConsoleService.open, up to the call of the adapter.
unfoldable pub prepare_terminal :
    Settings → Surroundings → ℤ → ℤ → Option Text → Option Text → ℕ → Attempt Opened
unfolding check_enabled destination
prepare_terminal settings around columns lines host serial active = do
  _ ← check_enabled settings
  (target, command) ← destination settings around host serial
  extra ← admit settings around active target
  granted (record {
    request = record {
      address = target.address;
      user = settings.user;
      extra_key_files = extra;
      command = command;
      window = some (clamp_window columns lines);
    };
    target = target;
    console_guest = serial;
  })

-- ConsoleService.open_graphic, up to the call of the adapter.
unfoldable pub prepare_display : Settings → Surroundings → Text → ℕ → Attempt Opened
unfolding check_enabled
prepare_display settings around guest_name active = do
  _ ← check_enabled settings
  target ← graphic_route settings.self around.recorded around.state around.locate guest_name
  extra ← admit settings around active target
  granted (record {
    request = record {
      address = target.address;
      user = settings.user;
      extra_key_files = extra;
      command = graphic_command settings.relay guest_name;
      window = none;
    };
    target = target;
    console_guest = some guest_name;
  })

-- `active` is the service's count, `opening` the openings that await the adapter, `open` the consoles
-- that are open, `closing` those whose end `close` awaits.
pub record Machine : Type 0 where
  pub active : ℕ
  pub opening : List Opened
  pub consoles : List Opened
  pub closing : List Opened

-- `self._active += 1`, once the adapter has answered.
unfoldable pub count_opened : List Opened → Opened → Machine → Machine
count_opened rest opened machine_state = record machine_state {
  active = machine_state.active + 1;
  opening = rest;
  consoles = opened ∷ machine_state.consoles;
}

-- `self._active = max(0, self._active - 1)`, once the process has ended.
unfoldable pub count_closed : List Opened → Machine → Machine
count_closed rest machine_state = record machine_state {
  active = machine_state.active - 1;
  closing = rest;
}

pub data Step (settings : Settings) (from : Machine) : Machine → Type 0 where
  asks_terminal :
      (around : Surroundings) (columns lines : ℤ) (host serial : Option Text) (opened : Opened)
      → prepare_terminal settings around columns lines host serial from.active ≡ granted opened
      → Step settings from (record from { opening = opened ∷ from.opening })
  asks_display :
      (around : Surroundings) (guest_name : Text) (opened : Opened)
      → prepare_display settings around guest_name from.active ≡ granted opened
      → Step settings from (record from { opening = opened ∷ from.opening })
  opens :
      (pre post : List Opened) (opened : Opened)
      → from.opening ≡ pre ++ opened ∷ post
      → Step settings from (count_opened (pre ++ post) opened from)
  -- the adapter raises
  fails :
      (pre post : List Opened) (opened : Opened)
      → from.opening ≡ pre ++ opened ∷ post
      → Step settings from (record from { opening = pre ++ post })
  leaves :
      (pre post : List Opened) (opened : Opened)
      → from.consoles ≡ pre ++ opened ∷ post
      → Step settings from (record from { consoles = pre ++ post; closing = opened ∷ from.closing })
  closes :
      (pre post : List Opened) (opened : Opened)
      → from.closing ≡ pre ++ opened ∷ post
      → Step settings from (count_closed (pre ++ post) from)

abbrev pub at_start : Machine
at_start = record { active = 0; opening = []; consoles = []; closing = [] }

pub data Reach (settings : Settings) : Machine → Type 0 where
  start : Reach settings at_start
  next : {mid last : Machine} → Reach settings mid → Step settings mid last → Reach settings last
