-- ===== src/Console/Sessions/Admitted.antt =====
-- What an opening that passes its checks is.
use seapath_webui.Common.{
  ℕ, ◌≤◌, ◌<◌, Text, ◌==◌, find, subst, Bool, true, Option, none, some, List, [], ◌∷◌, ◌≡◌, ap, sym,
  ◌∙◌, inl, inr, In, arith, Bool-cases,
}
use seapath_webui.Common.Int.{ℤ}
use seapath_webui.Inventory.Model.{InventoryState}
use seapath_webui.Console.Window.{clamp_window}
use seapath_webui.Console.Window.Bounds.{clamp_window_bounds}
use seapath_webui.Console.Targets.{
  ConsoleTarget, Self, granted, >>=-eq-granted, granted-injective, ◌>>=◌, targets, resolve,
  first_named,
}
use seapath_webui.Console.Routes.{graphic_route}
use seapath_webui.Console.Routes.Sound.{granted_pair, serial_route_sound, graphic_route_sound}
use seapath_webui.Console.Sessions.{
  Settings, Surroundings, Opened, admit, check_enabled, destination, as_shell, prepare_terminal,
  prepare_display,
}

-- A window of a size that the far end can use.
abbrev pub Fits : Option (ℕ × ℕ) → Type 0
Fits none = Unit
Fits (some (columns, lines)) = (20 ≤ columns) × (columns ≤ 500) × (5 ≤ lines) × (lines ≤ 200)

-- An opening that is admitted: the console is on, fewer than the most are open, and the target is one
-- of those offered, at its address, its host key recorded; its window, if it has one, is of a usable size.
pub record IsAdmitted (settings : Settings) (around : Surroundings) (active : ℕ) (opened : Opened)
    : Type 0 where
  pub enabled : settings.enabled ≡ true
  pub room : active < settings.max_sessions
  pub trusted : around.private_key_exists ≡ true
  pub is_offered : In opened.target (targets settings.self around.recorded around.state)
  pub known : opened.target.host_key_known ≡ true
  pub same_address : opened.request.address ≡ opened.target.address
  pub fits : Fits opened.request.window

In-find : {A : Type 0} (test : A → Bool) (xs : List A) (x : A) → find test xs ≡ some x → In x xs
unfolding find
In-find test [] x h = cc
In-find test (y ∷ xs) x h = elim (Bool-cases (test y)) [
  | inl hit ↦ inl (head_is (rw hit at h))
  | inr miss ↦ inr (In-find test xs x (rw miss at h))
]
  where
    head_is : some y ≡ some x → x ≡ y
    head_is e = cc

resolve_sound :
    (self : Self) (recorded : List Text) (state : Option InventoryState) (host : Option Text)
    (target : ConsoleTarget)
    → resolve self recorded state host ≡ granted target
    → In target (targets self recorded state)
unfolding resolve
resolve_sound self recorded state none target h = unfold targets in inl cc
resolve_sound self recorded state (some []) target h = unfold targets in inl cc
resolve_sound self recorded state (some (c ∷ name)) target h =
    In-find (λ t. t.name == c ∷ name) (targets self recorded state) target (from _ h)
  where
    from : (o : Option ConsoleTarget) → first_named (c ∷ name) o ≡ granted target → o ≡ some target
    from none e = cc
    from (some found) e = cc

admit_sound :
    (settings : Settings) (around : Surroundings) (active : ℕ) (target : ConsoleTarget)
    (extra : List Text)
    → admit settings around active target ≡ granted extra
    → (active < settings.max_sessions)
      × (around.private_key_exists ≡ true)
      × (target.host_key_known ≡ true)
unfolding admit
admit_sound settings around active target extra h = (ground arith, ground arith, ground arith)

check_enabled_sound :
    (settings : Settings) → check_enabled settings ≡ granted tt → settings.enabled ≡ true
unfolding check_enabled
check_enabled_sound settings h = ground arith

from_resolve :
    (settings : Settings) (around : Surroundings) (host : Option Text) (target : ConsoleTarget)
    (command : Text)
    → (resolve settings.self around.recorded around.state host >>= λ found.
        granted (as_shell found))
      ≡ granted (target, command)
    → In target (targets settings.self around.recorded around.state)
from_resolve settings around host target command h =
    let (found, answer, last) =
      >>=-eq-granted (resolve settings.self around.recorded around.state host) _ h in
    let (same, _) = granted_pair found target [] command last in
    resolve_sound settings.self around.recorded around.state host target (answer ∙ ap granted same)

admitted :
    (settings : Settings) (around : Surroundings) (active : ℕ) (target : ConsoleTarget)
    (extra : List Text) (opened : Opened)
    → check_enabled settings ≡ granted tt
    → In target (targets settings.self around.recorded around.state)
    → admit settings around active target ≡ granted extra
    → opened.target ≡ target
    → opened.request.address ≡ target.address
    → Fits opened.request.window
    → IsAdmitted settings around active opened
admitted settings around active target extra opened on there allowed same address window =
    let (room, trusted, known) = admit_sound settings around active target extra allowed in
    record {
      enabled = check_enabled_sound settings on;
      room = room;
      trusted = trusted;
      is_offered = rw same there;
      known = ap (λ t. t.host_key_known) same ∙ known;
      same_address = address ∙ ap (λ t. t.address) (sym same);
      fits = window;
    }

destination_sound :
    (settings : Settings) (around : Surroundings) (host serial : Option Text)
    (target : ConsoleTarget) (command : Text)
    → destination settings around host serial ≡ granted (target, command)
    → In target (targets settings.self around.recorded around.state)
unfolding destination
destination_sound settings around host none target command h =
    from_resolve settings around host target command h
destination_sound settings around host (some []) target command h =
    from_resolve settings around host target command h
destination_sound settings around host (some (c ∷ serial)) target command h =
    let (inventory, read, route, same) =
      serial_route_sound settings.self around.recorded around.state around.locate (c ∷ serial)
        command target h in
    route.is_offered

-- A terminal that is prepared, whatever host or guest is named and whatever window is asked, passed
-- every check: the console is on, its target is one of those offered, at that target's address and with
-- its host key recorded, the node's own key is there, fewer consoles than the most were open, and its
-- window is of 20 to 500 columns and 5 to 200 lines.
pub prepare_terminal-IsAdmitted :
    (settings : Settings) (around : Surroundings) (columns lines : ℤ) (host serial : Option Text)
    (active : ℕ) (opened : Opened)
    → prepare_terminal settings around columns lines host serial active ≡ granted opened
    → IsAdmitted settings around active opened
unfolding prepare_terminal
prepare_terminal-IsAdmitted settings around columns lines host serial active opened h =
    let (_, on, h1) = >>=-eq-granted (check_enabled settings) _ h in
    let (goal, found, h2) = >>=-eq-granted (destination settings around host serial) _ h1 in
    let (extra, allowed, made) = >>=-eq-granted (admit settings around active goal.0) _ h2 in
    admitted settings around active goal.0 extra opened on
      (destination_sound settings around host serial goal.0 goal.1 found) allowed
      (ap (λ o. o.target) (sym (granted-injective _ opened made)))
      (ap (λ o. o.request.address) (sym (granted-injective _ opened made)))
      (subst (λ o. Fits o.request.window) (granted-injective _ opened made) fits_window)
  where
    fits_window : Fits (some (clamp_window columns lines))
    fits_window = let (a, b, c, d, _, _) = clamp_window_bounds columns lines in (a, b, c, d)

-- The same of a display: what is opened for a guest is a machine offered, and passed every check.
pub prepare_display-IsAdmitted :
    (settings : Settings) (around : Surroundings) (guest_name : Text) (active : ℕ) (opened : Opened)
    → prepare_display settings around guest_name active ≡ granted opened
    → IsAdmitted settings around active opened
unfolding prepare_display
prepare_display-IsAdmitted settings around guest_name active opened h =
    let (_, on, h1) = >>=-eq-granted (check_enabled settings) _ h in
    let (target, route, h2) =
      >>=-eq-granted
        (graphic_route settings.self around.recorded around.state around.locate guest_name) _ h1 in
    let (extra, allowed, made) = >>=-eq-granted (admit settings around active target) _ h2 in
    let (inventory, read, found) =
      graphic_route_sound settings.self around.recorded around.state around.locate guest_name target
        route in
    admitted settings around active target extra opened on found.is_offered allowed
      (ap (λ o. o.target) (sym (granted-injective _ opened made)))
      (ap (λ o. o.request.address) (sym (granted-injective _ opened made)))
      (subst (λ o. Fits o.request.window) (granted-injective _ opened made) tt)
