-- ===== src/Runs/Checks/Launch.antt =====
-- app/runs/service.py: the head of `_launch`, up to the choice of starting or waiting, and
-- `_check_controller`. The groups of the inventory and the results directory are arguments.
pub mod Ready
use seapath_webui.Common.{
  Text, ◌==◌, is_empty, filter, Bool, true, false, not, ◌&&◌, ◌||◌, Option, none, some, List, [],
  ◌∷◌, if◌then◌else◌,
}
use seapath_webui.Common.Dict.{Dict, insert, keys}
use seapath_webui.Common.Names.{mem}
use seapath_webui.Inventory.Model.{Inventory, InventoryState}
use seapath_webui.Inventory.Resolve.{Table}
use seapath_webui.Runs.Models.{RunScope}
use seapath_webui.Runs.Scope
use seapath_webui.Runs.Scope.{Scope, Checked, is_narrowed}
use seapath_webui.Runs.Scope.Matching.{plan_targets}
use seapath_webui.Runs.Catalogue.{PlaybookEntry, Preview, previewable, seed_buildable}
use seapath_webui.Runs.Checks.{
  Json, text, Verdict, passes, refuses, raises, ◌>>=◌, scope_refused, scope_required,
  not_previewable, controller_in_scope, controller_not_alone, precondition_failed, Reason,
}
use seapath_webui.Runs.Checks.Values.{Declared}
use seapath_webui.Runs.Checks.Variables.{accepted_variables}
use seapath_webui.Runs.Checks.Preconditions.{Site, Blocks, blocking, seed_refusal, is_this}

-- What the caller of a launch gives: `passwords` the guests that are given a root password.
pub record Asked : Type 0 where
  pub variables : Dict Json
  pub check : Bool
  pub scope : RunScope
  pub passwords : List Text

-- What a launch knows once it has passed its checks.
pub record Prepared : Type 0 where
  pub scope : Scope
  pub ends_with_reboot : Option Text
  pub chosen : Dict Json
  pub extra_vars : Dict Json

-- _scope, of what `plan` answers
scoped : Option (Checked Scope) → Verdict Scope
scoped none = raises
scoped (some (Scope.accepted scope)) = passes scope
scoped (some (Scope.refused why)) = refuses (scope_refused why)

check_narrowed : Bool → Scope → Verdict (Unit {0})
check_narrowed required scope =
    if required && not (is_narrowed scope.requested) then refuses scope_required else passes tt

unfoldable pub not_this : Text → List Text → List Text
not_this host hosts = filter (λ name. not (name == host)) hosts

unfoldable pub check_playing : Site → PlaybookEntry → Text → List Text → Verdict (Option Text)
unfolding not_this
check_playing site entry host hosts =
    if not (mem host hosts)
    then passes none
    else if not site.updates_itself
    then refuses (controller_in_scope (not_this host hosts))
    else if not (is_empty (not_this host hosts))
        && not (entry.controller_last && site.reboots_for_kernel)
    then refuses (controller_not_alone (not_this host hosts))
    else passes (some host)

-- _check_controller
unfoldable pub check_controller :
    Site → PlaybookEntry → Option Text → Option (List Text) → Verdict (Option Text)
unfolding check_playing
check_controller site entry none hosts = passes none
check_controller site entry (some host) none = passes none
check_controller site entry (some host) (some hosts) = check_playing site entry host hosts

unfoldable pub controller_of : Site → PlaybookEntry → Option (List Text) → Verdict (Option Text)
unfolding check_controller
controller_of site entry hosts =
    if entry.reboots_controller
    then check_controller site entry site.state.this_host hosts
    else passes none

check_blocks : Blocks → Verdict (Unit {0})
check_blocks [] = passes tt
check_blocks (block ∷ blocks) = refuses (precondition_failed (block ∷ blocks))

refused_seed : Option Reason → Verdict (Unit {0})
refused_seed none = passes tt
refused_seed (some reason) = refuses (precondition_failed ((seed_buildable, reason) ∷ []))

check_passwords : Site → List Text → Verdict (Unit {0})
unfolding refused_seed
check_passwords site [] = passes tt
check_passwords site (guest ∷ guests) = refused_seed (seed_refusal site [])

check_preview : Bool → Preview → Verdict (Unit {0})
check_preview check preview =
    if check && not (previewable preview) then refuses not_previewable else passes tt

-- `extra_vars[entry.results_variable] = str(...)`
unfoldable pub with_results : Option Text → Text → Dict Json → Dict Json
with_results none directory chosen = chosen
with_results (some variable) directory chosen =
    if is_empty variable then chosen else insert variable (text directory) chosen

hosts_of : Option Inventory → List Text
hosts_of none = []
hosts_of (some inventory) = keys inventory.hosts

unfoldable pub declared_by : InventoryState → List Text → List Text → Declared
unfolding hosts_of
declared_by state workloads removed = record {
  hosts = hosts_of state.inventory;
  this_host = state.this_host;
  workloads = workloads;
  removed = removed;
}

module _ (shown : Json → Text) (role_declares : Text → Text → Bool)
    (catalogued : Text → Option PlaybookEntry) where
  -- RunService._launch, before the choice of starting or waiting.
  unfoldable pub prepare :
      Site → Table → List Text → List Text → Text → PlaybookEntry → Asked → Verdict Prepared
  unfolding scoped check_narrowed controller_of check_blocks check_passwords check_preview
      with_results declared_by
  prepare site table workloads removed directory entry asked = do
    scope ← scoped (plan_targets table entry.targets asked.scope)
    _ ← check_narrowed entry.scope_required scope
    reboot ← controller_of site entry scope.hosts
    _ ← check_blocks (blocking site entry scope.hosts)
    _ ← check_passwords site asked.passwords
    _ ← check_preview asked.check entry.preview
    chosen ←
        accepted_variables shown (declared_by site.state workloads removed) role_declares catalogued
          entry asked.variables
    passes (record {
      scope = scope;
      ends_with_reboot = reboot;
      chosen = chosen;
      extra_vars = with_results entry.results_variable directory chosen;
    })
