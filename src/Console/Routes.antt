-- ===== src/Console/Routes.antt =====
-- app/console/service.py: the machine that a guest's serial or graphic console goes through. `locate`
-- answers where a guest is reported to run, `none` also where the reading fails.
pub mod Sound
use seapath_webui.Common.{
  Text, codes, ◌==◌, filter, not, Bool, true, false, Option, none, some, List, [], ◌∷◌, ◌++◌,
  nat_eq, length, if◌then◌else◌,
}
use seapath_webui.Common.Dict.{Dict, lookup, insert, has}
use seapath_webui.Common.Names.{mem}
use seapath_webui.Inventory.Model.{
  Inventory, InventoryState, Mode, standalone, cluster, hypervisors, deployment_of, placement_hosts,
}
use seapath_webui.Console.Targets.{
  ConsoleTarget, Self, Attempt, granted, unavailable, unknown_guest, no_hypervisor, targets,
  own_name, state_inventory, ◌>>=◌,
}
use seapath_webui.Console.Commands.{serial_command}

with_guest : Text → Option Inventory → Attempt Inventory
with_guest guest none = unavailable (unknown_guest guest)
with_guest guest (some inventory) =
    if has guest inventory.guests then granted inventory else unavailable (unknown_guest guest)

-- _guest_inventory
unfoldable pub guest_inventory : Text → Option InventoryState → Attempt Inventory
unfolding with_guest state_inventory
guest_inventory guest state = with_guest guest (state_inventory state)

located_in : Option Text → List Text → Bool
located_in none names = false
located_in (some name) names = mem name names

located_alone : Option Text → List Text
located_alone none = []
located_alone (some name) = name ∷ []

-- _standalone_candidates
unfoldable pub standalone_candidates : (Text → Option Text) → Inventory → Text → Text → List Text
unfolding located_in located_alone
standalone_candidates locate inventory guest this_machine =
    let alone = filter (λ name. not (mem name inventory.cluster_members)) (hypervisors inventory) in
    if located_in (locate guest) alone
    then located_alone (locate guest)
    else if nat_eq (length alone) 1
    then alone
    else if mem this_machine alone
    then this_machine ∷ []
    else []

-- {target.name: target for target in targets}
unfoldable pub by_name : List ConsoleTarget → Dict ConsoleTarget → Dict ConsoleTarget
by_name [] found = found
by_name (target ∷ rest) found = by_name rest (insert target.name target found)

if_known : Bool → ConsoleTarget → Option ConsoleTarget
if_known true target = some target
if_known false target = none

usable : Option ConsoleTarget → Option ConsoleTarget
unfolding if_known
usable none = none
usable (some target) = if_known target.host_key_known target

or_later : Option ConsoleTarget → Option ConsoleTarget → Option ConsoleTarget
or_later none later = later
or_later (some target) later = some target

first_usable : Dict ConsoleTarget → List Text → Option ConsoleTarget
unfolding usable or_later
first_usable found [] = none
first_usable found (name ∷ names) = or_later (usable (lookup name found)) (first_usable found names)

-- _reachable: the sort is stable, so this machine comes first and the others keep their order.
unfoldable pub reachable : Text → List ConsoleTarget → List Text → Option ConsoleTarget
unfolding by_name first_usable
reachable this_machine offered candidates = first_usable (by_name offered []) (
    filter (λ name. name == this_machine) candidates
    ++ filter (λ name. not (name == this_machine)) candidates)

or_unreachable : Text → Option ConsoleTarget → Attempt ConsoleTarget
or_unreachable guest none = unavailable (no_hypervisor guest)
or_unreachable guest (some target) = granted target

unfoldable pub is_cluster : Mode → Bool
is_cluster cluster = true
is_cluster standalone = false

module _ (self : Self) (recorded : List Text) (state : Option InventoryState)
    (locate : Text → Option Text) where
  unfoldable pub graphic_candidates : Inventory → Text → List Text
  unfolding is_cluster located_alone
  graphic_candidates inventory guest =
      if is_cluster (deployment_of guest inventory)
      then located_alone (locate guest)
      else standalone_candidates locate inventory guest (own_name self state)

  unfoldable pub graphic_route : Text → Attempt ConsoleTarget
  unfolding guest_inventory graphic_candidates or_unreachable
  graphic_route guest = do
    inventory ← guest_inventory guest state
    or_unreachable guest (
        reachable (own_name self state) (targets self recorded state)
          (graphic_candidates inventory guest))

  unfoldable pub serial_candidates : Inventory → Text → List Text
  unfolding is_cluster
  serial_candidates inventory guest =
      if is_cluster (deployment_of guest inventory)
      then placement_hosts inventory
      else standalone_candidates locate inventory guest (own_name self state)

  -- ConsoleService.serial_route: the target, and the command that runs there.
  unfoldable pub serial_route : Text → Attempt (ConsoleTarget × Text)
  unfolding guest_inventory serial_candidates or_unreachable is_cluster
  serial_route guest = do
    inventory ← guest_inventory guest state
    target ← or_unreachable guest (
        reachable (own_name self state) (targets self recorded state)
          (serial_candidates inventory guest))
    granted (target, serial_command guest (is_cluster (deployment_of guest inventory)))
