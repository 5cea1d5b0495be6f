-- ===== src/Runs/Checks/Preconditions.antt =====
-- app/runs/service.py: why an entry cannot be launched (`_unmet_preconditions`, `_blocking` and what they
-- call). What the checks read of the node and of the disk is a `Site`.
pub mod Met
use seapath_webui.Common.{
  ℕ, Text, codes, ◌==◌, is_empty, strip, filter, Bool, true, false, not, ◌&&◌, ◌||◌, Option, none,
  some, List, [], ◌∷◌, ◌++◌, if◌then◌else◌,
}
use seapath_webui.Common.Dict.{Dict, lookup, has, keys}
use seapath_webui.Common.Names.{mem, diff, to_set, sorted}
use seapath_webui.Inventory.Model.{NodeConfig, Guest, Inventory, InventoryState}
use seapath_webui.Runs.Catalogue.{
  Precondition, inventory_valid, self_trust, peer_reachable, guest_addressable, seed_buildable,
  in_standalone, in_cluster, playbook_present, distribution_matches, variables_supported,
  is_unknown, VariableSpec, PlaybookEntry,
}
use seapath_webui.Runs.Checks.{
  Reason, no_inventory, no_trust, no_address, no_guest, no_seed_role, no_seed_tool, no_cluster,
  no_standalone, invalid_inventory, unreachable_machines, malformed_seeds, unfillable, no_account,
  not_shipped, wrong_distribution,
}

-- `TrustService.relations`: whether each relation is installed, or the MissingAccount that it raises.
pub data Trust : Type 0 where
  missing_account : Trust
  relations : List Bool → Trust

-- `known` is the addresses that `known_hosts.read_peers` gives, `missing` the entries whose playbook the
-- collection lacks, `running` the distribution of the node.
pub record Site : Type 0 where
  pub state : InventoryState
  pub trust : Trust
  pub has_extra_keys : Bool
  pub known : List Text
  pub missing : List Text
  pub has_seed_role : Bool
  pub has_seed_tool : Bool
  pub running : Option Text
  pub updates_itself : Bool
  pub reboots_for_kernel : Bool

unfoldable pub is_this : Text → Option Text → Bool
is_this name none = false
is_this name (some host) = name == host

unfoldable pub address_known : List Text → Option NodeConfig → Bool
address_known known none = false
address_known known (some node) = mem node.ansible_host known

unfoldable pub others_of : Inventory → Option Text → List Text
unfolding is_this
others_of inventory this_host = filter (λ name. not (is_this name this_host)) (keys inventory.hosts)

unfoldable pub unreachable_of : Site → Option Inventory → List Text
unfolding others_of address_known
unreachable_of site none = []
unreachable_of site (some inventory) =
    if is_empty (others_of inventory site.state.this_host)
    then []
    else if not site.has_extra_keys
    then others_of inventory site.state.this_host
    else filter (λ name. not (address_known site.known (lookup name inventory.hosts)))
        (others_of inventory site.state.this_host)

-- _unreachable
unfoldable pub unreachable : Site → List Text
unfolding unreachable_of
unreachable site = unreachable_of site site.state.inventory

-- `(address or "").strip()`
unfoldable pub has_address : Option Text → Bool
has_address none = false
has_address (some address) = not (is_empty (strip address))

-- _addressable_guests
unfoldable pub addressable_guests : Dict Guest → List Text
unfolding has_address
addressable_guests [] = []
addressable_guests ((name, guest) ∷ guests) =
    let rest = addressable_guests guests in
    if has_address guest.ansible_host then name ∷ rest else rest

abbrev pub cloud_init : Text
cloud_init = codes "cloud_init"

-- _seeded_guests
unfoldable pub seeded_guests : Dict Guest → List Text
seeded_guests [] = []
seeded_guests ((name, guest) ∷ guests) =
    let rest = seeded_guests guests in
    if guest.has_cloud_init || mem cloud_init guest.extra then name ∷ rest else rest

-- _malformed_seeds
unfoldable pub malformed_of : Dict Guest → List Text
malformed_of [] = []
malformed_of ((name, guest) ∷ guests) =
    let rest = malformed_of guests in if mem cloud_init guest.extra then name ∷ rest else rest

-- _seed_refusal
unfoldable pub seed_refusal : Site → List Text → Option Reason
seed_refusal site malformed =
    if not (is_empty malformed)
    then some (malformed_seeds malformed)
    else if not site.has_seed_role
    then some no_seed_role
    else if not site.has_seed_tool
    then some no_seed_tool
    else none

unfoldable pub unmet_inventory : InventoryState → Option Inventory → Option Reason
unmet_inventory state none = some no_inventory
unmet_inventory state (some inventory) =
    if not state.seeded
    then some no_inventory
    else if is_empty state.failing
    then none
    else some (invalid_inventory state.failing)

unfoldable pub unmet_trust : Trust → Option Reason
unmet_trust missing_account = some no_account
unmet_trust (relations []) = some no_trust
unmet_trust (relations (installed ∷ others)) = if installed then none else some no_trust

-- The machines out of reach that the run plays.
unfoldable pub played_among : Option (List Text) → List Text → List Text
played_among none names = names
played_among (some played) names = filter (λ name. mem name played) names

unfoldable pub unmet_peers : List Text → Option Reason
unmet_peers [] = none
unmet_peers (name ∷ names) = some (unreachable_machines (name ∷ names))

unfoldable pub unmet_guests : Option Inventory → Option Reason
unfolding addressable_guests
unmet_guests none = none
unmet_guests (some inventory) =
    if not (is_empty (addressable_guests inventory.guests))
    then none
    else if is_empty inventory.guests
    then some no_guest
    else some no_address

unfoldable pub unmet_seeds : Site → Option Inventory → Option Reason
unfolding seeded_guests malformed_of seed_refusal
unmet_seeds site none = none
unmet_seeds site (some inventory) =
    if is_empty (seeded_guests inventory.guests)
    then none
    else seed_refusal site (malformed_of inventory.guests)

unfoldable pub clustered : Option Inventory → List Text
clustered none = []
clustered (some inventory) = inventory.cluster_members

unfoldable pub alone : Option Inventory → List Text
alone none = []
alone (some inventory) = sorted (diff (to_set (keys inventory.hosts)) inventory.cluster_members)

-- What `_unmet_preconditions` holds under a precondition, for a run that plays `played`.
unfoldable pub unmet : Site → Option (List Text) → Precondition → Option Reason
unfolding unmet_inventory unmet_trust unreachable played_among unmet_peers unmet_guests unmet_seeds
    clustered alone
unmet site played inventory_valid = unmet_inventory site.state site.state.inventory
unmet site played self_trust = unmet_trust site.trust
unmet site played peer_reachable = unmet_peers (played_among played (unreachable site))
unmet site played guest_addressable = unmet_guests site.state.inventory
unmet site played seed_buildable = unmet_seeds site site.state.inventory
unmet site played in_cluster =
    if is_empty (clustered site.state.inventory) then some no_cluster else none
unmet site played in_standalone =
    if is_empty (alone site.state.inventory) then some no_standalone else none
unmet site played other = none

unfoldable pub declares_this : Option Inventory → Option Text → Bool
declares_this none this_host = false
declares_this (some inventory) none = false
declares_this (some inventory) (some host) = has host inventory.hosts

-- _wrong_distribution
unfoldable pub wrong_for : Site → Option Text → Option Text → Option Reason
unfolding declares_this
wrong_for site none running = none
wrong_for site (some wanted) none = none
wrong_for site (some wanted) (some running) =
    if running == wanted
    then none
    else if declares_this site.state.inventory site.state.this_host
    then some (wrong_distribution running)
    else none

unfoldable pub unfillable_of : List VariableSpec → List Text
unfillable_of [] = []
unfillable_of (spec ∷ specs) =
    let rest = unfillable_of specs in
    if spec.required && is_unknown spec.type then spec.name ∷ rest else rest

abbrev pub Blocks : Type 0
Blocks = List (Precondition × Reason)

unfoldable pub coded : Precondition → Option Reason → Blocks
coded code none = []
coded code (some reason) = (code, reason) ∷ []

unfoldable pub required_unmet : Site → Option (List Text) → List Precondition → Blocks
unfolding coded
required_unmet site played [] = []
required_unmet site played (code ∷ codes) =
    coded code (unmet site played code) ++ required_unmet site played codes

unfoldable pub unfillable_block : List Text → Option Reason
unfillable_block [] = none
unfillable_block (name ∷ names) = some (unfillable (name ∷ names))

-- _blocking
unfoldable pub blocking : Site → PlaybookEntry → Option (List Text) → Blocks
unfolding required_unmet wrong_for unfillable_of unfillable_block coded
blocking site entry played =
    coded playbook_present (if mem entry.id site.missing then some not_shipped else none)
    ++ (required_unmet site played entry.requires
        ++ (coded distribution_matches (wrong_for site entry.distribution site.running)
            ++ coded variables_supported (unfillable_block (unfillable_of entry.variables))))
