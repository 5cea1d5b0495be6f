-- ===== src/Runs/Checks/Examples.antt =====
-- The theorems on the checks of a launch, applied to a measurement on a cluster of two machines.
use seapath_webui.Common.{
  Text, codes, Bool, true, false, Option, none, some, [], ◌∷◌, ◌≡◌, refl, filter, any, ◌==◌, strip,
  partition,
}
use seapath_webui.Common.Dict.{Dict, keys, has, insert, lookup}
use seapath_webui.Common.Int.{pos, within_range}
use seapath_webui.Common.Names.{mem, sorted, to_set, inter, union}
use seapath_webui.Common.Numerals.{int_of_text}
use seapath_webui.Hosts.Cpus.{parse_cpu_list, cpus_of}
use seapath_webui.Inventory.Resolve.{Table, members}
use seapath_webui.Runs.Scope.{plan}
use seapath_webui.Runs.Scope.Matching.{plan_targets, match_pattern, hosts_of}
use seapath_webui.Inventory.Model.{Inventory, hypervisor, cluster}
use seapath_webui.Runs.Catalogue.{
  PlaybookEntry, seconds, cpu_list, is_unknown, no_preview, inventory_valid, self_trust,
  peer_reachable,
}
use seapath_webui.Runs.Checks.{Json, text, integer, passes}
use seapath_webui.Runs.Checks.Values.{Declared, checked_value}
use seapath_webui.Runs.Checks.Variables.{accepted_variables, specs_of}
use seapath_webui.Runs.Checks.Variables.Accepted.{
  WellGiven, accepted_variables_sound, accepted_variables_again,
}
use seapath_webui.Runs.Checks.Preconditions.{Site, relations, blocking, unmet}
use seapath_webui.Runs.Checks.Launch.{Asked, Prepared, prepare, declared_by}
use seapath_webui.Runs.Checks.Launch.Ready.{IsReady, prepare-IsReady}

abbrev shown : Json → Text
shown value = codes "a value"

abbrev role_declares : Text → Text → Bool
role_declares role variable = true

abbrev entry : PlaybookEntry
entry = record {
  id = codes "cyclictest";
  targets = codes "all" ∷ [];
  preview = no_preview;
  requires = inventory_valid ∷ self_trust ∷ peer_reachable ∷ [];
  variables =
      record { name = codes "duration"; type = seconds; required = true; role = none }
      ∷ record {
        name = codes "cpus";
        type = cpu_list;
        required = false;
        role = some (codes "cyclictest");
      }
      ∷ [];
  distribution = none;
  reboots_controller = false;
  controller_last = false;
  results_variable = some (codes "results");
  scope_required = true;
}

abbrev catalogued : Text → Option PlaybookEntry
catalogued name = some entry

abbrev inventory : Inventory
inventory = record {
  mode = cluster;
  hosts =
      (codes "n1", record { role = hypervisor; ansible_host = codes "10.0.0.1" })
      ∷ (codes "n2", record { role = hypervisor; ansible_host = codes "10.0.0.2" })
      ∷ [];
  guests = [];
  cluster_members = codes "n1" ∷ codes "n2" ∷ [];
}

abbrev site : Site
site = record {
  state = record {
    inventory = some inventory;
    this_host = some (codes "n1");
    seeded = true;
    failing = [];
  };
  trust = relations (true ∷ []);
  has_extra_keys = true;
  known = codes "10.0.0.2" ∷ [];
  missing = [];
  has_seed_role = true;
  has_seed_tool = true;
  running = some (codes "debian");
  updates_itself = false;
  reboots_for_kernel = false;
}

abbrev table : Table
table = (codes "all", record { hosts = codes "n1" ∷ codes "n2" ∷ []; children = [] }) ∷ []

abbrev asked : Asked
asked = record {
  variables = (codes "duration", text (codes " 60 ")) ∷ (codes "cpus", text (codes "4-7 ")) ∷ [];
  check = false;
  scope = record { groups = []; hosts = codes "n2" ∷ [] };
  passwords = [];
}

abbrev chosen : Dict Json
chosen = (codes "duration", integer (pos 60)) ∷ (codes "cpus", text (codes "4-7")) ∷ []

abbrev declared : Declared
declared = record {
  hosts = codes "n1" ∷ codes "n2" ∷ [];
  this_host = some (codes "n1");
  workloads = [];
  removed = [];
}

accepted :
    accepted_variables shown declared role_declares catalogued entry asked.variables ≡ passes chosen
unfolding accepted_variables filter keys has insert ◌==◌ lookup checked_value int_of_text
    within_range strip parse_cpu_list cpus_of partition
accepted = refl

accepted_variables_sound_example :
    WellGiven shown declared role_declares (some entry) (specs_of entry) asked.variables chosen
accepted_variables_sound_example =
    accepted_variables_sound shown declared role_declares catalogued entry asked.variables chosen
      accepted

accepted_variables_again_example :
    accepted_variables shown declared role_declares catalogued entry chosen ≡ passes chosen
accepted_variables_again_example =
    accepted_variables_again shown declared role_declares catalogued entry asked.variables chosen
      accepted

abbrev prepared : Prepared
prepared = record {
  scope = record {
    limit = some (codes "n2");
    hosts = some (codes "n2" ∷ []);
    excluded = [];
    requested = asked.scope;
  };
  ends_with_reboot = none;
  chosen = chosen;
  extra_vars =
      (codes "duration", integer (pos 60))
      ∷ (codes "cpus", text (codes "4-7"))
      ∷ (codes "results", text (codes "/runs/1/results"))
      ∷ [];
}

passed :
    prepare shown role_declares catalogued site table [] [] (codes "/runs/1/results") entry asked
    ≡ passes prepared
unfolding prepare plan plan_targets match_pattern hosts_of any union sorted to_set mem members inter
    blocking unmet is_unknown accepted_variables filter keys has insert ◌==◌ lookup checked_value
    int_of_text within_range strip parse_cpu_list cpus_of partition
passed = refl

prepare-IsReady_example :
    IsReady site table entry asked prepared
    × WellGiven shown
        (declared_by site.state [] [])
        role_declares
        (some entry)
        (specs_of entry)
        asked.variables
        chosen
prepare-IsReady_example =
    prepare-IsReady shown role_declares catalogued site table [] [] (codes "/runs/1/results") entry
      asked prepared passed
