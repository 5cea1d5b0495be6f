-- ===== src/Console/Examples.antt =====
-- The theorems on consoles, applied to a cluster of two machines, with one guest.
use seapath_webui.Common.{
  ◌+◌, ◌≤◌, ◌==◌, filter, strip, has_part, Text, codes, length, true, false, Option, none, some, [],
  ◌∷◌, ◌≡◌, refl,
}
use seapath_webui.Common.Int.{pos}
use seapath_webui.Common.Dict.{has, lookup, insert}
use seapath_webui.Common.Names.{mem}
use seapath_webui.Inventory.Model.{
  Inventory, InventoryState, hypervisor, cluster, deployment_of, placement_hosts,
}
use seapath_webui.Console.Window.{clamp_window}
use seapath_webui.Console.Commands.{serial_inner, serial_command}
use seapath_webui.Console.Commands.Quoting.{words, words-serial_command}
use seapath_webui.Console.Targets.{
  ConsoleTarget, Self, granted, targets, own_target, own_name, offered, declared, resolve,
}
use seapath_webui.Console.Routes.{
  guest_inventory, serial_route, serial_candidates, is_cluster, reachable,
}
use seapath_webui.Console.Routes.Sound.{IsRoute, serial_route_sound}
use seapath_webui.Console.Sessions.{
  Settings, Surroundings, Opened, Machine, Reach, start, next, asks_terminal, opens,
  prepare_terminal, admit, count_opened,
}
use seapath_webui.Console.Sessions.Admitted.{IsAdmitted, prepare_terminal-IsAdmitted}
use seapath_webui.Console.Sessions.Count.{Reach-count, Reach-limit, Reach-over_limit}

abbrev nasty : Text
nasty = codes "vm'; reboot '"

words-serial_command_example :
    (words (serial_command nasty true)
      ≡ some
          (codes "sudo" ∷ codes "-n" ∷ codes "/bin/sh" ∷ codes "-c" ∷ serial_inner nasty true ∷ []))
    × (words (serial_inner nasty true)
        ≡ some (codes "exec" ∷ codes "vm-mgr" ∷ codes "console" ∷ nasty ∷ []))
words-serial_command_example = words-serial_command nasty true

abbrev inventory : Inventory
inventory = record {
  mode = cluster;
  hosts =
      (codes "n1", record { role = hypervisor; ansible_host = codes "10.0.0.1" })
      ∷ (codes "n2", record { role = hypervisor; ansible_host = codes "10.0.0.2" })
      ∷ [];
  guests =
      (
        codes "vm",
        record { ansible_host = none; has_cloud_init = false; deployment = none; extra = [] },
      )
      ∷ [];
  cluster_members = codes "n1" ∷ codes "n2" ∷ [];
}

abbrev state : Option InventoryState
state = some (record {
  inventory = some inventory;
  this_host = some (codes "n1");
  seeded = true;
  failing = [];
})

abbrev self : Self
self = record { hostname = codes "n1"; address = codes "127.0.0.1" }

abbrev here : ConsoleTarget
here = own_target self state

abbrev nowhere : Text → Option Text
nowhere name = none

serial_route_sound_example :
    (found : Inventory) × (guest_inventory (codes "vm") state ≡ granted found)
    × IsRoute
        (targets self [] state)
        (serial_candidates self [] state nowhere found (codes "vm"))
        here
    × (serial_command (codes "vm") true
        ≡ serial_command (codes "vm") (is_cluster (deployment_of (codes "vm") found)))
unfolding serial_route has ◌==◌ reachable filter deployment_of lookup placement_hosts own_name
    targets offered declared mem strip has_part insert
serial_route_sound_example =
    serial_route_sound self [] state nowhere (codes "vm") (serial_command (codes "vm") true) here
      refl

abbrev settings : Settings
settings = record {
  self = self;
  user = codes "ansible";
  enabled = true;
  max_sessions = 1;
  relay = [];
}

abbrev around : Surroundings
around = record {
  state = state;
  recorded = [];
  locate = nowhere;
  private_key_exists = true;
  extra_keys = [];
}

abbrev terminal : Opened
terminal = record {
  request = record {
    address = codes "127.0.0.1";
    user = codes "ansible";
    extra_key_files = [];
    command = [];
    window = some (80, 24);
  };
  target = here;
  console_guest = none;
}

asked : prepare_terminal settings around (pos 80) (pos 24) none none 0 ≡ granted terminal
unfolding prepare_terminal resolve admit clamp_window
asked = refl

prepare_terminal-IsAdmitted_example : IsAdmitted settings around 0 terminal
prepare_terminal-IsAdmitted_example =
    prepare_terminal-IsAdmitted settings around (pos 80) (pos 24) none none 0 terminal asked

abbrev one_open : Machine
one_open = record { active = 1; opening = []; consoles = terminal ∷ []; closing = [] }

path : Reach settings one_open
unfolding count_opened
path =
    next (next start (asks_terminal around (pos 80) (pos 24) none none terminal asked))
      (opens [] [] terminal refl)

Reach-count_example : 1 ≡ length (terminal ∷ []) + length {A = Opened} []
Reach-count_example = Reach-count one_open path

Reach-limit_example : 1 + length {A = Opened} [] ≤ 1
unfolding path
Reach-limit_example = Reach-limit one_open path ((tt, refl), tt)

Reach-over_limit_example : (m : Machine) × Reach settings m × (m.active ≡ 5)
Reach-over_limit_example =
    Reach-over_limit settings around (pos 80) (pos 24) none none terminal asked 5
