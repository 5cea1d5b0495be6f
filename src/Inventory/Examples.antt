-- ===== src/Inventory/Examples.antt =====
-- The theorems on groups, on git's answers and on replications, applied to small inventories.
use seapath_webui.Common.{text_le, ◌⊎◌, codes, All, ◌==◌, true, none, some, [], ◌∷◌, ◌≡◌, ◌↔◌, refl}
use seapath_webui.Common.Names.{mem}
use seapath_webui.Common.Dict.{lookup}
use seapath_webui.Inventory.Resolve.{Table, root, members}
use seapath_webui.Inventory.Resolve.Members.{Below, members-Below}
use seapath_webui.Inventory.Model.{Inventory, NodeRole, Mode}
use seapath_webui.Inventory.Repository.{answered}
use seapath_webui.Inventory.Replication.{Target, Machine, targets, replicate}
use seapath_webui.Inventory.Replication.Laws.{Replicas, replicate-Replicated}
use seapath_webui.Inventory.Groups.{Groups, Yaml}
use seapath_webui.Inventory.Groups.Depths.{depths, containing, variables_of, host_part, group_part}
use seapath_webui.Inventory.Groups.Winners.{Wins, given, variables_of-Wins}

abbrev table : Table
table =
    (codes "hosts", record { hosts = codes "n1" ∷ []; children = codes "spare" ∷ [] })
    ∷ (codes "spare", record { hosts = codes "n2" ∷ []; children = codes "hosts" ∷ [] })
    ∷ []

members-Below_example :
    (mem (codes "n2") (members table (codes "hosts")) ≡ true)
    ↔ Below table (codes "n2") (codes "hosts")
unfolding ◌==◌
members-Below_example = members-Below table (codes "hosts") refl (codes "n2")

abbrev inventory : Inventory
inventory = record {
  mode = Mode.cluster;
  hosts =
      (codes "n1", record { role = NodeRole.hypervisor; ansible_host = codes "192.0.2.1" })
      ∷ (codes "n2", record { role = NodeRole.observer; ansible_host = codes "192.0.2.2" })
      ∷ [];
  guests = [];
  cluster_members = [];
}

abbrev machine : Target → Machine
machine target = record {
  before = answered (record { branch = none; commit = some (codes "c0") });
  push = answered [];
  again = answered (record { branch = none; commit = some (codes "c1") });
}

replicate-Replicated_example :
    Replicas
      (λ s. s)
      (some (codes "c1"))
      machine
      (targets (some inventory) (some (codes "n1")))
      (replicate (λ s. s) (some (codes "c1")) machine (some inventory) (some (codes "n1")))
replicate-Replicated_example =
    replicate-Replicated (λ s. s) (some (codes "c1")) machine (some inventory) (some (codes "n1"))

abbrev declared : Groups
declared =
    (
      root,
      record {
        variables = (codes "ntp", Yaml.scalar (codes "a")) ∷ [];
        hosts = (codes "n1", []) ∷ [];
        children = codes "hosts" ∷ [];
      },
    )
    ∷ (
      codes "hosts",
      record {
        variables = (codes "ntp", Yaml.scalar (codes "b")) ∷ [];
        hosts = (codes "n1", []) ∷ [];
        children = [];
      },
    )
    ∷ []

ntp_deepest :
    lookup (codes "ntp") (variables_of (codes "n1") (containing declared (codes "n1")))
    ≡ some (Yaml.scalar (codes "b"))
unfolding lookup variables_of containing ◌==◌ mem text_le
ntp_deepest = refl

variables_of-Wins_example :
    Wins
      (depths declared)
      (codes "ntp")
      (Yaml.scalar (codes "b"))
      (host_part (codes "n1"))
      (containing declared (codes "n1"))
    ⊎ (All
          (λ g. given (codes "ntp") (host_part (codes "n1") g) ≡ none)
          (containing declared (codes "n1"))
        × Wins
            (depths declared)
            (codes "ntp")
            (Yaml.scalar (codes "b"))
            group_part
            (containing declared (codes "n1")))
variables_of-Wins_example =
    variables_of-Wins declared (codes "n1") (codes "ntp") (Yaml.scalar (codes "b")) ntp_deepest
