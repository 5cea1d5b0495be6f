-- ===== src/Runs/Scope/Examples.antt =====
-- The theorems on scopes, applied to a playbook of the machine "n1" and the guest "g1".
use seapath_webui.Common.{
  if◌then◌else◌, is_empty, none, Text, codes, ◌==◌, is_empty, any, all, filter, ◌||◌, strip,
  partition, true, false, not, ◌&&◌, some, List, [], ◌∷◌, ◌≡◌, refl,
}
use seapath_webui.Common.Dict.{lookup, has}
use seapath_webui.Common.Names.{mem, sorted, subset, to_set, inter, diff, union}
use seapath_webui.Inventory.Resolve.{Table, members, root}
use seapath_webui.Runs.Models.{RunScope}
use seapath_webui.Runs.Scope.{Scope, guest_group, accepted, plan, is_narrowed}
use seapath_webui.Runs.Scope.Default.{plan_default}
use seapath_webui.Runs.Scope.Matching.{hosts, is_union, tokens_of, match_pattern, hosts_of}
use seapath_webui.Runs.Scope.Matching.Reference.{is_named, passes_token, mem-match_pattern}
use seapath_webui.Runs.Scope.Narrowed.{IsPlayed, IsAsked, plan_narrowed}

abbrev table : Table
table =
    (codes "all", record { hosts = codes "n1" ∷ []; children = codes "VMs" ∷ [] })
    ∷ (codes "VMs", record { hosts = codes "g1" ∷ []; children = [] })
    ∷ []

abbrev played : List Text
played = codes "n1" ∷ codes "g1" ∷ []

abbrev anything : RunScope
anything = record { groups = []; hosts = [] }

plan_default_example :
    (scope : Scope) × (hosts : List Text) × (plan true (some played) table anything
      ≡ accepted scope)
    × (scope.hosts ≡ some hosts)
    × (scope.limit ≡ (if is_empty scope.excluded then none else some (codes "all:!VMs")))
    × ((host : Text)
        → mem host hosts ≡ (mem host played && not (mem host (members table guest_group))))
    × ((host : Text)
        → mem host scope.excluded ≡ (mem host played && mem host (members table guest_group)))
unfolding members mem lookup ◌==◌ subset is_narrowed
plan_default_example = plan_default true played table anything refl refl

machines_only : match_pattern table (codes "all:!VMs") ≡ hosts (codes "n1" ∷ [])
unfolding match_pattern filter strip hosts_of any partition diff union has ◌==◌ members mem lookup
machines_only = refl

mem-match_pattern_example : mem (codes "n1") (codes "n1" ∷ []) ≡ (
    (is_empty (filter is_union (tokens_of (codes "all:!VMs")))
        && mem (codes "n1") (members table root)
      || any (is_named table (codes "n1")) (filter is_union (tokens_of (codes "all:!VMs"))))
    && all (passes_token table (codes "n1")) (tokens_of (codes "all:!VMs")))
mem-match_pattern_example =
    mem-match_pattern table (codes "all:!VMs") (codes "n1" ∷ []) (codes "n1") machines_only

abbrev only_machine : RunScope
only_machine = record { groups = []; hosts = codes "n1" ∷ [] }

abbrev scope_of_machine : Scope
scope_of_machine = record {
  limit = some (codes "n1");
  hosts = some (codes "n1" ∷ []);
  excluded = [];
  requested = only_machine;
}

plan_narrowed_example :
    (hosts : List Text) × (some (codes "n1" ∷ []) ≡ some (sorted hosts))
    × (is_empty hosts ≡ false)
    × ((host : Text)
        → mem host hosts ≡ true
        → IsPlayed (some played) host × IsAsked table only_machine host)
unfolding plan members mem ◌==◌ sorted to_set inter
plan_narrowed_example =
    plan_narrowed true (some played) table only_machine scope_of_machine refl refl
