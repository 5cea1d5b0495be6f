-- ===== src/Runs/Scope/Default.antt =====
-- What a run plays that is not narrowed.
use seapath_webui.Common.{
  if◌then◌else◌, is_empty, none, codes, Text, Bool, false, not, ◌&&◌, some, List, ◌≡◌, refl, arith,
}
use seapath_webui.Common.Names.{mem, inter, diff, sorted, subset, mem-sorted, mem-inter, mem-diff}
use seapath_webui.Inventory.Resolve.{Table, members}
use seapath_webui.Runs.Models.{RunScope}
use seapath_webui.Runs.Scope.{Scope, guest_group, accepted, is_narrowed, default, plan}

module _ (names_guests : Bool) (played : List Text) (table : Table) (asked : RunScope)
    (open_scope : is_narrowed asked ≡ false)
    (not_at_guests : subset played (members table guest_group) ≡ false) where
  -- A run that is not narrowed, of a playbook whose `hosts:` lines are readable and which plays a machine
  -- that is no guest, is never refused. It plays exactly the hosts of the playbook that are no guests, the
  -- hosts that it says it leaves out are exactly the guests of the playbook, and its limit is
  -- `all:!VMs` where it leaves one out, and none where it does not.
  pub plan_default :
      (scope : Scope) × (hosts : List Text) × (plan names_guests (some played) table asked
        ≡ accepted scope)
      × (scope.hosts ≡ some hosts)
      × (scope.limit ≡ (if is_empty scope.excluded then none else some (codes "all:!VMs")))
      × ((host : Text)
          → mem host hosts ≡ (mem host played && not (mem host (members table guest_group))))
      × ((host : Text)
          → mem host scope.excluded ≡ (mem host played && mem host (members table guest_group)))
  unfolding plan default
  plan_default =
      let guests = members table guest_group in
      (
        default names_guests (some played) guests asked,
        sorted (diff played guests),
        rw open_scope refl,
        ground arith,
        ground arith,
        λ host. ground (arith, mem-sorted host (diff played guests), mem-diff host played guests),
        λ host.
            rw not_at_guests
              (ground (arith, mem-sorted host (inter guests played), mem-inter host guests played)),
      )
