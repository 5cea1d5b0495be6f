-- ===== src/Inventory/Resolve.antt =====
-- app/inventory/resolve.py: the hosts of a group. A group's variables are left aside, and its hosts are
-- the names that its mapping holds, in order. The order in which Python gives the names of a set of
-- children is the order of the list.
pub mod Members
use seapath_webui.Common.{
  ℕ, zero, suc, ◌+◌, Text, codes, ◌==◌, length, Bool, true, false, Option, none, some, List, [],
  ◌∷◌, ◌++◌, if◌then◌else◌,
}
use seapath_webui.Common.Dict.{Dict, lookup}
use seapath_webui.Common.Names.{mem, union}

pub record Group : Type 0 where
  pub hosts : List Text
  pub children : List Text

abbrev pub Table : Type 0
Table = Dict Group

abbrev pub root : Text
root = codes "all"

-- The state of the loop of `members`.
pub record Walk : Type 0 where
  pub seen : List Text
  pub hosts : List Text
  pub stack : List Text

unfoldable pub opened : Text → Option Group → Walk → Walk
opened name none walk = walk
opened name (some group) walk = if mem name walk.seen then walk else record {
  seen = name ∷ walk.seen;
  hosts = union walk.hosts group.hosts;
  stack = group.children ++ walk.stack;
}

-- The loop: `none` where the fuel is out before the stack is empty.
unfoldable pub walked : ℕ → Table → List Text → List Text → List Text → Option (List Text)
unfolding opened
walked fuel table seen hosts [] = some hosts
walked zero table seen hosts (name ∷ stack) = none
walked (suc fuel) table seen hosts (name ∷ stack) =
    let walk =
      opened name (lookup name table) (record { seen = seen; hosts = hosts; stack = stack }) in
    walked fuel table walk.seen walk.hosts walk.stack

-- How many names the groups not yet seen can put on the stack.
unfoldable pub unopened : Table → List Text → ℕ
unopened [] seen = 0
unopened ((name, group) ∷ table) seen =
    let rest = unopened table seen in if mem name seen then rest else length group.children + rest

or_nothing : Option (List Text) → List Text
or_nothing none = []
or_nothing (some hosts) = hosts

all_hosts : Table → List Text
unfolding union
all_hosts [] = []
all_hosts ((name, group) ∷ table) = union group.hosts (all_hosts table)

unfoldable pub members : Table → Text → List Text
unfolding walked unopened all_hosts or_nothing
members table name =
    if name == root
    then all_hosts table
    else or_nothing (walked (suc (unopened table [])) table [] [] (name ∷ []))
