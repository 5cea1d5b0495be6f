-- ===== src/Inventory/Groups.antt =====
-- app/inventory/resolve.py: the groups that an inventory file declares, and the variables that each host
-- gets of them. The file is the tree that the YAML parser gives, whose keys are texts; `shown` is
-- Python's `str` of a value. A scalar stands for any value that is no null, list or mapping.
pub mod Depths
pub mod Winners
pub mod Settled
use seapath_webui.Common.{
  ℕ, zero, suc, ◌+◌, ltb, leb, nat_eq, max, Text, codes, ◌==◌, text_le, length, Bool, true, false,
  ◌&&◌, ◌||◌, Option, none, some, List, [], ◌∷◌, ◌++◌, map, filter, if◌then◌else◌,
}
use seapath_webui.Common.Dict.{Dict, lookup, has, insert, keys}
use seapath_webui.Common.Names.{mem, sorted}
use seapath_webui.Inventory.Resolve.{Group, Table, root, members}

mutual
  pub data Yaml : Type 0 where
    scalar : Text → Yaml
    null : Yaml
    sequence : Items → Yaml
    mapping : Pairs → Yaml

  pub data Items : Type 0 where
    no_items : Items
    item : Yaml → Items → Items

  pub data Pairs : Type 0 where
    no_pairs : Pairs
    pair : Text → Yaml → Pairs → Pairs

abbrev pub Variables : Type 0
Variables = Dict Yaml

-- One group, however the file happened to declare it.
pub record GroupBody : Type 0 where
  pub variables : Variables
  pub hosts : Dict Variables
  pub children : List Text

abbrev pub Groups : Type 0
Groups = Dict GroupBody

abbrev empty_group : GroupBody
empty_group = record { variables = []; hosts = []; children = [] }

-- dict(value) of a mapping
unfoldable pub pairs_of : Pairs → Variables
unfolding insert
pairs_of no_pairs = []
pairs_of (pair name value pairs) = (name, value) ∷ pairs_of pairs

abbrev pub mapping_of : Yaml → Variables
mapping_of (scalar s) = []
mapping_of null = []
mapping_of (sequence items) = []
mapping_of (mapping pairs) = pairs_of pairs

abbrev pub or_null : Option Yaml → Yaml
or_null none = null
or_null (some value) = value

-- d.update(e)
unfoldable pub update : {V : Type 0} → Dict V → Dict V → Dict V
unfolding insert
update d [] = d
update d ((k, v) ∷ e) = update (insert k v d) e

abbrev held_by : {V : Type 0} → Option (Dict V) → Dict V
held_by none = []
held_by (some held) = held

-- The hosts of `hosts:`, each with its variables.
unfoldable pub entries_of : Variables → Dict Variables
unfolding pairs_of
entries_of [] = []
entries_of ((name, value) ∷ rest) = (name, mapping_of value) ∷ entries_of rest

unfoldable pub add_hosts : Dict Variables → Dict Variables → Dict Variables
unfolding update insert lookup
add_hosts held [] = held
add_hosts held ((host, variables) ∷ more) =
    add_hosts (insert host (update (held_by (lookup host held)) variables) held) more

abbrev pub body_of : Option GroupBody → GroupBody
body_of none = empty_group
body_of (some body) = body

-- collected.setdefault(name, Group(name))
abbrev pub group_at : Text → Groups → GroupBody
group_at name groups = body_of (lookup name groups)

unfoldable pub declare : Text → Groups → Groups
unfolding insert lookup
declare name groups = insert name (group_at name groups) groups

unfoldable pub add_child : Text → Text → Groups → Groups
unfolding insert lookup mem
add_child name child groups =
    let group = group_at name groups in
    if mem child (group.children)
    then groups
    else insert name (record group { children = group.children ++ child ∷ [] }) groups

module _ (shown : Yaml → Text) where
  unfoldable pub names_of : Items → List Text
  names_of no_items = []
  names_of (item value items) = shown value ∷ names_of items

  abbrev hosts_of : Yaml → Dict Variables
  hosts_of (scalar s) = []
  hosts_of null = []
  hosts_of (sequence items) = map (λ n. (n, [])) (names_of items)
  hosts_of (mapping pairs) = entries_of (pairs_of pairs)

  unfoldable pub named_children : Text → List Text → Groups → Groups
  unfolding add_child declare
  named_children name [] groups = groups
  named_children name (child ∷ rest) groups =
      named_children name rest (declare child (add_child name child groups))

  -- What a group's mapping says of its variables and its hosts.
  unfoldable pub own_part : Text → Pairs → Groups → Groups
  unfolding pairs_of entries_of update add_hosts insert lookup names_of
  own_part name pairs groups =
      let group = group_at name groups in
      let body = pairs_of pairs in
      insert name
        (record group {
          variables = update (group.variables) (mapping_of (or_null (lookup (codes "vars") body)));
          hosts = add_hosts (group.hosts) (hosts_of (or_null (lookup (codes "hosts") body)));
        })
        groups

  unfoldable mutual
    unfolding own_part named_children declare add_child names_of

    pub define : Text → Yaml → Groups → Groups
    define name (scalar s) groups = declare name groups
    define name null groups = declare name groups
    define name (sequence items) groups = declare name groups
    define name (mapping pairs) groups = define_children name pairs (own_part name pairs groups)

    -- The value under `children`, walked to.
    pub define_children : Text → Pairs → Groups → Groups
    define_children name no_pairs groups = groups
    define_children name (pair key value pairs) groups =
        let others = define_children name pairs groups in
        let these = define_among name value groups in
        if key == codes "children" then these else others

    pub define_among : Text → Yaml → Groups → Groups
    define_among name (scalar s) groups = groups
    define_among name null groups = groups
    define_among name (sequence items) groups = named_children name (names_of items) groups
    define_among name (mapping pairs) groups = define_each name pairs groups

    pub define_each : Text → Pairs → Groups → Groups
    define_each name no_pairs groups = groups
    define_each name (pair child body pairs) groups =
        define_each name pairs (define child body (add_child name child groups))

  unfoldable pub define_all : Pairs → Groups → Groups
  unfolding define
  define_all no_pairs groups = groups
  define_all (pair name body pairs) groups = define_all pairs (define name body groups)

  -- Every group the file declares, merged across both declaration shapes.
  unfoldable pub groups : Pairs → Groups
  unfolding define_all declare
  groups document = declare root (define_all document [])

-- The names of a group's hosts and children, which is what `members` reads.
unfoldable pub outline : Groups → Table
unfolding keys
outline [] = []
outline ((name, group) ∷ groups) =
    (name, record { hosts = keys (group.hosts); children = group.children }) ∷ outline groups
