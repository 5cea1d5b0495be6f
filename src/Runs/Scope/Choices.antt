-- ===== src/Runs/Scope/Choices.antt =====
-- app/runs/scope.py: what a caller may be offered to choose from (`choices`), the scope that a record
-- of an older version carries (`_accept_the_single_choice`), and the order of a group's hosts.
use seapath_webui.Common.{
  Text, codes, ◌==◌, eq_refl, is_empty, All, true, false, ◌||◌, Option, none, some, List, [], ◌∷◌,
  ◌≡◌, refl, ◌∙◌, sym, if◌then◌else◌, arith, Bool-cases, inl, inr,
}
use seapath_webui.Common.Dict.{has, keys, lookup}
use seapath_webui.Common.Names.{mem, sorted, mem-sorted}
use seapath_webui.Inventory.Resolve.{Table, Group, root, members}
use seapath_webui.Runs.Models.{RunScope}
use seapath_webui.Runs.Scope.{guest_group, accepted, group_hosts, host_hosts}

pub record ScopeGroup : Type 0 where
  pub name : Text
  pub hosts : List Text

pub record ScopeChoices : Type 0 where
  pub groups : List ScopeGroup
  pub hosts : List Text
  pub guests : List Text
  pub unreachable : List Text
  pub addressable_guests : List Text

-- The groups offered: neither "all" nor a group without a host.
group_choices : Table → List Text → List ScopeGroup
group_choices table [] = []
group_choices table (name ∷ names) =
    let rest = group_choices table names in
    if name == root || is_empty (sorted (members table name))
    then rest
    else record { name = name; hosts = sorted (members table name) } ∷ rest

unfoldable pub choices : Table → List Text → List Text → ScopeChoices
unfolding group_choices
choices table unreachable addressable_guests = record {
  groups = group_choices table (sorted (keys table));
  hosts = sorted (members table root);
  guests = sorted (members table guest_group);
  unreachable = sorted unreachable;
  addressable_guests = sorted addressable_guests;
}

-- A scope as it is written in a record: two lists, or the single choice of version 0.3.66.
pub record WrittenScope : Type 0 where
  pub kind : Option Text
  pub name : Option Text
  pub groups : List Text
  pub hosts : List Text

as_written : WrittenScope → RunScope
as_written written = record { groups = written.groups; hosts = written.hosts }

single_choice : Text → Option Text → WrittenScope → RunScope
unfolding as_written
single_choice name none written = as_written written
single_choice name (some kind) written =
    if kind == codes "group"
    then record { groups = name ∷ []; hosts = [] }
    else if kind == codes "host"
    then record { groups = []; hosts = name ∷ [] }
    else as_written written

named_choice : Option Text → WrittenScope → RunScope
unfolding as_written single_choice
named_choice none written = as_written written
named_choice (some []) written = as_written written
named_choice (some (c ∷ name)) written = single_choice (c ∷ name) written.kind written

-- RunScope._accept_the_single_choice
unfoldable pub accept_the_single_choice : WrittenScope → RunScope
unfolding named_choice
accept_the_single_choice written = named_choice written.name written

in_order : Option Group → Option (List Text)
in_order none = none
in_order (some group) = if is_empty group.children then some group.hosts else none

-- _ordered
unfoldable pub ordered : Table → Text → Option (List Text)
unfolding in_order
ordered table name = in_order (lookup name table)

mem-keys : (k : Text) (table : Table) → mem k (keys table) ≡ has k table
unfolding mem keys has
mem-keys k [] = refl
mem-keys k ((j, v) ∷ table) = ground (arith, mem-keys k table)

is_empty-sorted : (names : List Text) → is_empty (sorted names) ≡ false → is_empty names ≡ false
unfolding sorted
is_empty-sorted [] h = h
is_empty-sorted (name ∷ names) h = refl

group_choices_sound :
    (table : Table) (names : List Text)
    → ((name : Text) → mem name names ≡ true → has name table ≡ true)
    → All
        (λ group. group_hosts table group.name ≡ accepted (members table group.name))
        (group_choices table names)
unfolding group_choices group_hosts
group_choices_sound table [] declared = tt
group_choices_sound table (name ∷ names) declared =
    let rest = group_choices_sound table names (λ k m. declared k (unfold mem in ground arith)) in
    let there = declared name (unfold mem in ground (arith, eq_refl name)) in
    elim (Bool-cases (name == root || is_empty (sorted (members table name)))) [
      | inl left_out ↦ rw left_out rest
      | inr offered ↦ rw offered (ground (arith, there, is_empty-sorted (members table name)), rest)
    ]

-- Every group and every host that the chooser offers is one that a narrowed run may name: `_group`
-- answers the group's hosts and `_host` the host, and neither refuses.
pub choices_sound :
    (table : Table) (unreachable addressable_guests : List Text)
    → All
        (λ group. group_hosts table group.name ≡ accepted (members table group.name))
        (choices table unreachable addressable_guests).groups
      × ((host : Text)
          → mem host (choices table unreachable addressable_guests).hosts ≡ true
          → host_hosts table host ≡ accepted (host ∷ []))
unfolding choices host_hosts
choices_sound table unreachable addressable_guests = (
  group_choices_sound table (sorted (keys table))
      (λ name m. sym (mem-keys name table) ∙ sym (mem-sorted name (keys table)) ∙ m),
  λ host m. ground (arith, mem-sorted host (members table root)),
)
