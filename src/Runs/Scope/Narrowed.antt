-- ===== src/Runs/Scope/Narrowed.antt =====
-- What a run plays that is narrowed to some groups and hosts.
use seapath_webui.Common.{
  Text, ◌==◌, eq_iff, eq_refl, is_empty, Bool, true, false, Option, none, some, List, [], ◌∷◌, ◌≡◌,
  ◌⊎◌, inl, inr, refl, sym, arith, Bool-cases,
}
use seapath_webui.Common.Dict.{has}
use seapath_webui.Common.Names.{
  mem, union, to_set, sorted, mem-sorted, mem-to_set, mem-union, mem-inter,
}
use seapath_webui.Inventory.Resolve.{Table, root, members}
use seapath_webui.Runs.Models.{RunScope}
use seapath_webui.Runs.Scope.{
  Scope, Checked, accepted, refused, is_narrowed, group_hosts, host_hosts, selecting, settled, plan,
  and_then, narrow,
}

-- A host that one of the names stands for.
abbrev OfNames : (Text → Checked (List Text)) → List Text → Text → Type 0
OfNames hosts_of names host =
    (name : Text) × (hosts : List Text) × (mem name names ≡ true)
    × (hosts_of name ≡ accepted hosts)
    × (mem host hosts ≡ true)

selecting_sound :
    (hosts_of : Text → Checked (List Text)) (names selected out : List Text) (host : Text)
    → selecting hosts_of names selected ≡ accepted out
    → mem host out ≡ true
    → (mem host selected ≡ true) ⊎ OfNames hosts_of names host
unfolding selecting
selecting_sound hosts_of [] selected out host e m = inl (ground (arith, e))
selecting_sound hosts_of (name ∷ names) selected out host e m =
    from (hosts_of name) refl e
      (λ hosts k. selecting_sound hosts_of names (union selected hosts) out host k m)
  where
    from :
        (answer : Checked (List Text))
        → hosts_of name ≡ answer
        → and_then answer (λ hosts. selecting hosts_of names (union selected hosts)) ≡ accepted out
        → ((hosts : List Text)
            → selecting hosts_of names (union selected hosts) ≡ accepted out
            → (mem host (union selected hosts) ≡ true) ⊎ OfNames hosts_of names host)
        → (mem host selected ≡ true) ⊎ OfNames hosts_of (name ∷ names) host
    from (refused why) a k rest = cc
    from (accepted hosts) a k rest = elim (rest hosts k) [
      | inl h ↦ elim (Bool-cases (mem host selected)) [
        | inl there ↦ inl there
        | inr absent ↦ inr (
          name,
          hosts,
          unfold mem in ground (arith, eq_refl name),
          a,
          ground (arith, mem-union host selected hosts),
        )
      ]
      | inr (n, hs, there, answer, h) ↦ inr (n, hs, unfold mem in ground arith, answer, h)
    ]

settled_sound :
    (asked : RunScope) (narrowed : List Text) (scope : Scope)
    → settled asked narrowed ≡ accepted scope
    → (is_empty narrowed ≡ false) × (scope.hosts ≡ some (sorted narrowed))
unfolding settled
settled_sound asked narrowed scope e = (ground arith, ground arith)

-- Whether a playbook plays a host, where that can be read.
abbrev pub IsPlayed : Option (List Text) → Text → Type 0
IsPlayed none host = Unit
IsPlayed (some played) host = mem host played ≡ true

narrow_sound :
    (played : Option (List Text)) (selected : List Text) (host : Text)
    → mem host (narrow played selected) ≡ true
    → (mem host selected ≡ true) × IsPlayed played host
unfolding narrow
narrow_sound none selected host m = (m, tt)
narrow_sound (some played) selected host m =
    (ground (arith, mem-inter host selected played), ground (arith, mem-inter host selected played))

group_hosts_sound :
    (table : Table) (name : Text) (hosts : List Text)
    → group_hosts table name ≡ accepted hosts
    → (has name table ≡ true) × (members table name ≡ hosts)
unfolding group_hosts
group_hosts_sound table name hosts e = (ground arith, ground arith)

host_hosts_sound :
    (table : Table) (name : Text) (hosts : List Text) (host : Text)
    → host_hosts table name ≡ accepted hosts
    → mem host hosts ≡ true
    → (host ≡ name) × (mem name (members table root) ≡ true)
unfolding host_hosts
host_hosts_sound table name hosts host e m = elim (Bool-cases (mem name (members table root))) [
  | inl there ↦
      let same : name ∷ [] ≡ hosts = ground arith in
      (sym ((eq_iff name host).0 (only (rw (sym same) at m))), there)
  | inr absent ↦ absurd (ground arith)
]
  where
    only : mem host (name ∷ []) ≡ true → (name == host) ≡ true
    only h = unfold mem in ground (arith, h)

-- A host that the caller asked for, by a group of the inventory or by its own name.
abbrev pub IsAsked : Table → RunScope → Text → Type 0
IsAsked table asked host =
    ((group : Text) × (mem group asked.groups ≡ true)
      × (has group table ≡ true)
      × (mem host (members table group) ≡ true))
    ⊎ ((mem host asked.hosts ≡ true) × (mem host (members table root) ≡ true))

module _ (table : Table) (asked : RunScope) (host : Text) where
  IsAsked-group :
      OfNames (group_hosts table) (sorted (to_set asked.groups)) host → IsAsked table asked host
  IsAsked-group (name, hosts, m, e, h) =
      let (declared, same) = group_hosts_sound table name hosts e in
      inl (
        name,
        ground (arith, mem-sorted name (to_set asked.groups), mem-to_set name asked.groups),
        declared,
        rw same h,
      )

  IsAsked-host :
      OfNames (host_hosts table) (sorted (to_set asked.hosts)) host → IsAsked table asked host
  IsAsked-host (name, hosts, m, e, h) =
      let (same, declared) = host_hosts_sound table name hosts host e h in
      inr (
        rw same (ground (arith, mem-sorted name (to_set asked.hosts), mem-to_set name asked.hosts)),
        rw same declared,
      )

  selected-IsAsked :
      (of_groups selected : List Text)
      → selecting (group_hosts table) (sorted (to_set asked.groups)) [] ≡ accepted of_groups
      → selecting (host_hosts table) (sorted (to_set asked.hosts)) of_groups ≡ accepted selected
      → mem host selected ≡ true
      → IsAsked table asked host
  selected-IsAsked of_groups selected g h m =
      elim (selecting_sound _ _ of_groups selected host h m) [
        | inl grouped ↦ elim (selecting_sound _ _ [] of_groups host g grouped) [
          | inl nothing ↦ absurd (unfold mem in cc nothing)
          | inr of ↦ IsAsked-group of
        ]
        | inr of ↦ IsAsked-host of
      ]

-- A narrowed run that is accepted plays at least one host, and each host that it plays is one that the
-- playbook plays, where that can be read, and that was asked for: it is of a group of the inventory
-- that was named, or a host of the inventory that was.
pub plan_narrowed :
    (names_guests : Bool) (played : Option (List Text)) (table : Table) (asked : RunScope)
    (scope : Scope)
    → is_narrowed asked ≡ true
    → plan names_guests played table asked ≡ accepted scope
    → (hosts : List Text) × (scope.hosts ≡ some (sorted hosts))
      × (is_empty hosts ≡ false)
      × ((host : Text) → mem host hosts ≡ true → IsPlayed played host × IsAsked table asked host)
unfolding plan
plan_narrowed names_guests played table asked scope narrowed e =
    groups (selecting (group_hosts table) (sorted (to_set asked.groups)) []) refl (rw narrowed at e)
  where
    Conclusion : Type 0
    Conclusion =
        (hosts : List Text) × (scope.hosts ≡ some (sorted hosts))
        × (is_empty hosts ≡ false)
        × ((host : Text) → mem host hosts ≡ true → IsPlayed played host × IsAsked table asked host)

    finish :
        (of_groups : List Text)
        → selecting (group_hosts table) (sorted (to_set asked.groups)) [] ≡ accepted of_groups
        → (answer : Checked (List Text))
        → selecting (host_hosts table) (sorted (to_set asked.hosts)) of_groups ≡ answer
        → and_then answer (λ selected. settled asked (narrow played selected)) ≡ accepted scope
        → Conclusion
    finish of_groups g (refused why) h k = cc
    finish of_groups g (accepted selected) h k =
        let (some_host, hosts) = settled_sound asked (narrow played selected) scope k in
        (
          narrow played selected,
          hosts,
          some_host,
          λ host m.
              let (picked, plays) = narrow_sound played selected host m in
              (plays, selected-IsAsked table asked host of_groups selected g h picked),
        )

    groups :
        (answer : Checked (List Text))
        → selecting (group_hosts table) (sorted (to_set asked.groups)) [] ≡ answer
        → and_then answer (λ of_groups.
          and_then
            (selecting (host_hosts table) (sorted (to_set asked.hosts)) of_groups)
            (λ selected. settled asked (narrow played selected)))
          ≡ accepted scope
        → Conclusion
    groups (refused why) g k = cc
    groups (accepted of_groups) g k = finish of_groups g _ refl k
