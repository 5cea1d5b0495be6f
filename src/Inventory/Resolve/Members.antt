-- ===== src/Inventory/Resolve/Members.antt =====
-- `members` ends, and answers exactly the hosts below a group.
use seapath_webui.Common.{
  ℕ, zero, suc, ◌+◌, ◌≤◌, Text, ◌==◌, eq_iff, eq_refl, length, length-append, true, false, ◌||◌,
  Option, none, some, List, [], ◌∷◌, ◌++◌, ◌≡◌, ◌⊎◌, ◌↔◌, inl, inr, refl, sym, subst, arith,
  Bool-cases,
}
use seapath_webui.Common.Dict.{lookup}
use seapath_webui.Common.Names.{mem, union, mem-append, mem-union}
use seapath_webui.Inventory.Resolve.{
  Group, Table, root, opened, walked, unopened, or_nothing, all_hosts, members,
}

-- A host is below a group that holds it, and below a group with a child that it is below.
pub data Below (table : Table) (host : Text) : Text → Type 0 where
  held :
      (name : Text) (group : Group)
      → lookup name table ≡ some group
      → mem host group.hosts ≡ true
      → Below table host name
  through :
      (name child : Text) (group : Group)
      → lookup name table ≡ some group
      → mem child group.children ≡ true
      → Below table host child
      → Below table host name

unopened_less :
    (table : Table) (name : Text) (seen : List Text)
    → unopened table (name ∷ seen) ≤ unopened table seen
unfolding unopened mem
unopened_less [] name seen = omega arith
unopened_less ((k, group) ∷ table) name seen = ground (arith, unopened_less table name seen)

unopened-opened :
    (table : Table) (name : Text) (seen : List Text) (group : Group)
    → lookup name table ≡ some group
    → mem name seen ≡ false
    → length group.children + unopened table (name ∷ seen) ≤ unopened table seen
unfolding unopened mem lookup
unopened-opened [] name seen group here new = absurd (ground arith)
unopened-opened ((k, first) ∷ table) name seen group here new = elim (Bool-cases (k == name)) [
  | inl same ↦ ground (arith, unopened_less table name seen, eq_iff k name, eq_refl name)
  | inr other ↦ ground (arith, unopened-opened table name seen group)
]

-- A round of the loop uses up one unit of fuel at least.
opened-less :
    (table : Table) (name : Text) (seen hosts stack : List Text) (o : Option Group)
    → lookup name table ≡ o
    → let walk = opened name o (record { seen = seen; hosts = hosts; stack = stack }) in
      length walk.stack + unopened table walk.seen ≤ length stack + unopened table seen
unfolding opened
opened-less table name seen hosts stack none e = omega arith
opened-less table name seen hosts stack (some group) e = elim (Bool-cases (mem name seen)) [
  | inl old ↦ rw old (omega arith)
  | inr new ↦
      let fewer = unopened-opened table name seen group e new in
      let pushed = length-append group.children stack in rw new (omega (arith, fewer, pushed))
]

walked_enough :
    (fuel : ℕ) (table : Table) (seen hosts stack : List Text)
    → length stack + unopened table seen ≤ fuel
    → (out : List Text) × (walked fuel table seen hosts stack ≡ some out)
unfolding walked
walked_enough fuel table seen hosts [] enough = (hosts, refl)
walked_enough zero table seen hosts (name ∷ stack) enough = absurd (omega (arith, enough))
walked_enough (suc fuel) table seen hosts (name ∷ stack) enough =
    let less = opened-less table name seen hosts stack (lookup name table) refl in
    let walk =
      opened name (lookup name table) (record { seen = seen; hosts = hosts; stack = stack }) in
    walked_enough fuel table walk.seen walk.hosts walk.stack (omega (arith, less, enough))

-- Of a host answered, where it comes from.
abbrev From : Table → Text → List Text → List Text → Type 0
From table host hosts stack =
    (mem host hosts ≡ true) ⊎ ((name : Text) × (mem name stack ≡ true) × Below table host name)

opened_sound :
    (table : Table) (name host : Text) (seen hosts stack : List Text) (o : Option Group)
    → lookup name table ≡ o
    → let walk = opened name o (record { seen = seen; hosts = hosts; stack = stack }) in
      From table host walk.hosts walk.stack → From table host hosts (name ∷ stack)
unfolding opened mem
opened_sound table name host seen hosts stack none e (inl h) = inl h
opened_sound table name host seen hosts stack none e (inr (start, m, below)) =
    inr (start, ground arith, below)
opened_sound table name host seen hosts stack (some group) e from =
    elim (Bool-cases (mem name seen)) [
      | inl old ↦ again (rw old at from)
      | inr new ↦ pushed (rw new at from)
    ]
  where
    again : From table host hosts stack → From table host hosts (name ∷ stack)
    again (inl h) = inl h
    again (inr (start, m, below)) = inr (start, ground arith, below)

    pushed :
        From table host (union hosts group.hosts) (group.children ++ stack)
        → From table host hosts (name ∷ stack)
    pushed (inl h) = elim (Bool-cases (mem host hosts)) [
      | inl there ↦ inl there
      | inr absent ↦ inr (
        name,
        ground (arith, eq_refl name),
        held name group e (ground (arith, mem-union host hosts group.hosts)),
      )
    ]
    pushed (inr (start, m, below)) = elim (Bool-cases (mem start stack)) [
      | inl waiting ↦ inr (start, ground arith, below)
      | inr child ↦ inr (
        name,
        ground (arith, eq_refl name),
        through name start group e (ground (arith, mem-append start group.children stack)) below,
      )
    ]

walked_sound :
    (fuel : ℕ) (table : Table) (host : Text) (seen hosts stack out : List Text)
    → walked fuel table seen hosts stack ≡ some out
    → mem host out ≡ true
    → From table host hosts stack
unfolding walked
walked_sound fuel table host seen hosts [] out e m = inl (ground (arith, e))
walked_sound zero table host seen hosts (name ∷ stack) out e m = cc
walked_sound (suc fuel) table host seen hosts (name ∷ stack) out e m =
    let walk =
      opened name (lookup name table) (record { seen = seen; hosts = hosts; stack = stack }) in
    opened_sound table name host seen hosts stack (lookup name table) refl
      (walked_sound fuel table host walk.seen walk.hosts walk.stack out e m)

-- What has been opened is answered for, and the children of it are opened or wait.
record IsClosed (table : Table) (seen hosts stack : List Text) : Type 0 where
  holds :
      (name host : Text) (group : Group)
      → mem name seen ≡ true
      → lookup name table ≡ some group
      → mem host group.hosts ≡ true
      → mem host hosts ≡ true
  follows :
      (name child : Text) (group below : Group)
      → mem name seen ≡ true
      → lookup name table ≡ some group
      → mem child group.children ≡ true
      → lookup child table ≡ some below
      → (mem child seen || mem child stack) ≡ true

opened-IsClosed :
    (table : Table) (name : Text) (seen hosts stack : List Text) (o : Option Group)
    → lookup name table ≡ o
    → IsClosed table seen hosts (name ∷ stack)
    → let walk = opened name o (record { seen = seen; hosts = hosts; stack = stack }) in
      IsClosed table walk.seen walk.hosts walk.stack
unfolding opened mem
opened-IsClosed table name seen hosts stack none e closed = record {
  holds = closed.holds;
  follows = λ n child group below m l c b. elim (Bool-cases (name == child)) [
    | inl same ↦ ground (arith, eq_iff name child)
    | inr other ↦ rw other at (closed.follows n child group below m l c b)
  ];
}
opened-IsClosed table name seen hosts stack (some group) e closed =
    elim (Bool-cases (mem name seen)) [
      | inl old ↦ rw old (record {
        holds = closed.holds;
        follows = λ n child g below m l c b. elim (Bool-cases (name == child)) [
          | inl same ↦ ground (arith, eq_iff name child)
          | inr other ↦ rw other at (closed.follows n child g below m l c b)
        ];
      })
      | inr new ↦ rw new (record {
        holds = λ n host g m l h. elim (Bool-cases (name == n)) [
          | inl same ↦ ground (arith, eq_iff name n, mem-union host hosts group.hosts)
          | inr other ↦
              let kept = closed.holds n host g (rw other at m) l h in
              ground (arith, mem-union host hosts group.hosts)
        ];
        follows = λ n child g below m l c b. elim (Bool-cases (name == n)) [
          | inl same ↦ ground (arith, eq_iff name n, mem-append child group.children stack)
          | inr other ↦
              let kept = closed.follows n child g below (rw other at m) l c b in
              ground (arith, mem-append child group.children stack)
        ];
      })
    ]

-- What the loop leaves when the stack is empty.
record Finished (table : Table) (seen stack out : List Text) : Type 0 where
  visited : List Text
  closed : IsClosed table visited out []
  reached :
      (name : Text) (group : Group)
      → (mem name seen || mem name stack) ≡ true
      → lookup name table ≡ some group
      → mem name visited ≡ true

opened_reached :
    (table : Table) (name : Text) (seen hosts stack : List Text) (o : Option Group)
    → lookup name table ≡ o
    → let walk = opened name o (record { seen = seen; hosts = hosts; stack = stack }) in
      (k : Text) (group : Group)
      → (mem k seen || mem k (name ∷ stack)) ≡ true
      → lookup k table ≡ some group
      → (mem k walk.seen || mem k walk.stack) ≡ true
unfolding opened mem
opened_reached table name seen hosts stack none e k group m l = ground (arith, eq_iff name k)
opened_reached table name seen hosts stack (some first) e k group m l =
    elim (Bool-cases (name == k)) [
      | inl same ↦ ground (arith, eq_iff name k)
      | inr other ↦ ground (arith, mem-append k first.children stack)
    ]

walked-Finished :
    (fuel : ℕ) (table : Table) (seen hosts stack out : List Text)
    → walked fuel table seen hosts stack ≡ some out
    → IsClosed table seen hosts stack
    → Finished table seen stack out
unfolding walked
walked-Finished fuel table seen hosts [] out e closed = record {
  visited = seen;
  closed = subst (λ h. IsClosed table seen h []) (some-injective e) closed;
  reached = λ name group m l. unfold mem in ground arith;
}
  where
    some-injective : some hosts ≡ some out → hosts ≡ out
    some-injective h = cc
walked-Finished zero table seen hosts (name ∷ stack) out e closed = absurd (clash e)
  where
    clash : none ≡ some out → ⊥
    clash h = cc
walked-Finished (suc fuel) table seen hosts (name ∷ stack) out e closed =
    let walk =
      opened name (lookup name table) (record { seen = seen; hosts = hosts; stack = stack }) in
    let rest =
      walked-Finished fuel table walk.seen walk.hosts walk.stack out e
        (opened-IsClosed table name seen hosts stack (lookup name table) refl closed) in
    record {
      visited = rest.visited;
      closed = rest.closed;
      reached = λ k group m l.
          rest.reached k group
            (opened_reached table name seen hosts stack (lookup name table) refl k group m l) l;
    }

Below-declared :
    (table : Table) (host name : Text)
    → Below table host name
    → (group : Group) × (lookup name table ≡ some group)
Below-declared table host _ (held name group l m) = (group, l)
Below-declared table host _ (through name child group l m below) = (group, l)

closed_complete :
    (table : Table) (host name : Text) (visited out : List Text)
    → IsClosed table visited out []
    → Below table host name
    → mem name visited ≡ true
    → mem host out ≡ true
closed_complete table host _ visited out closed (held name group l m) v =
    closed.holds name host group v l m
closed_complete table host _ visited out closed (through name child group l m below) v =
    let (further, there) = Below-declared table host child below in
    closed_complete table host child visited out closed below
      (unfold mem in ground (arith, closed.follows name child group further v l m there))

IsClosed-start : (table : Table) (stack : List Text) → IsClosed table [] [] stack
IsClosed-start table stack = record {
  holds = λ name host group m l h. absurd (unfold mem in cc m);
  follows = λ name child group below m l c b. absurd (unfold mem in cc m);
}

mem-all_hosts :
    (table : Table) (name host : Text) (group : Group)
    → lookup name table ≡ some group
    → mem host group.hosts ≡ true
    → mem host (all_hosts table) ≡ true
unfolding all_hosts lookup
mem-all_hosts [] name host group l h = absurd (ground arith)
mem-all_hosts ((k, first) ∷ table) name host group l h = elim (Bool-cases (k == name)) [
  | inl same ↦ ground (arith, mem-union host first.hosts (all_hosts table))
  | inr other ↦
      ground
        (arith, mem-all_hosts table name host group, mem-union host first.hosts (all_hosts table))
]

module _ (table : Table) (name : Text) (below_root : (name == root) ≡ false) where
  -- `members` of a group other than "all" ends, whatever cycles the children make, and answers a host
  -- exactly when the host is in that group or in one that its children lead to.
  pub members-Below : (host : Text) → (mem host (members table name) ≡ true) ↔ Below table host name
  unfolding members or_nothing
  members-Below host =
      let (out, ended) =
        walked_enough (suc (unopened table [])) table [] [] (name ∷ []) (omega arith) in
      rw (below_root, ended)
        (
          λ m.
              elim (walked_sound (suc (unopened table [])) table host [] [] (name ∷ []) out ended
                m) [
                  | inl h ↦ absurd (unfold mem in cc h)
                  | inr (start, s, below) ↦ only start s below
                ],
          λ below.
              let finished =
                walked-Finished (suc (unopened table [])) table [] [] (name ∷ []) out ended
                  (IsClosed-start table (name ∷ [])) in
              let (group, there) = Below-declared table host name below in
              closed_complete table host name finished.visited out finished.closed below
                (finished.reached name group (unfold mem in ground (arith, eq_refl name)) there),
        )
    where
      only :
          (start : Text)
          → mem start (name ∷ []) ≡ true
          → Below table host start
          → Below table host name
      only start s below =
          let same : name ≡ start = unfold mem in ground (arith, eq_iff name start) in
          subst (Below table host) (sym same) below

  -- A host of any group is a host of "all".
  pub mem-members :
      (host : Text) → mem host (members table name) ≡ true → mem host (members table root) ≡ true
  mem-members host m = unfold members in rw (eq_refl root) (from ((members-Below host).0 m))
    where
      from : {name : Text} → Below table host name → mem host (all_hosts table) ≡ true
      from (held name group l h) = mem-all_hosts table name host group l h
      from (through name child group l c below) = from below
