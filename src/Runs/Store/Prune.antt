-- ===== src/Runs/Store/Prune.antt =====
-- Which directories `prune` deletes.
use seapath_webui.Common.{
  Bool, Text, ◌==◌, eq_iff, eq_refl, ◌⊎◌, drop, nat_eq, true, false, not, ◌&&◌, none, some, List,
  [], ◌∷◌, ◌≡◌, ap, refl, if◌then◌else◌, arith, Bool-cases, inl, inr, Option,
}
use seapath_webui.Common.Dict.{lookup, lookup-remove, lookup-insert}
use seapath_webui.Common.Names.{mem}
use seapath_webui.Runs.Models.{RunRecord, is_going}
use seapath_webui.Runs.Store.{
  Store, Removal, deleted, record_lost, left_alone, rmtree, load, newest, lock_holder, prunable,
  prune_names, prune, going_record, same_holder,
}

-- What is found under a name once its directory has been given to `rmtree`.
abbrev pub fated : Removal → Option (Option RunRecord) → Option (Option RunRecord)
fated deleted found = none
fated record_lost found = some none
fated left_alone found = found

lookup-rmtree :
    (fate : Removal) (name k : Text) (store : Store)
    → lookup k (rmtree fate name store).runs
      ≡ (if name == k then fated fate (lookup k store.runs) else lookup k store.runs)
unfolding rmtree
lookup-rmtree deleted name k store = ground (arith, lookup-remove name k store.runs)
lookup-rmtree record_lost name k store = ground (arith, lookup-insert name k none store.runs)
lookup-rmtree left_alone name k store = ground arith

same-rmtree :
    (fate : Removal) (name : Text) (store : Store)
    → ((rmtree fate name store).lock ≡ store.lock)
      × ((rmtree fate name store).kept ≡ store.kept)
      × ((rmtree fate name store).removal ≡ store.removal)
      × ((rmtree fate name store).refusal ≡ store.refusal)
unfolding rmtree
same-rmtree deleted name store = (refl, refl, refl, refl)
same-rmtree record_lost name store = (refl, refl, refl, refl)
same-rmtree left_alone name store = (refl, refl, refl, refl)

-- The deletion of one directory changes the verdict on no other.
prunable-rmtree :
    (fate : Removal) (store : Store) (name k : Text)
    → (name == k) ≡ false
    → prunable (rmtree fate name store) k ≡ prunable store k
unfolding prunable load lock_holder
prunable-rmtree fate store name k other =
    rw (lookup-rmtree fate name k store, other, (same-rmtree fate name store).0) refl

fated_twice :
    (fate : Removal) (found : Option (Option RunRecord))
    → fated fate (fated fate found) ≡ fated fate found
fated_twice deleted found = refl
fated_twice record_lost found = refl
fated_twice left_alone found = refl

lookup-prune_names :
    (names : List Text) (store : Store) (k : Text)
    → lookup k (prune_names names store).1.runs ≡ (
        if mem k names && prunable store k
        then fated (store.removal k) (lookup k store.runs)
        else lookup k store.runs)
unfolding prune_names mem
lookup-prune_names [] store k = refl
lookup-prune_names (name ∷ names) store k =
    let fate = store.removal name in
    let less = rmtree fate name store in
    let kept = ap (λ r. r k) ((same-rmtree fate name store).2) in
    elim (Bool-cases (name == k)) [
      | inl same ↦
          let e = (eq_iff name k).0 same in
          ground (
            arith,
            lookup-prune_names names store k,
            lookup-prune_names names less k,
            lookup-rmtree fate name k store,
            kept,
            ap store.removal e,
            fated_twice fate (lookup k store.runs),
            ap (prunable store) e,
          )
      | inr other ↦ ground (
        arith,
        lookup-prune_names names store k,
        lookup-prune_names names less k,
        kept,
        prunable-rmtree fate store name k other,
        lookup-rmtree fate name k store,
      )
    ]

fated-prune :
    (store : Store) (k : Text)
    → lookup k (prune store).1.runs ≡ (
        if not (nat_eq store.kept 0) && mem k (drop store.kept (newest store)) && prunable store k
        then fated (store.removal k) (lookup k store.runs)
        else lookup k store.runs)
unfolding prune
fated-prune store k = ground (arith, lookup-prune_names (drop store.kept (newest store)) store k)

-- The name is in the lock.
abbrev pub named_by : Text → Option Text → Bool
named_by name none = false
named_by name (some holder) = holder == name

-- There is a record, of a run that is pending or running.
abbrev pub at_work : Option RunRecord → Bool
at_work none = false
at_work (some run) = is_going run.state

same_holder-named_by : (name : Text) (o : Option Text) → same_holder name o ≡ named_by name o
unfolding same_holder
same_holder-named_by name none = refl
same_holder-named_by name (some holder) = ground (arith, eq_iff name holder, eq_iff holder name)

going_record-at_work : (o : Option RunRecord) → going_record o ≡ at_work o
unfolding going_record
going_record-at_work none = refl
going_record-at_work (some run) = refl

-- After `prune` a name is looked up as before, unless the store keeps a limited number of runs, the name
-- is beyond the newest that it keeps, it is not in the lock, and it has no record of a pending or running
-- run: then nothing is under it, or what a failed `rmtree` leaves, a directory without its record or the
-- directory as it was.
pub lookup-prune :
    (store : Store) (k : Text)
    → lookup k (prune store).1.runs ≡ (
        if not (nat_eq store.kept 0)
          && mem k (drop store.kept (newest store))
          && not (named_by k (lock_holder store))
          && not (at_work (load k store))
        then fated (store.removal k) (lookup k store.runs)
        else lookup k store.runs)
unfolding prunable
lookup-prune store k =
    let holder = same_holder-named_by k (lock_holder store) in
    let going = going_record-at_work (load k store) in
    ground (arith, fated-prune store k, holder, going)

-- `prune` deletes neither the run that holds the lock nor a run that is pending or running.
pub prune_spares :
    (store : Store) (k : Text) (run : RunRecord)
    → load k store ≡ some run
    → (lock_holder store ≡ some k) ⊎ (is_going run.state ≡ true)
    → load k (prune store).1 ≡ some run
unfolding load
prune_spares store k run here spared = elim (Bool-cases (prunable store k)) [
  | inl gone ↦ absurd (doomed gone)
  | inr stays ↦ rw (fated-prune store k) (ground arith)
]
  where
    doomed : prunable store k ≡ true → ⊥
    doomed gone = unfold prunable going_record same_holder load in ground (arith, eq_refl k)

-- What else the store records is left alone.
pub lock-prune_names :
    (names : List Text) (store : Store)
    → ((prune_names names store).1.lock ≡ store.lock)
      × ((prune_names names store).1.refusal ≡ store.refusal)
unfolding prune_names
lock-prune_names [] store = (refl, refl)
lock-prune_names (name ∷ names) store =
    let less = rmtree (store.removal name) name store in
    ground (
      arith,
      lock-prune_names names store,
      lock-prune_names names less,
      same-rmtree (store.removal name) name store,
    )

pub lock-prune : (store : Store) → (prune store).1.lock ≡ store.lock
unfolding prune
lock-prune store = ground (arith, lock-prune_names (drop store.kept (newest store)) store)

-- `prune` brings no record in.
pub load-prune :
    (store : Store) (k : Text) (run : RunRecord)
    → load k (prune store).1 ≡ some run
    → load k store ≡ some run
unfolding load
load-prune store k run h = ground (arith, fated-prune store k)

pub refusal-prune : (store : Store) → (prune store).1.refusal ≡ store.refusal
unfolding prune
refusal-prune store = ground (arith, lock-prune_names (drop store.kept (newest store)) store)
