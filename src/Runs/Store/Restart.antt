-- ===== src/Runs/Store/Restart.antt =====
-- A start closes every run: what `reconcile` leaves on disk.
use seapath_webui.Common.{
  Option, ℕ, ◌≤◌, Text, eq_iff, length, All, Bool, true, false, none, some, List, [], ◌∷◌, ◌++◌,
  map, ◌≡◌, ◌∙◌, sym, subst, inl, inr, refl, take_all, arith, Bool-cases, Option-cases,
}
use seapath_webui.Common.Dict.{has, lookup-has_not, keys}
use seapath_webui.Common.Names.{mem}
use seapath_webui.Runs.Models.{RunRecord}
use seapath_webui.Runs.Store.{
  Store, StartFaults, unlink_lock, compact_all, load, newest, list, prune, reconcile_records,
  reconcile,
}
use seapath_webui.Runs.Store.Prune.{load-prune, lock-prune}
use seapath_webui.Runs.Store.Listing.{readable, list-take, IsNamed, mem-newest, mem-readable}
use seapath_webui.Runs.Store.Reconcile.{IsSettled, Awaits, Round, reconcile_one_lem, Awaits-rounds}

Awaits-readable :
    (store : Store) (names : List Text)
    → IsNamed store
    → ((k : Text) → store.refusal k ≡ none)
    → All (Awaits store) (readable store names)
unfolding readable
Awaits-readable store [] named willing = tt
Awaits-readable store (name ∷ names) named willing = elim (Option-cases (load name store)) [
  | inl unread ↦ rw unread (Awaits-readable store names named willing)
  | inr (run, there) ↦
      let here : load run.id store ≡ some run =
        subst (λ k. load k store ≡ some run) (sym (named name run there)) there in
      rw there ((run, here, inl refl, willing run.id), Awaits-readable store names named willing)
]

has-load :
    (store : Store) (k : Text) (run : RunRecord) → load k store ≡ some run → has k store.runs ≡ true
unfolding load
has-load store k run h = ground (arith, lookup-has_not k store.runs)

mem-readable-newest :
    (store : Store) (k : Text) (run : RunRecord)
    → IsNamed store
    → load k store ≡ some run
    → mem k (map (λ r. r.id) (readable store (newest store))) ≡ true
mem-readable-newest store k run named here =
    mem-readable store k run (newest store) here (named k run here)
      (mem-newest store k ∙ has-load store k run here)

compact_all_lem :
    (compacting : Text → Option Text) (names : List Text) (store : Store)
    → ((k : Text) → compacting k ≡ none)
    → compact_all compacting names store ≡ some store
unfolding compact_all
compact_all_lem compacting [] store healthy = refl
compact_all_lem compacting (name ∷ names) store healthy =
    rw (healthy name) (compact_all_lem compacting names store healthy)

module _ (replaces : Text → Bool) (now : ℕ) where
  -- The whole loop: every record that it visits is settled, and no other is touched.
  record Rounds (runs : List RunRecord) (store : Store) : Type 0 where
    recovered : List RunRecord
    after : Store
    result : reconcile_records replaces now runs store ≡ some (recovered, after)
    visited :
        (k : Text) (run : RunRecord)
        → mem k (map (λ r. r.id) runs) ≡ true
        → load k after ≡ some run
        → IsSettled run
    elsewhere : (k : Text) → mem k (map (λ r. r.id) runs) ≡ false → load k after ≡ load k store

  visited_again :
      (run : RunRecord) (runs : List RunRecord) (store : Store)
      (first : Round replaces now run store) (rest : Rounds runs first.after) (k : Text)
      (last : RunRecord)
      → mem k (map (λ r. r.id) (run ∷ runs)) ≡ true
      → load k rest.after ≡ some last
      → IsSettled last
  unfolding mem
  visited_again run runs store first rest k last m e =
      elim (Bool-cases (mem k (map (λ r. r.id) runs))) [
        | inl again ↦ rest.visited k last again e
        | inr never ↦
            let there = sym (rest.elsewhere k never) ∙ e in
            let same = (eq_iff run.id k).0 (ground arith) in
            let held : load run.id first.after ≡ some last = simp same there in
            let one : first.held ≡ last = cc (first.here, held) in subst IsSettled one first.settled
      ]

  reconcile_records_lem :
      (runs : List RunRecord) (store : Store) → All (Awaits store) runs → Rounds runs store
  unfolding reconcile_records mem
  reconcile_records_lem [] store h = record {
    recovered = [];
    after = store;
    result = refl;
    visited = λ k run m e. cc;
    elsewhere = λ k m. refl;
  }
  reconcile_records_lem (run ∷ runs) store h =
      let first = reconcile_one_lem replaces now run store h.0 in
      let rest =
        reconcile_records_lem runs first.after
          (Awaits-rounds replaces now run runs store first h.1) in
      record {
        recovered = first.recovered ++ rest.recovered;
        after = rest.after;
        result = rw (first.result, rest.result) refl;
        visited = visited_again run runs store first rest;
        elsewhere = λ k m. rest.elsewhere k (ground arith) ∙ first.elsewhere k (ground arith);
      }

  settled :
      (store : Store)
      → IsNamed store
      → (rounds : Rounds (readable store (newest store)) store) (k : Text) (run : RunRecord)
      → load k (record rounds.after { lock = none }) ≡ some run
      → IsSettled run
  unfolding load
  settled store named rounds k run e =
      elim (Bool-cases (mem k (map (λ r. r.id) (readable store (newest store))))) [
        | inl seen ↦ rounds.visited k run seen e
        | inr unseen ↦
            let before = sym (rounds.elsewhere k unseen) ∙ e in
            absurd (clash (sym unseen ∙ mem-readable-newest store k run named before))
      ]
    where
      clash : false ≡ true → ⊥
      clash h = cc

  -- At a start, in a store that holds at most a thousand readable records, each in the directory of
  -- its identifier, where the file system refuses to write no record and to delete no lock, and no
  -- compaction of event files raises, `reconcile` ends without an exception, leaves the lock free, and
  -- of every record still there the run has ended and no listener is said to be acting on it.
  pub reconcile-IsSettled :
      (faults : StartFaults) (store : Store)
      → faults.unlinking ≡ none
      → ((k : Text) → faults.compacting k ≡ none)
      → ((k : Text) → store.refusal k ≡ none)
      → IsNamed store
      → length (readable store (newest store)) ≤ 1000
      → (recovered : List RunRecord) × (after : Store) × (reconcile replaces faults now store
          ≡ some (recovered, after))
        × (after.lock ≡ none)
        × ((k : Text) (run : RunRecord) → load k after ≡ some run → IsSettled run)
  unfolding reconcile unlink_lock
  reconcile-IsSettled faults store unlinks compacts willing named few =
      let all_read : list 1000 store ≡ readable store (newest store) =
        list-take 999 store ∙ take_all 1000 (readable store (newest store)) few in
      let rounds =
        reconcile_records_lem (readable store (newest store)) store
          (Awaits-readable store (newest store) named willing) in
      let free = record rounds.after { lock = none } in
      (
        rounds.recovered,
        (prune free).1,
        rw (all_read, rounds.result, unlinks)
            (rw
              (compact_all_lem faults.compacting (keys (prune free).1.runs) (prune free).1 compacts)
              refl),
        lock-prune free,
        λ k run e. settled store named rounds k run (load-prune free k run e),
      )
