-- ===== src/Runs/Store/Reconcile.antt =====
-- What a start leaves of the runs that the service was in the middle of when it died.
use seapath_webui.Common.{
  ap, ℕ, Text, ◌==◌, eq_iff, eq_refl, All, Bool, true, false, none, some, List, [], ◌∷◌, ◌≡◌, ◌∙◌,
  sym, subst, ◌⊎◌, inl, inr, refl, if◌then◌else◌, arith, Bool-cases, Option-cases,
}
use seapath_webui.Common.Dict.{insert, lookup-insert, lookup-has_not}
use seapath_webui.Runs.Models.{RunRecord, is_finished}
use seapath_webui.Runs.Store.{Store, load, save, close, cleared, save_closed, reconcile_one}

-- The run has ended, and nothing says that its listeners are still acting on it.
abbrev pub IsSettled : RunRecord → Type 0
IsSettled run = (is_finished run.state ≡ true) × (run.followups ≡ false)

-- What stands under the identifier of a record that the loop is to visit: the record, or one that an
-- earlier round has settled.
abbrev pub Awaits : Store → RunRecord → Type 0
Awaits store run =
    (held : RunRecord) × (load run.id store ≡ some held)
    × ((held ≡ run) ⊎ IsSettled held)
    × (store.refusal run.id ≡ none)

abbrev stored : RunRecord → Store → Store
stored run store = record store { runs = insert run.id (some run) store.runs }

save-stored :
    (run held : RunRecord) (store : Store)
    → load run.id store ≡ some held
    → store.refusal run.id ≡ none
    → save run store ≡ some (stored run store)
unfolding save load
save-stored run held store h willing = ground (arith, lookup-has_not run.id store.runs)

load-stored :
    (run : RunRecord) (store : Store) (k : Text)
    → load k (stored run store) ≡ (if run.id == k then some run else load k store)
unfolding load
load-stored run store k = ground (arith, lookup-insert run.id k (some run) store.runs)

module _ (replaces : Text → Bool) (now : ℕ) where
  close-eq-none : (run : RunRecord) → close replaces now run ≡ none → is_finished run.state ≡ true
  unfolding close is_finished
  close-eq-none run h = ground arith

  close-eq-some :
      (run after : RunRecord)
      → close replaces now run ≡ some after
      → (after.id ≡ run.id) × (after.followups ≡ run.followups) × (is_finished after.state ≡ true)
  unfolding close is_finished
  close-eq-some run after h = ground arith

  -- What `cleared` leaves: a record with no listener at work, under the same identifier.
  record Cleared (run : RunRecord) (store : Store) : Type 0 where
    run' : RunRecord
    after : Store
    result : cleared replaces run store ≡ some (run', after)
    same_id : run'.id ≡ run.id
    quiet : run'.followups ≡ false
    held : RunRecord
    here : load run.id after ≡ some held
    waits : (held ≡ run') ⊎ IsSettled held
    elsewhere : (k : Text) → (run.id == k) ≡ false → load k after ≡ load k store
    same_refusal : after.refusal ≡ store.refusal

  cleared_lem : (run : RunRecord) (store : Store) → Awaits store run → Cleared run store
  unfolding cleared
  cleared_lem run store (held, here, waits, willing) = elim (Bool-cases run.followups) [
    | inl busy ↦
        let quiet = record run { followups = false } in
        record {
          run' = quiet;
          after = stored quiet store;
          result = rw (busy, save-stored quiet held store here willing) refl;
          same_id = refl;
          quiet = refl;
          held = quiet;
          here = ground (arith, load-stored quiet store run.id, eq_refl run.id);
          waits = inl refl;
          elsewhere = λ k other. ground (arith, load-stored quiet store k);
          same_refusal = refl;
        }
    | inr idle ↦ record {
      run' = run;
      after = store;
      result = rw idle refl;
      same_id = refl;
      quiet = idle;
      held = held;
      here = here;
      waits = waits;
      elsewhere = λ k other. refl;
      same_refusal = refl;
    }
  ]

  -- One round of the loop.
  pub record Round (run : RunRecord) (store : Store) : Type 0 where
    pub recovered : List RunRecord
    pub after : Store
    pub result : reconcile_one replaces now run store ≡ some (recovered, after)
    pub held : RunRecord
    pub here : load run.id after ≡ some held
    pub settled : IsSettled held
    pub elsewhere : (k : Text) → (run.id == k) ≡ false → load k after ≡ load k store
    pub same_refusal : after.refusal ≡ store.refusal

  settle_held :
      (held run : RunRecord) → (held ≡ run) ⊎ IsSettled held → IsSettled run → IsSettled held
  settle_held held run (inl same) s = rw same s
  settle_held held run (inr settled) s = settled

  pub reconcile_one_lem : (run : RunRecord) (store : Store) → Awaits store run → Round run store
  unfolding reconcile_one save_closed
  reconcile_one_lem run store waits =
      let c = cleared_lem run store waits in
      elim (Option-cases (close replaces now c.run')) [
        | inl ended ↦ record {
          recovered = [];
          after = c.after;
          result = rw (c.result, ended) refl;
          held = c.held;
          here = c.here;
          settled = settle_held c.held c.run' c.waits (close-eq-none c.run' ended, c.quiet);
          elsewhere = c.elsewhere;
          same_refusal = c.same_refusal;
        }
        | inr (shut, e) ↦
            let (same_id, same_quiet, over) = close-eq-some c.run' shut e in
            let same : shut.id ≡ run.id = same_id ∙ c.same_id in
            record {
              recovered = shut ∷ [];
              after = stored shut c.after;
              result =
                  rw (c.result, e)
                    (rw
                      (save-stored shut c.held c.after
                        (subst (λ k. load k c.after ≡ some c.held) (sym same) c.here)
                        (ap c.after.refusal same ∙ ap (λ r. r run.id) c.same_refusal ∙ waits.3))
                      refl);
              held = shut;
              here = ground (arith, load-stored shut c.after run.id, same, eq_refl run.id);
              settled = (over, same_quiet ∙ c.quiet);
              elsewhere =
                  λ k other. ground (arith, load-stored shut c.after k, same, c.elsewhere k other);
              same_refusal = c.same_refusal;
            }
      ]

  Awaits-round :
      (run other : RunRecord) (store : Store) (round : Round run store)
      → Awaits store other
      → Awaits round.after other
  Awaits-round run other store round (held, here, waits, willing) =
      elim (Bool-cases (run.id == other.id)) [
        | inl same ↦ (
          round.held,
          subst (λ k. load k round.after ≡ some round.held) ((eq_iff run.id other.id).0 same)
              round.here,
          inr round.settled,
          ap (λ r. r other.id) round.same_refusal ∙ willing,
        )
        | inr apart ↦ (
          held,
          round.elsewhere other.id apart ∙ here,
          waits,
          ap (λ r. r other.id) round.same_refusal ∙ willing,
        )
      ]

  pub Awaits-rounds :
      (run : RunRecord) (runs : List RunRecord) (store : Store) (round : Round run store)
      → All (Awaits store) runs
      → All (Awaits round.after) runs
  Awaits-rounds run [] store round h = tt
  Awaits-rounds run (other ∷ runs) store round h =
      (Awaits-round run other store round h.0, Awaits-rounds run runs store round h.1)
