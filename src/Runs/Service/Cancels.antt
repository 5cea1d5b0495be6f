-- ===== src/Runs/Service/Cancels.antt =====
-- app/runs/service.py: `cancel`, of a run that waits and of one that does not.
use seapath_webui.Common.{
  Bool-cases, All, ℕ, Text, ◌==◌, eq_iff, eq_refl, find, false, none, some, List, [], ◌∷◌, ◌++◌,
  ◌≡◌, ◌≢◌, ◌↔◌, refl, inl, inr, ◌∙◌, ap, sym, arith,
}
use seapath_webui.Runs.Models.{RunRecord, cancelled, is_finished, dequeued}
use seapath_webui.Runs.Store.{load}
use seapath_webui.Runs.Service.{Prepared, Service}
use seapath_webui.Runs.Service.Stages.{stored-save}
use seapath_webui.Runs.Service.Queue.{
  identifier, remove_first, taken_out, cancel_asked, dequeue, ask_cancel, cancel_found, cancel,
}

-- The first entry of a run in a queue: what comes before it is of other runs, and it alone is taken out.
remove_first_lem :
    (run_id : Text) (items : List Prepared) (item : Prepared)
    → find (λ item. identifier item == run_id) items ≡ some item
    → (front back : List Prepared) × (items ≡ front ++ item ∷ back)
      × All (λ other. (other.run.id == run_id) ≡ false) front
      × (remove_first run_id items ≡ front ++ back)
unfolding find remove_first
remove_first_lem run_id [] item h = cc
remove_first_lem run_id (first ∷ items) item h = elim (Bool-cases (first.run.id == run_id)) [
  | inl same ↦
      let e : first ≡ item = ground arith in ([], items, ap (λ i. i ∷ items) e, tt, rw same refl)
  | inr other ↦
      let (front, back, split, before, left) = remove_first_lem run_id items item (rw other at h) in
      (
        first ∷ front,
        back,
        ap (λ l. first ∷ l) split,
        (other, before),
        rw other (ap (λ l. first ∷ l) left),
      )
]

remove_first-absent :
    (run_id : Text) (items : List Prepared)
    → find (λ item. identifier item == run_id) items ≡ none
    → remove_first run_id items ≡ items
unfolding find remove_first
remove_first-absent run_id [] h = refl
remove_first-absent run_id (item ∷ items) h = ground (arith, remove_first-absent run_id items)

find-identifier :
    (run_id : Text) (items : List Prepared) (item : Prepared)
    → find (λ item. identifier item == run_id) items ≡ some item
    → identifier item ≡ run_id
unfolding find
find-identifier run_id [] item h = cc
find-identifier run_id (first ∷ items) item h =
    ground (arith, find-identifier run_id items item, eq_iff (identifier first) run_id)

module _ (now : ℕ) (run_id : Text) (service : Service) where
  -- A run that waits, whose directory is there and whose record can be written is taken out of the queue
  -- by `cancel`: its first entry, and no other entry of the queue, is gone and the order is kept, it is
  -- saved as cancelled, and the lock, the threads and the requests to cancel are as they were.
  pub cancel-taken_out :
      (waiting : Prepared)
      → find (λ item. identifier item == run_id) service.queue ≡ some waiting
      → load run_id service.store ≢ none
      → service.store.refusal run_id ≡ none
      → let (answer, after) = cancel now run_id service in
        (run : RunRecord) × (front back : List Prepared) × (answer ≡ taken_out run)
        × (run.id ≡ run_id)
        × (run.state ≡ cancelled)
        × (load run_id after.store ≡ some run)
        × (service.queue ≡ front ++ waiting ∷ back)
        × All (λ other. (other.run.id == run_id) ≡ false) front
        × (after.queue ≡ front ++ back)
        × (after.store.lock ≡ service.store.lock)
        × (after.threads ≡ service.threads)
        × (after.cancelled ≡ service.cancelled)
  unfolding cancel cancel_found dequeue
  cancel-taken_out waiting found here willing =
      let same = find-identifier run_id service.queue waiting found in
      let run = record waiting.run {
        state = cancelled;
        finished_at = some now;
        message = some dequeued;
      } in
      let here' : load run.id service.store ≢ none =
        λ gone. here (ap (λ k. load k service.store) (sym same) ∙ gone) in
      let (store, saved, lock, loads) =
        stored-save run service.store here' (ap service.store.refusal same ∙ willing) in
      let (front, back, split, before, left) =
        remove_first_lem run_id service.queue waiting found in
      rw found (
        rw saved (
          run,
          front,
          back,
          refl,
          same,
          refl,
          ap (λ k. load k store) (sym same) ∙ loads run.id ∙ rw (eq_refl run.id) refl,
          split,
          before,
          left,
          lock,
          refl,
          refl,
        ))

  -- A run that does not wait is never touched by `cancel`: the store and the queue are as they were,
  -- and the run is asked to stop exactly when it has a record that is not finished.
  pub cancel_asks :
      find (λ item. identifier item == run_id) service.queue ≡ none
      → ((cancel now run_id service).1.store ≡ service.store)
        × ((cancel now run_id service).1.queue ≡ service.queue)
        × ((run : RunRecord)
            → ((cancel now run_id service).0 ≡ cancel_asked run)
              ↔ ((load run_id service.store ≡ some run) × (is_finished run.state ≡ false)))
  unfolding cancel cancel_found ask_cancel
  cancel_asks absent = (ground arith, ground arith, λ run. (λ h. ground arith, λ h. ground arith))
