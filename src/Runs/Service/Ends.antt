-- ===== src/Runs/Service/Ends.antt =====
-- How a run ends: the state that it is given, and what the service lets go of.
use seapath_webui.Common.{
  ap, ℕ, Text, ◌==◌, eq_refl, filter, All, ◌∙◌, true, false, not, Option, none, some, List, [], ◌∷◌,
  ◌≡◌, ◌≢◌, ◌↔◌, refl, if◌then◌else◌, arith, Bool-cases, inl, inr,
}
use seapath_webui.Common.Int.{is_zero}
use seapath_webui.Common.Names.{mem, mem-filter}
use seapath_webui.Runs.Models.{
  success, failed, cancelled, interrupted, RunProgress, RunRecord, is_finished,
}
use seapath_webui.Runs.Store.{Store, release, load, save, lock_holder}
use seapath_webui.Runs.Service.{Service, wipe, wipe_copy, discard}
use seapath_webui.Runs.Service.Stages.{
  save-eq-some, stored-save, release_own, load-release, store-wipe_copy,
}
use seapath_webui.Runs.Service.Ending.{
  Outcome, Played, returned, crashed, given, final_state, judged, end_run, save_ended, leave_thread,
  forget_current, let_go,
}

module _ (outcome : Outcome) (progress : RunProgress) where
  -- The state that a run ends in: cancelled exactly when it was cancelled; interrupted exactly when it
  -- was not, the adapter reported no error, Ansible's recap was not seen and a task had started; a
  -- success exactly when it was not cancelled, the adapter reported no error, the recap was seen and
  -- the return code is 0; and if it is none of these, then failed.
  pub final_state_lem :
      ((final_state outcome progress ≡ cancelled) ↔ (outcome.was_cancelled ≡ true))
      × ((final_state outcome progress ≡ interrupted) ↔ (
          (outcome.was_cancelled ≡ false)
          × (given outcome.error ≡ false)
          × (progress.final_status_seen ≡ false)
          × (progress.tasks_started ≢ 0)))
      × ((final_state outcome progress ≡ success) ↔ (
          (outcome.was_cancelled ≡ false)
          × (given outcome.error ≡ false)
          × (progress.final_status_seen ≡ true)
          × (is_zero outcome.return_code ≡ true)))
      × ((final_state outcome progress ≢ cancelled)
          → (final_state outcome progress ≢ interrupted)
          → (final_state outcome progress ≢ success)
          → final_state outcome progress ≡ failed)
  unfolding final_state
  final_state_lem = (
    (λ h. ground arith, λ h. ground arith),
    (λ h. ground arith, λ h. ground arith),
    (λ h. ground arith, λ h. ground arith),
    λ a b c. ground arith,
  )

  final_state-finished : is_finished (final_state outcome progress) ≡ true
  unfolding final_state is_finished
  final_state-finished = ground arith

pub judged-finished :
    (first_error : Text) (progress : RunProgress) (played : Played) (run : RunRecord)
    → (is_finished (judged first_error progress played run).state ≡ true)
      × ((judged first_error progress played run).id ≡ run.id)
unfolding judged is_finished
judged-finished first_error progress (returned outcome) run =
    (final_state-finished outcome progress, refl)
judged-finished first_error progress (crashed error) run = (refl, refl)

mem-discard :
    (a run_id : Text) (names : List Text)
    → mem a (discard run_id names) ≡ (if a == run_id then false else mem a names)
unfolding discard
mem-discard a run_id names = ground (arith, mem-filter (λ name. not (name == run_id)) a names)

-- What the end of a run leaves.
pub record Ended (before after : Service) (run_id : Text) (ended : RunRecord) : Type 0 where
  pub finished : is_finished ended.state ≡ true
  pub saved : load run_id after.store ≡ some ended
  pub others : (k : Text) → (run_id == k) ≡ false → load k after.store ≡ load k before.store
  pub lock_free : lock_holder before.store ≡ some run_id → after.store.lock ≡ none
  pub refusals : after.store.refusal ≡ before.store.refusal
  pub not_current : after.current ≢ some run_id
  pub no_thread : All (λ thread. (thread.id == run_id) ≡ false) after.threads

hashes-wipe_copy :
    (run_id : Text) (service : Service)
    → service.wipes run_id ≡ true
    → (mem run_id service.hashes ≡ true → mem run_id service.seeded ≡ true)
    → mem run_id (wipe_copy run_id service).hashes ≡ false
unfolding wipe_copy wipe
hashes-wipe_copy run_id service wipes remembered =
    ground (arith, mem-discard run_id run_id service.hashes, eq_refl run_id)

forget_current-ne :
    (run_id : Text) (current : Option Text) → forget_current run_id current ≢ some run_id
unfolding forget_current
forget_current-ne run_id none = λ h. cc
forget_current-ne run_id (some playing) = λ h. ground (arith, eq_refl run_id)

no_thread_left :
    (run_id : Text) (threads : List RunRecord)
    → All
        (λ thread. (thread.id == run_id) ≡ false)
        (filter (λ thread. not (thread.id == run_id)) threads)
unfolding filter
no_thread_left run_id [] = tt
no_thread_left run_id (thread ∷ threads) = elim (Bool-cases (thread.id == run_id)) [
  | inl same ↦ rw same (no_thread_left run_id threads)
  | inr other ↦ rw other (other, no_thread_left run_id threads)
]

refusal-save :
    (run_id : Text) (run : RunRecord) (before after : Store)
    → save run before ≡ some after
    → (release run_id after).refusal ≡ before.refusal
unfolding release
refusal-save run_id run before after saved =
    let (_, _, _, same) = save-eq-some run before after saved in ground (arith, same)

abbrev left_behind : Text → Service → Service
left_behind run_id service = leave_thread run_id (wipe_copy run_id service)

save_ended_lem :
    (ended : RunRecord) (service : Service)
    → is_finished ended.state ≡ true
    → load ended.id service.store ≢ none
    → service.store.refusal ended.id ≡ none
    → let after_wipe = left_behind ended.id service in
      let (saved, after) = save_ended ended after_wipe (save ended after_wipe.store) in
      (saved ≡ some ended) × (after.hashes ≡ after_wipe.hashes) × Ended service after ended.id ended
unfolding save_ended leave_thread let_go
save_ended_lem ended service over here willing =
    let same_store = store-wipe_copy ended.id service in
    let (store, saved, same_lock, loads) = stored-save ended service.store here willing in
    let saved' : save ended (wipe_copy ended.id service).store ≡ some store = rw same_store saved in
    rw saved' (
      refl,
      refl,
      record {
        finished = over;
        saved = load-release ended.id ended.id store ∙ loads ended.id ∙ rw (eq_refl ended.id) refl;
        others = λ k other. load-release ended.id k store ∙ loads k ∙ rw other refl;
        lock_free = λ held. release_own ended.id store (unfold lock_holder in rw same_lock held);
        refusals = refusal-save ended.id ended service.store store saved;
        not_current = forget_current-ne ended.id (wipe_copy ended.id service).current;
        no_thread = no_thread_left ended.id (wipe_copy ended.id service).threads;
      },
    )

pub end_run_lem :
    (now : ℕ) (first_error : Text) (progress : RunProgress) (played : Played) (run : RunRecord)
    (service : Service)
    → load run.id service.store ≢ none
    → service.store.refusal run.id ≡ none
    → let (saved, after) = end_run now first_error progress played run service in
      (ended : RunRecord) × (saved ≡ some ended)
      × (after.hashes ≡ (wipe_copy run.id service).hashes)
      × Ended service after run.id ended
unfolding end_run is_finished
end_run_lem now first_error progress (returned outcome) run service here willing =
    let run' = record (judged first_error progress (returned outcome) run) {
      finished_at = some now;
      progress = progress;
      followups = service.listeners;
    } in
    let (saved, hashes, effect) =
      save_ended_lem run' service (judged-finished first_error progress (returned outcome) run).0
        here willing in
    (run', saved, hashes, effect)
end_run_lem now first_error progress (crashed error) run service here willing =
    let run' = record (judged first_error progress (crashed error) run) {
      finished_at = some now;
      progress = progress;
      followups = service.listeners;
    } in
    let (saved, hashes, effect) = save_ended_lem run' service refl here willing in
    (run', saved, hashes, effect)

-- However a run ends, if its directory is there and its record can be written, its staged copy can be
-- wiped, and that copy carries password hashes only where the service remembers that, then its record is
-- saved as finished, no other record changes, the lock is free if the run held it, its copy carries no
-- hash, and it is neither the current run nor played.
pub end_run-Ended :
    (now : ℕ) (first_error : Text) (progress : RunProgress) (played : Played) (run : RunRecord)
    (service : Service)
    → load run.id service.store ≢ none
    → service.store.refusal run.id ≡ none
    → service.wipes run.id ≡ true
    → (mem run.id service.hashes ≡ true → mem run.id service.seeded ≡ true)
    → let (saved, after) = end_run now first_error progress played run service in
      (ended : RunRecord) × (saved ≡ some ended)
      × (mem run.id after.hashes ≡ false)
      × Ended service after run.id ended
end_run-Ended now first_error progress played run service here willing wipes remembered =
    let (ended, saved, hashes, effect) =
      end_run_lem now first_error progress played run service here willing in
    (
      ended,
      saved,
      ap (mem run.id) hashes ∙ hashes-wipe_copy run.id service wipes remembered,
      effect,
    )
