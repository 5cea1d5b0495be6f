-- ===== src/Runs/Service/Turns.antt =====
-- The turns of the queue: one round of the dispatcher.
use seapath_webui.Common.{
  ℕ, Text, codes, is_empty, false, Option, none, some, List, [], ◌∷◌, ◌++◌, ◌≡◌, ◌⊎◌, refl, inl,
  inr, ◌∙◌, ap, sym, arith,
}
use seapath_webui.Common.Dict.{has}
use seapath_webui.Runs.Models.{RunRecord, running, failed, could_not_start}
use seapath_webui.Runs.Store.{Store, savable, load, save, acquire, lock_holder, holder_of}
use seapath_webui.Runs.Service.{
  Prepared, Service, Exception, exception, missing_directory, requested, record_begun, unsaved,
  Start, Begun, begun, unbegun, begin, spawn, text_of, save_begun, set_running, write_seed, repair,
}
use seapath_webui.Runs.Service.Stages.{save-eq-some}
use seapath_webui.Runs.Service.Begins.{BeginEffect, begin_lem, save-savable_not, save-eq-none, Calm}
use seapath_webui.Runs.Service.Queue.{
  Round, waited, playing, unstarted, dispatcher_died, save_unstarted, begun_or_failed, start_head,
  after_turn, dispatch_round, taken, next_turn, turn_of, take_head, ended, waited,
}

-- What a round of the dispatcher makes of the head of the queue.
abbrev pub Turned : Service → Service → Prepared → List Prepared → Round → Type 0
Turned before after head rest (playing run) =
    (run.id ≡ head.run.id)
    × (run.state ≡ running)
    × (after.queue ≡ rest)
    × (after.threads ≡ run ∷ before.threads)
    × (lock_holder after.store ≡ some run.id)
    × (load run.id after.store ≡ some run)
Turned before after head rest (unstarted run) =
    (run.id ≡ head.run.id)
    × (run.state ≡ failed)
    × (after.queue ≡ rest)
    × (after.threads ≡ before.threads)
    × (after.store.lock ≡ none)
    × (load run.id after.store ≡ some run)
Turned before after head rest (dispatcher_died error) =
    (after.queue ≡ rest)
    × (after.threads ≡ before.threads)
    × (savable head.run.id before.store ≡ false)
Turned before after head rest other = ⊥

-- The same, of which what a failure lets go of is stated where nothing is raised after the `try`.
abbrev pub TurnedIf : Type 0 → Service → Service → Prepared → List Prepared → Round → Type 0
TurnedIf calm before after head rest (playing run) = Turned before after head rest (playing run)
TurnedIf calm before after head rest (unstarted run) =
    (run.id ≡ head.run.id)
    × (run.state ≡ failed)
    × (after.queue ≡ rest)
    × (after.threads ≡ before.threads)
    × (calm → after.store.lock ≡ none)
    × (load run.id after.store ≡ some run)
TurnedIf calm before after head rest (dispatcher_died error) =
    (after.queue ≡ rest)
    × (after.threads ≡ before.threads)
    × (calm → savable head.run.id before.store ≡ false)
TurnedIf calm before after head rest other = ⊥

pub Turned-TurnedIf :
    {calm : Type 0} (before after : Service) (head : Prepared) (rest : List Prepared)
    (round : Round)
    → calm
    → TurnedIf calm before after head rest round
    → Turned before after head rest round
Turned-TurnedIf before after head rest (playing run) here h = h
Turned-TurnedIf before after head rest (unstarted run) here (i, s, q, t, free, loaded) =
    (i, s, q, t, free here, loaded)
Turned-TurnedIf before after head rest (dispatcher_died error) here (q, t, unsavable) =
    (q, t, unsavable here)
Turned-TurnedIf before after head rest ended here h = h
Turned-TurnedIf before after head rest waited here h = h

save_unstarted_lem :
    {calm : Type 0} (before after : Service) (head : Prepared) (rest : List Prepared)
    (run : RunRecord) (o : Option Store)
    → run.id ≡ head.run.id
    → run.state ≡ failed
    → after.queue ≡ rest
    → after.threads ≡ before.threads
    → (calm → o ≡ none → savable head.run.id before.store ≡ false)
    → (calm → (after.store.lock ≡ none) ⊎ (o ≡ none))
    → save run after.store ≡ o
    → let (round, last) = save_unstarted run after o in TurnedIf calm before last head rest round
unfolding save_unstarted
save_unstarted_lem before after head rest run none i s q t unsavable free e =
    (q, t, λ calm. unsavable calm refl)
save_unstarted_lem before after head rest run (some store) i s q t unsavable free e =
    let (loaded, same, _, _) = save-eq-some run after.store store e in
    (
      i,
      s,
      q,
      t,
      λ calm. same ∙ elim (free calm) [ inl gone ↦ gone | inr refused ↦ absurd (clash refused) ],
      loaded,
    )
  where
    clash : some store ≡ none → ⊥
    clash h = cc

begun_or_failed_lem :
    (start : Start) (now : ℕ) (before between after : Service) (head : Prepared)
    (rest : List Prepared) (result : Begun)
    → between.queue ≡ rest
    → between.threads ≡ before.threads
    → lock_holder between.store ≡ some head.run.id
    → between.store.runs ≡ before.store.runs
    → between.store.refusal ≡ before.store.refusal
    → BeginEffect start between head.run result after
    → let (round, last) = begun_or_failed now (result, after) in
      TurnedIf (Calm start) before last head rest round
unfolding begun_or_failed spawn
begun_or_failed_lem start now before between after head rest (begun run) q t held runs refusal
      effect =
    let (same, state, loaded, lock, current) = effect.outcome in
    (
      same,
      state,
      effect.same_queue ∙ q,
      ap (λ l. run ∷ l) (effect.same_threads ∙ t),
      unfold lock_holder in rw (lock, same) held,
      ap (λ k. load k after.store) same ∙ loaded,
    )
begun_or_failed_lem start now before between after head rest (unbegun run error) q t held runs
      refusal effect =
    let run' = record run {
      state = failed;
      finished_at = some now;
      message = some (could_not_start (text_of error));
    } in
    save_unstarted_lem before after head rest run' (save run' after.store) effect.outcome.0 refl
      (effect.same_queue ∙ q) (effect.same_threads ∙ t)
      (λ calm refused. sym before_savable ∙ elim (effect.outcome.1 calm) [
        | inl (saves, _) ↦
            sym saves
            ∙ sym (ap (λ k. savable k after.store) effect.outcome.0)
            ∙ save-eq-none run' after.store refused
        | inr (_, gone) ↦ gone
      ])
      (λ calm. elim (effect.outcome.1 calm) [
        | inl (_, free) ↦ inl (free held)
        | inr (kept, gone) ↦ inr (
            save-savable_not run' after.store (
              ap (λ k. savable k after.store) effect.outcome.0
              ∙ ap (savable head.run.id) kept
              ∙ gone))
      ])
      refl
  where
    before_savable : savable head.run.id between.store ≡ savable head.run.id before.store
    before_savable = rw (runs, refusal) refl

pub start_head-Turned :
    (start : Start) (head : Prepared) (service : Service)
    → lock_holder service.store ≡ some head.run.id
    → let (round, after) = start_head start head service in
      TurnedIf (Calm start) service after head service.queue round
unfolding start_head
start_head-Turned start head service held =
    let (result, after) = begin start head service in
    begun_or_failed_lem start start.now service service after head service.queue result refl refl
      held refl refl (begin_lem start head service)

-- The service once the lock is taken for the head of the queue.
abbrev pub with_lock : Prepared → List Prepared → Service → Service
with_lock head rest service = record service {
  store = record service.store { lock = some (head.run.id ∷ (codes "Run " ++ head.run.id) ∷ []) };
  queue = rest;
  turn = false;
}

pub next_turn-taken :
    (head : Prepared) (rest : List Prepared) (service : Service)
    → service.queue ≡ head ∷ rest
    → service.store.lock ≡ none
    → next_turn service ≡ (taken head, with_lock head rest service)
unfolding next_turn turn_of take_head acquire
next_turn-taken head rest service waiting free = ground arith

abbrev running_run : Start → RunRecord → RunRecord
running_run start run = record run {
  state = running;
  started_at = some start.now;
  collection_version = start.collection_version;
  command = start.command;
}

-- A start that raised after the `try` of `_begin`, and let go of nothing.
abbrev Kept : Service → RunRecord → Begun × Service → Type 0
Kept service run (result, after) =
    (run' : RunRecord) × (error : Exception) × (result ≡ unbegun run' error)
    × (run'.id ≡ run.id)
    × (after.store ≡ service.store)
    × (after.queue ≡ service.queue)
    × (after.threads ≡ service.threads)
    × (after.dispatcher ≡ service.dispatcher)

set_running-Kept :
    (start : Start) (run : RunRecord) (service : Service)
    → has run.id service.store.runs ≡ false
    → Kept service run (set_running start run service)
unfolding set_running requested
set_running-Kept start run service gone = on_request start.request_error
  where
    on_record :
        (o : Option Text)
        → Kept service run
            (record_begun o (running_run start run) (record service { current = some run.id }))
    on_record (some error) =
        unfold record_begun in
        (running_run start run, exception error, refl, refl, refl, refl, refl, refl)
    on_record none =
        unfold record_begun save_begun save in
        rw gone (running_run start run, _, refl, refl, refl, refl, refl, refl)

    on_request : (o : Option Text) → Kept service run (requested o start run service)
    on_request (some error) =
        unfold requested in (run, exception error, refl, refl, refl, refl, refl, refl)
    on_request none = unfold requested in on_record start.record_error

begin-Kept :
    (start : Start) (head : Prepared) (service : Service)
    → has head.run.id service.store.runs ≡ false
    → start.before_launch_error ≡ none
    → head.seeded ≡ none
    → Kept service head.run (begin start head service)
unfolding begin repair write_seed
begin-Kept start head service gone healthy plain =
    simp (healthy, plain) (set_running-Kept start head.run service gone)

unsaved-gone :
    (run_id : Text) (store : Store)
    → has run_id store.runs ≡ false
    → unsaved run_id store ≡ missing_directory
unfolding unsaved
unsaved-gone run_id store gone = rw gone refl

module _ (start : Start) (service : Service) (head : Prepared) (rest : List Prepared)
    (proper : is_empty head.run.id ≡ false) (waiting : service.queue ≡ head ∷ rest)
    (free : service.store.lock ≡ none) where
  -- With the lock free and the identifier of the head not empty, where nothing is raised after the `try`
  -- of `_begin` but by a store that refuses to save the record, a round of the dispatcher takes the run
  -- that has waited longest, and no other, out of the queue: it is played, holding the lock, and saved
  -- as running, or it is saved as failed with the lock free again, or the dispatcher's thread dies, which
  -- takes a record that cannot be saved.
  pub dispatch_round-Turned :
      start.request_error ≡ none
      → start.record_error ≡ none
      → let (round, after) = dispatch_round start service in Turned service after head rest round
  unfolding dispatch_round after_turn
  dispatch_round-Turned request written =
      let between = with_lock head rest service in
      rw (next_turn-taken head rest service waiting free) (
        Turned-TurnedIf service (start_head start head between).1 head rest
          (start_head start head between).0 (request, written)
          (start_head-Turned start head between (unfold lock_holder holder_of in rw proper refl)))

  -- A queued run, its identifier not empty, whose directory is gone when its turn comes with the lock
  -- free, where the repair before a launch succeeds and its copy takes no password, kills the
  -- dispatcher: the lock is left in the name of that run, no thread is started for it, it is out of
  -- the queue, and whether the service counts itself as having a dispatcher is as it was.
  pub dispatch_round_leak :
      has head.run.id service.store.runs ≡ false
      → start.before_launch_error ≡ none
      → head.seeded ≡ none
      → let (round, after) = dispatch_round start service in
        (round ≡ dispatcher_died missing_directory)
        × (lock_holder after.store ≡ some head.run.id)
        × (after.threads ≡ service.threads)
        × (after.queue ≡ rest)
        × (after.dispatcher ≡ service.dispatcher)
  unfolding dispatch_round after_turn start_head
  dispatch_round_leak gone healthy plain =
      let between = with_lock head rest service in
      let (run, error, result, same, store, queue, threads, dispatcher) =
        begin-Kept start head between gone healthy plain in
      rw (next_turn-taken head rest service waiting free) (
        rw result (
          unfold begun_or_failed save_unstarted save unsaved in
          rw (store, same, gone)
            (
              ap dispatcher_died (
                  unsaved-gone head.run.id (begin start head between).1.store
                    (ap (λ s. has head.run.id s.runs) store ∙ gone)),
              rw store (unfold lock_holder holder_of in rw proper refl),
              threads,
              queue,
              dispatcher,
            )))

-- While the lock is held a round of the dispatcher takes nothing out of the queue, starts nothing
-- and changes nothing in the store.
pub dispatch_round-waited :
    (start : Start) (service : Service) (head : Prepared) (rest : List Prepared) (lines : List Text)
    → service.queue ≡ head ∷ rest
    → service.store.lock ≡ some lines
    → ((dispatch_round start service).0 ≡ waited)
      × ((dispatch_round start service).1 ≡ record service { turn = false })
unfolding dispatch_round next_turn turn_of take_head after_turn acquire
dispatch_round-waited start service head rest lines waiting held =
    (rw (waiting, held) refl, ground arith)
