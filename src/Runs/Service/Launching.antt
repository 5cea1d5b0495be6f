-- ===== src/Runs/Service/Launching.antt =====
-- What a launch does to the service: it waits behind what waits, is refused, or takes the lock.
use seapath_webui.Common.{
  codes, ℕ, Text, is_empty, length, Bool, true, false, Option, none, some, List, [], ◌∷◌, ◌++◌, ◌≡◌,
  ◌≢◌, ◌⊎◌, refl, inl, inr, ◌∙◌, ap, sym, arith, Bool-cases, Option-cases,
}
use seapath_webui.Runs.Models.{RunRecord, queued, running}
use seapath_webui.Runs.Store
use seapath_webui.Runs.Store.{
  Store, savable, load, save, create, prune, acquire, release, lock_holder, holder_of, acquired,
  locked,
}
use seapath_webui.Runs.Service.Stages.{StageEffect, stage_lem, save-eq-some, release_own}
use seapath_webui.Runs.Service.Begins.{Calm, BeginEffect, begin_lem}
use seapath_webui.Runs.Service.{
  Prepared, Service, Exception, Staging, Start, Staged, staged, unstaged, stage, begin, spawn,
  decide, decided, behind, Begun, begun, unbegun, spawned, started, Reply, appended, save_unqueued,
  launched, queued_up, refused_waiting, refused_locked, failed_with, launch, start_run, enqueue,
  answered,
}

-- The outcome of a launch that finds runs waiting, or the lock held, in words of the state.
abbrev pub Queued : Service → Service → Prepared → Reply → Type 0
Queued before after prepared (queued_up run) =
    (entry : Prepared) × (after.queue ≡ before.queue ++ entry ∷ [])
    × (entry.run ≡ run)
    × (run.id ≡ prepared.run.id)
    × (run.state ≡ queued)
    × (load run.id after.store ≡ some run)
Queued before after prepared (failed_with error) = after.queue ≡ before.queue
Queued before after prepared reply = ⊥

pub record Waits (before after : Service) (prepared : Prepared) (reply : Reply) : Type 0 where
  pub same_threads : after.threads ≡ before.threads
  pub same_lock : after.store.lock ≡ before.store.lock
  pub outcome : Queued before after prepared reply

save_unqueued_lem :
    (error : Exception) (run_id : Text) (prepared : Prepared) (before service : Service)
    (run : RunRecord) (o : Option Store)
    → service.queue ≡ before.queue
    → service.threads ≡ before.threads
    → service.store.lock ≡ before.store.lock
    → save run service.store ≡ o
    → let (reply, after) = save_unqueued error run_id service o in Waits before after prepared reply
unfolding save_unqueued
save_unqueued_lem error run_id prepared before service run none q t l e = record {
  same_threads = t;
  same_lock = l;
  outcome = q;
}
save_unqueued_lem error run_id prepared before service run (some store) q t l e =
    let (_, same, _, _) = save-eq-some run service.store store e in
    record { same_threads = t; same_lock = same ∙ l; outcome = q }

appended_lem :
    (now : ℕ) (prepared : Prepared) (before after : Service) (result : Staged)
    → StageEffect before (record prepared.run { state = queued }) result after
    → let (reply, last) = appended now (result, after) in Waits before last prepared reply
unfolding appended
appended_lem now prepared before after (staged entry) effect =
    let (i, s, loaded, _) = effect.outcome in
    record {
      same_threads = effect.same_threads;
      same_lock = effect.same_lock;
      outcome = (entry, ap (λ q. q ++ entry ∷ []) effect.same_queue, refl, i, s, loaded);
    }
appended_lem now prepared before after (unstaged entry error) effect =
    save_unqueued_lem error entry.run.id prepared before after _ _ effect.same_queue
      effect.same_threads effect.same_lock refl

-- The outcome of a launch that finds no run waiting and the lock free.
abbrev pub Started : Service → Service → Prepared → Reply → Type 0
Started before after prepared (launched run) =
    (after.threads ≡ run ∷ before.threads)
    × (run.id ≡ prepared.run.id)
    × (run.state ≡ running)
    × (lock_holder after.store ≡ some run.id)
    × (load run.id after.store ≡ some run)
    × (after.current ≡ some run.id)
Started before after prepared (failed_with error) =
    (after.threads ≡ before.threads) × (after.store.lock ≡ none)
Started before after prepared reply = ⊥

-- The same, of which what a failure lets go of is stated where nothing is raised after the `try`.
abbrev pub StartedIf : Type 0 → Service → Service → Prepared → Reply → Type 0
StartedIf calm before after prepared (launched run) = Started before after prepared (launched run)
StartedIf calm before after prepared (failed_with error) =
    (after.threads ≡ before.threads) × (calm → after.store.lock ≡ none)
StartedIf calm before after prepared reply = ⊥

Started-StartedIf :
    {calm : Type 0} (before after : Service) (prepared : Prepared) (reply : Reply)
    → calm
    → StartedIf calm before after prepared reply
    → Started before after prepared reply
Started-StartedIf before after prepared (launched run) here h = h
Started-StartedIf before after prepared (failed_with error) here (threads, free) =
    (threads, free here)
Started-StartedIf before after prepared (queued_up run) here h = h
Started-StartedIf before after prepared (refused_waiting count) here h = h
Started-StartedIf before after prepared (refused_locked holder) here h = h

pub enqueue-Waits :
    (now : ℕ) (staging : Staging) (prepared : Prepared) (service : Service)
    → let (reply, after) = enqueue now staging prepared service in
      Waits service after prepared reply
unfolding enqueue
enqueue-Waits now staging prepared service =
    let entry = record prepared { run = record prepared.run { state = queued } } in
    appended_lem now prepared service _ _ (stage_lem staging entry service)

module _ (staging : Staging) (start : Start) (prepared : Prepared) (service : Service)
    (busy : (is_empty service.queue ≡ false) ⊎ (service.store.lock ≢ none)) where
  launch_asks :
      launch true staging start prepared service ≡ enqueue start.now staging prepared service
  unfolding launch decide decided behind answered acquire
  launch_asks = ground arith

  -- While runs are waiting or the lock is held, a launch that asks to wait neither starts a run nor
  -- takes the lock: the run is put behind all that wait and saved as queued, or the launch fails and
  -- the queue is as it was.
  pub launch-Waits :
      let (reply, after) = launch true staging start prepared service in
      Waits service after prepared reply
  launch-Waits = rw launch_asks (enqueue-Waits start.now staging prepared service)

  -- While runs are waiting or the lock is held, a launch that does not ask to wait changes nothing,
  -- and is refused with the number of runs waiting or with what holds the lock.
  pub launch_refused :
      ((launch false staging start prepared service).1 ≡ service)
      × (((launch false staging start prepared service).0 ≡ refused_waiting (length service.queue))
          ⊎ ((launch false staging start prepared service).0
              ≡ refused_locked (Store.lock_description service.store)))
  unfolding launch decide decided behind answered acquire
  launch_refused = refused (Bool-cases (is_empty service.queue)) (Option-cases service.store.lock)
    where
      refused :
          (is_empty service.queue ≡ true) ⊎ (is_empty service.queue ≡ false)
          → (service.store.lock ≡ none) ⊎ ((lines : List Text) × (service.store.lock ≡ some lines))
          → ((launch false staging start prepared service).1 ≡ service)
            × (((launch false staging start prepared service).0
                  ≡ refused_waiting (length service.queue))
                ⊎ ((launch false staging start prepared service).0
                    ≡ refused_locked (Store.lock_description service.store)))
      refused (inr waiting) lock = (ground arith, inl (ground arith))
      refused (inl none_waiting) (inl free) = absurd (ground arith)
      refused (inl none_waiting) (inr (lines, held)) = (ground arith, inr (ground arith))

spawned_lem :
    (start : Start) (before between after : Service) (entry prepared : Prepared) (result : Begun)
    → entry.run.id ≡ prepared.run.id
    → between.threads ≡ before.threads
    → lock_holder between.store ≡ some entry.run.id
    → savable entry.run.id between.store ≡ true
    → BeginEffect start between entry.run result after
    → let (reply, last) = spawned (result, after) in
      StartedIf (Calm start) before last prepared reply
unfolding spawned spawn lock_holder
spawned_lem start before between after entry prepared (begun run) i t held here effect =
    let (same, state, loaded, lock, current) = effect.outcome in
    (
      ap (λ l. run ∷ l) (effect.same_threads ∙ t),
      same ∙ i,
      state,
      rw (lock, same) held,
      ap (λ k. load k after.store) same ∙ loaded,
      current ∙ ap some (sym same),
    )
spawned_lem start before between after entry prepared (unbegun run error) i t held here effect = (
  effect.same_threads ∙ t,
  λ calm. elim (effect.outcome.1 calm) [
    | inl (_, free) ↦ free held
    | inr (_, gone) ↦ absurd (clash (sym gone ∙ here))
  ],
)
  where
    clash : false ≡ true → ⊥
    clash h = cc

started_lem :
    (start : Start) (before after : Service) (prepared : Prepared) (result : Staged)
    → lock_holder before.store ≡ some prepared.run.id
    → StageEffect before prepared.run result after
    → let (reply, last) = started start (result, after) in
      StartedIf (Calm start) before last prepared reply
unfolding started lock_holder
started_lem start before after prepared (staged entry) held effect =
    let (same, state, _, saves) = effect.outcome in
    let (result, last) = begin start entry after in
    spawned_lem start before after last entry prepared result same effect.same_threads
      (rw (effect.same_lock, same) held) saves (begin_lem start entry after)
started_lem start before after prepared (unstaged entry error) held effect = (
  effect.same_threads,
  λ calm. release_own entry.run.id after.store (rw (effect.same_lock, effect.outcome) held),
)

-- Once the lock is taken for a run, the run ends up played, or the lock is let go, where nothing is
-- raised after the `try` of `_begin`.
pub start_run_lem :
    (staging : Staging) (start : Start) (prepared : Prepared) (service : Service)
    → lock_holder service.store ≡ some prepared.run.id
    → let (reply, after) = start_run staging start prepared service in
      StartedIf (Calm start) service after prepared reply
unfolding start_run
start_run_lem staging start prepared service held =
    let (result, after) = stage staging prepared service in
    started_lem start service after prepared result held (stage_lem staging prepared service)

-- With no run waiting and the lock free, a launch of a run whose identifier is not empty, where nothing
-- is raised after the `try` of `_begin` (by `_request`, by `collection_version`, or by a save that is
-- refused though the one that staged the run was not), is never refused and never waits, whether or not
-- it asks to. The run is played, holding the lock, saved as running and current, or the launch fails,
-- and then the lock is free again and no thread was started.
pub launch_idle :
    (queue : Bool) (staging : Staging) (start : Start) (prepared : Prepared) (service : Service)
    → is_empty prepared.run.id ≡ false
    → service.queue ≡ []
    → service.store.lock ≡ none
    → start.request_error ≡ none
    → start.record_error ≡ none
    → let (reply, after) = launch queue staging start prepared service in
      Started service after prepared reply
unfolding launch decide decided answered acquire
launch_idle queue staging start prepared service proper idle free request written =
    let idle_service = record service {
      store = record service.store { lock = none };
      queue = [];
    } in
    let locked_service = record idle_service {
      store = record service.store {
        lock = some (prepared.run.id ∷ (codes "Run " ++ prepared.run.id) ∷ []);
      };
    } in
    let (reply, after) = start_run staging start prepared locked_service in
    rw (idle, free)
      (Started-StartedIf idle_service after prepared reply (request, written)
        (start_run_lem staging start prepared locked_service
          (unfold lock_holder holder_of in rw proper refl)))
