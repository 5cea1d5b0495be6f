-- ===== src/Runs/Service/Begins.antt =====
-- What `_begin` changes of the service, and what it leaves.
use seapath_webui.Common.{
  Text, false, Option, none, some, ◌∷◌, ◌≡◌, ◌≢◌, ◌⊎◌, refl, inl, inr, ◌∙◌, ap, sym, arith,
  Bool-cases,
}
use seapath_webui.Runs.Models.{RunRecord, running}
use seapath_webui.Runs.Store.{Store, savable, load, save, release, lock_holder}
use seapath_webui.Runs.Service.{
  Prepared, Service, Exception, exception, Start, Begun, begun, unbegun, begin, abandon, save_begun,
  set_running, requested, record_begun, unsaved, write_seed, repair, wipe_copy,
}
use seapath_webui.Runs.Service.Stages.{save-eq-some, release_own, store-wipe_copy}

-- Nothing is raised after the `try` of `_begin`, but where the store refuses to save the record.
abbrev pub Calm : Start → Type 0
Calm start = (start.request_error ≡ none) × (start.record_error ≡ none)

-- A start either plays the run, holding the lock, or lets the lock go; it keeps the lock without
-- playing the run only where the run's record cannot be saved.
abbrev pub OnBegun : Start → Service → Service → RunRecord → Begun → Type 0
OnBegun start before after run (begun run') =
    (run'.id ≡ run.id)
    × (run'.state ≡ running)
    × (load run.id after.store ≡ some run')
    × (after.store.lock ≡ before.store.lock)
    × (after.current ≡ some run.id)
OnBegun start before after run (unbegun run' error) =
    (run'.id ≡ run.id)
    × (Calm start
        → ((savable run.id after.store ≡ savable run.id before.store)
            × (lock_holder before.store ≡ some run.id → after.store.lock ≡ none))
          ⊎ ((after.store ≡ before.store) × (savable run.id before.store ≡ false)))

pub record BeginEffect (start : Start) (before : Service) (run : RunRecord) (result : Begun)
    (after : Service) : Type 0 where
  pub same_queue : after.queue ≡ before.queue
  pub same_threads : after.threads ≡ before.threads
  pub outcome : OnBegun start before after run result

savable-release :
    (run_id k : Text) (store : Store) → savable k (release run_id store) ≡ savable k store
unfolding release
savable-release run_id k store = ground arith

abandon_lem :
    (start : Start) (run : RunRecord) (error : Exception) (service : Service)
    → let (result, after) = abandon run error service in BeginEffect start service run result after
unfolding abandon
abandon_lem start run error service = record {
  same_queue = unfold wipe_copy in ground arith;
  same_threads = unfold wipe_copy in ground arith;
  outcome = (
    refl,
    λ calm. inl (
      savable-release run.id run.id (wipe_copy run.id service).store
          ∙ ap (savable run.id) (store-wipe_copy run.id service),
      λ held.
          release_own run.id (wipe_copy run.id service).store
            (rw (store-wipe_copy run.id service) held),
    ),
  );
}

pub save-eq-none :
    (run : RunRecord) (store : Store) → save run store ≡ none → savable run.id store ≡ false
unfolding save
save-eq-none run store h = ground arith

pub save-savable_not :
    (run : RunRecord) (store : Store) → savable run.id store ≡ false → save run store ≡ none
unfolding save
save-savable_not run store h = ground arith

save_begun_lem :
    (start : Start) (run' run : RunRecord) (service : Service) (o : Option Store)
    → run'.id ≡ run.id
    → run'.state ≡ running
    → save run' service.store ≡ o
    → let (result, after) = save_begun run' (record service { current = some run.id }) o in
      BeginEffect start service run result after
unfolding save_begun
save_begun_lem start run' run service none i s e = record {
  same_queue = refl;
  same_threads = refl;
  outcome = (
    i,
    λ calm.
        inr (refl, ap (λ k. savable k service.store) (sym i) ∙ save-eq-none run' service.store e),
  );
}
save_begun_lem start run' run service (some store) i s e =
    let (loaded, same, _, _) = save-eq-some run' service.store store e in
    record {
      same_queue = refl;
      same_threads = refl;
      outcome = (i, s, ap (λ k. load k store) (sym i) ∙ loaded, same, refl);
    }

raised : (error : Text) → some error ≢ none
raised error h = cc

record_begun_lem :
    (start : Start) (error : Option Text) (run' run : RunRecord) (service : Service)
    → start.record_error ≡ error
    → run'.id ≡ run.id
    → run'.state ≡ running
    → let (result, after) = record_begun error run' (record service { current = some run.id }) in
      BeginEffect start service run result after
unfolding record_begun
record_begun_lem start (some error) run' run service e i s = record {
  same_queue = refl;
  same_threads = refl;
  outcome = (i, λ (_, written). absurd (raised error (sym e ∙ written)));
}
record_begun_lem start none run' run service e i s =
    save_begun_lem start run' run service (save run' service.store) i s refl

requested_lem :
    (start : Start) (error : Option Text) (run : RunRecord) (service : Service)
    → start.request_error ≡ error
    → let (result, after) = requested error start run service in
      BeginEffect start service run result after
unfolding requested
requested_lem start (some error) run service e = record {
  same_queue = refl;
  same_threads = refl;
  outcome = (refl, λ (request, _). absurd (raised error (sym e ∙ request)));
}
requested_lem start none run service e =
    record_begun_lem start start.record_error _ run service refl refl refl

set_running_lem :
    (start : Start) (run : RunRecord) (service : Service)
    → let (result, after) = set_running start run service in
      BeginEffect start service run result after
unfolding set_running
set_running_lem start run service = requested_lem start start.request_error run service refl

write_seed_lem :
    (seeded : Option Text) (start : Start) (run : RunRecord) (service : Service)
    → let (result, after) = write_seed seeded start run service in
      BeginEffect start service run result after
unfolding write_seed
write_seed_lem none start run service = set_running_lem start run service
write_seed_lem (some document) start run service =
    let seeding = record service {
      hashes = run.id ∷ service.hashes;
      seeded = run.id ∷ service.seeded;
    } in
    let effect = set_running_lem start run seeding in
    elim (Bool-cases (savable run.id service.store)) [
      | inl there ↦ rw there (record {
        same_queue = effect.same_queue;
        same_threads = effect.same_threads;
        outcome = effect.outcome;
      })
      | inr gone ↦ rw gone (abandon_lem start run (unsaved run.id service.store) service)
    ]

repair_lem :
    (error : Option Text) (start : Start) (prepared : Prepared) (service : Service)
    → let (result, after) = repair error start prepared service in
      BeginEffect start service prepared.run result after
unfolding repair
repair_lem (some error) start prepared service =
    abandon_lem start prepared.run (exception error) service
repair_lem none start prepared service = write_seed_lem prepared.seeded start prepared.run service

pub begin_lem :
    (start : Start) (prepared : Prepared) (service : Service)
    → let (result, after) = begin start prepared service in
      BeginEffect start service prepared.run result after
unfolding begin
begin_lem start prepared service = repair_lem start.before_launch_error start prepared service
