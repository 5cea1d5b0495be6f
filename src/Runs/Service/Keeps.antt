-- ===== src/Runs/Service/Keeps.antt =====
-- What the start and the end of a run leave of the other runs: their records, and what the file system
-- refuses.
use seapath_webui.Common.{
  ℕ, Text, ◌==◌, eq_refl, false, Option, none, some, ◌≡◌, ◌≢◌, refl, ap, sym, ◌∙◌, subst, inl, inr,
  if◌then◌else◌, arith, Bool-cases,
}
use seapath_webui.Common.Dict.{lookup-insert}
use seapath_webui.Runs.Models.{RunRecord, RunProgress, failed, could_not_start}
use seapath_webui.Runs.Store.{Store, savable, release, load, save}
use seapath_webui.Runs.Service.{
  Prepared, Service, Exception, exception, Start, Begun, begun, unbegun, begin, abandon, save_begun,
  set_running, requested, record_begun, unsaved, write_seed, repair, wipe_copy, spawn, text_of,
}
use seapath_webui.Runs.Service.Stages.{load-release, store-wipe_copy, save-ne-none, save-eq-some}
use seapath_webui.Runs.Service.Begins.{begin_lem, OnBegun}
use seapath_webui.Runs.Service.Ending.{Played, save_ended, leave_thread, let_go, end_run}
use seapath_webui.Runs.Service.Ends.{judged-finished}
use seapath_webui.Runs.Service.Queue.{
  Round, dispatcher_died, save_unstarted, begun_or_failed, start_head,
}

pub record Keeps (before after : Service) (run_id : Text) : Type 0 where
  pub others : (k : Text) → (run_id == k) ≡ false → load k after.store ≡ load k before.store
  pub stays : load run_id before.store ≢ none → load run_id after.store ≢ none
  pub refusals : after.store.refusal ≡ before.store.refusal

pub nothing_changed :
    (before after : Service) (run_id : Text)
    → ((k : Text) → load k after.store ≡ load k before.store)
    → after.store.refusal ≡ before.store.refusal
    → Keeps before after run_id
nothing_changed before after run_id loads refusals = record {
  others = λ k other. loads k;
  stays = λ here gone. here (sym (loads run_id) ∙ gone);
  refusals = refusals;
}

pub both_keep :
    (a b c : Service) (run_id : Text) → Keeps a b run_id → Keeps b c run_id → Keeps a c run_id
both_keep a b c run_id first second = record {
  others = λ k other. second.others k other ∙ first.others k other;
  stays = λ here. second.stays (first.stays here);
  refusals = second.refusals ∙ first.refusals;
}

loads-save :
    (run : RunRecord) (before after : Store) (k : Text)
    → save run before ≡ some after
    → load k after ≡ (if run.id == k then some run else load k before)
unfolding save load
loads-save run before after k h = ground (arith, lookup-insert run.id k (some run) before.runs)

pub Keeps-wipe_copy :
    (run_id : Text) (service : Service) → Keeps service (wipe_copy run_id service) run_id
Keeps-wipe_copy run_id service = record {
  others = λ k other. ap (load k) (store-wipe_copy run_id service);
  stays = λ here gone. here (ap (load run_id) (sym (store-wipe_copy run_id service)) ∙ gone);
  refusals = ap (λ s. s.refusal) (store-wipe_copy run_id service);
}

pub Keeps-save :
    (run : RunRecord) (service : Service) (store : Store) (run_id : Text)
    → run.id ≡ run_id
    → save run service.store ≡ some store
    → Keeps service (record service { store = store }) run_id
Keeps-save run service store run_id same saved = record {
  others = λ k other.
      loads-save run service.store store k saved ∙ rw (ap (λ i. i == k) same ∙ other) refl;
  stays = λ here gone. missing (
      sym (
        loads-save run service.store store run_id saved
        ∙ rw (ap (λ i. i == run_id) same ∙ eq_refl run_id) refl)
      ∙ gone);
  refusals = let (_, _, _, kept) = save-eq-some run service.store store saved in kept;
}
  where
    missing : some run ≡ none → ⊥
    missing e = cc

refusal-release : (run_id : Text) (store : Store) → (release run_id store).refusal ≡ store.refusal
unfolding release
refusal-release run_id store = ground arith

Keeps-abandon :
    (run : RunRecord) (error : Exception) (service : Service)
    → Keeps service (abandon run error service).1 run.id
unfolding abandon
Keeps-abandon run error service =
    both_keep service (wipe_copy run.id service) _ run.id (Keeps-wipe_copy run.id service) (
      nothing_changed _ _ run.id (λ k. load-release run.id k (wipe_copy run.id service).store)
        (refusal-release run.id (wipe_copy run.id service).store))

Keeps-save_begun :
    (run : RunRecord) (run_id : Text) (service : Service) (o : Option Store)
    → run.id ≡ run_id
    → save run service.store ≡ o
    → Keeps service (save_begun run service o).1 run_id
unfolding save_begun
Keeps-save_begun run run_id service none same saved =
    nothing_changed service service run_id (λ k. refl) refl
Keeps-save_begun run run_id service (some store) same saved =
    Keeps-save run service store run_id same saved

Keeps-record_begun :
    (error : Option Text) (run : RunRecord) (run_id : Text) (service : Service)
    → run.id ≡ run_id
    → Keeps service (record_begun error run service).1 run_id
unfolding record_begun
Keeps-record_begun (some error) run run_id service same =
    nothing_changed service service run_id (λ k. refl) refl
Keeps-record_begun none run run_id service same =
    Keeps-save_begun run run_id service (save run service.store) same refl

Keeps-requested :
    (error : Option Text) (start : Start) (run : RunRecord) (service : Service)
    → Keeps service (requested error start run service).1 run.id
unfolding requested
Keeps-requested (some error) start run service =
    nothing_changed service service run.id (λ k. refl) refl
Keeps-requested none start run service =
    let current = record service { current = some run.id } in
    both_keep service current _ run.id (nothing_changed service current run.id (λ k. refl) refl)
      (Keeps-record_begun start.record_error _ run.id current refl)

Keeps-set_running :
    (start : Start) (run : RunRecord) (service : Service)
    → Keeps service (set_running start run service).1 run.id
unfolding set_running
Keeps-set_running start run service = Keeps-requested start.request_error start run service

Keeps-write_seed :
    (seeded : Option Text) (start : Start) (run : RunRecord) (service : Service)
    → Keeps service (write_seed seeded start run service).1 run.id
unfolding write_seed
Keeps-write_seed none start run service = Keeps-set_running start run service
Keeps-write_seed (some document) start run service =
    elim (Bool-cases (savable run.id service.store)) [
      | inl there ↦ rw there (
          both_keep service _ _ run.id (nothing_changed service _ run.id (λ k. refl) refl)
            (Keeps-set_running start run _))
      | inr gone ↦ rw gone (Keeps-abandon run (unsaved run.id service.store) service)
    ]

pub Keeps-begin :
    (start : Start) (head : Prepared) (service : Service)
    → Keeps service (begin start head service).1 head.run.id
unfolding begin
Keeps-begin start head service = from start.before_launch_error
  where
    from : (o : Option Text) → Keeps service (repair o start head service).1 head.run.id
    from none = unfold repair in Keeps-write_seed head.seeded start head.run service
    from (some error) = unfold repair in Keeps-abandon head.run (exception error) service

-- A round that ends with the dispatcher alive.
abbrev pub Lives : Round → Type 0
Lives (dispatcher_died error) = ⊥
Lives _ = Unit

Keeps-save_unstarted :
    (run : RunRecord) (run_id : Text) (service : Service) (o : Option Store)
    → run.id ≡ run_id
    → load run_id service.store ≢ none
    → service.store.refusal run_id ≡ none
    → save run service.store ≡ o
    → let (round, after) = save_unstarted run service o in Keeps service after run_id × Lives round
unfolding save_unstarted
Keeps-save_unstarted run run_id service none same here willing saved = absurd (
    save-ne-none run service.store (λ gone. here (ap (λ k. load k service.store) (sym same) ∙ gone))
      (ap service.store.refusal same ∙ willing) saved)
Keeps-save_unstarted run run_id service (some store) same here willing saved =
    (Keeps-save run service store run_id same saved, tt)

Keeps-begun_or_failed :
    (now : ℕ) (run_id : Text) (service : Service) (result : Begun)
    → load run_id service.store ≢ none
    → service.store.refusal run_id ≡ none
    → ((run : RunRecord) (error : Exception) → result ≡ unbegun run error → run.id ≡ run_id)
    → let (round, after) = begun_or_failed now (result, service) in
      Keeps service after run_id × Lives round
unfolding begun_or_failed spawn
Keeps-begun_or_failed now run_id service (begun run) here willing same =
    (nothing_changed _ _ run_id (λ k. refl) refl, tt)
Keeps-begun_or_failed now run_id service (unbegun run error) here willing same =
    let run' = record run {
      state = failed;
      finished_at = some now;
      message = some (could_not_start (text_of error));
    } in
    Keeps-save_unstarted run' run_id service (save run' service.store) (same run error refl) here
      willing refl

pub Keeps-start_head :
    (start : Start) (head : Prepared) (service : Service)
    → load head.run.id service.store ≢ none
    → service.store.refusal head.run.id ≡ none
    → let (round, after) = start_head start head service in
      Keeps service after head.run.id × Lives round
unfolding start_head
Keeps-start_head start head service here willing =
    let (result, after) = begin start head service in
    let first = Keeps-begin start head service in
    let (second, lives) =
      Keeps-begun_or_failed start.now head.run.id after result (first.stays here)
        (ap (λ r. r head.run.id) first.refusals ∙ willing)
        (λ run error e. own after run error (
          subst (OnBegun start service after head.run) e (begin_lem start head service).outcome)) in
    (both_keep service after _ head.run.id first second, lives)
  where
    own :
        (after : Service) (run : RunRecord) (error : Exception)
        → OnBegun start service after head.run (unbegun run error)
        → run.id ≡ head.run.id
    own after run error (same, _) = same

Keeps-save_ended :
    (run : RunRecord) (run_id : Text) (service : Service) (o : Option Store)
    → run.id ≡ run_id
    → save run service.store ≡ o
    → let (saved, after) = save_ended run service o in
      Keeps service after run_id × (after.queue ≡ service.queue)
unfolding save_ended let_go
Keeps-save_ended run run_id service none same saved =
    (nothing_changed service service run_id (λ k. refl) refl, refl)
Keeps-save_ended run run_id service (some store) same saved = (
  both_keep service (record service { store = store }) _ run_id
      (Keeps-save run service store run_id same saved)
      (nothing_changed _ _ run_id (λ k. load-release run.id k store)
        (refusal-release run.id store)),
  refl,
)

queue-wipe_copy :
    (run_id : Text) (service : Service) → (wipe_copy run_id service).queue ≡ service.queue
unfolding wipe_copy
queue-wipe_copy run_id service = ground arith

pub Keeps-end_run :
    (now : ℕ) (first_error : Text) (progress : RunProgress) (played : Played) (run : RunRecord)
    (service : Service)
    → let (saved, after) = end_run now first_error progress played run service in
      Keeps service after run.id × (after.queue ≡ service.queue)
unfolding end_run leave_thread
Keeps-end_run now first_error progress played run service =
    let wiped = leave_thread run.id (wipe_copy run.id service) in
    let (kept, queue) =
      Keeps-save_ended _ run.id wiped _ (judged-finished first_error progress played run).1 refl in
    (
      both_keep service (wipe_copy run.id service) _ run.id (Keeps-wipe_copy run.id service)
          (both_keep _ wiped _ run.id (nothing_changed _ wiped run.id (λ k. refl) refl) kept),
      queue ∙ queue-wipe_copy run.id service,
    )
