-- ===== src/Runs/Service/Stages.antt =====
-- What `_stage` changes of the service, and what it leaves.
use seapath_webui.Common.{
  false, true, Bool, Text, ◌==◌, eq_refl, true, Option, none, some, ◌≡◌, ◌≢◌, refl, ◌∙◌,
  if◌then◌else◌, arith,
}
use seapath_webui.Common.Dict.{insert, lookup-insert, lookup-has_not, has-insert}
use seapath_webui.Runs.Models.{RunRecord}
use seapath_webui.Runs.Store.{
  with_directory, created, Store, savable, load, save, create, release, lock_holder,
}
use seapath_webui.Runs.Store.Prune.{lock-prune}
use seapath_webui.Runs.Service.{
  stage_created, Prepared, Service, Seeding, no_passwords, carried, seed_refused, Staging, Staged,
  staged, unstaged, stage, save_staged, write_play, seed_copy, stage_tree, wipe_copy,
}

pub save-eq-some :
    (run : RunRecord) (store after : Store)
    → save run store ≡ some after
    → (load run.id after ≡ some run)
      × (after.lock ≡ store.lock)
      × (savable run.id after ≡ true)
      × (after.refusal ≡ store.refusal)
unfolding save load
save-eq-some run store after h = ground (
  arith,
  lookup-insert run.id run.id (some run) store.runs,
  eq_refl run.id,
  has-insert run.id run.id (some run) store.runs,
)

pub save-ne-none :
    (run : RunRecord) (store : Store)
    → load run.id store ≢ none
    → store.refusal run.id ≡ none
    → save run store ≢ none
unfolding save load
save-ne-none run store here willing h = here (ground (arith, lookup-has_not run.id store.runs))

pub stored-save :
    (run : RunRecord) (store : Store)
    → load run.id store ≢ none
    → store.refusal run.id ≡ none
    → (after : Store) × (save run store ≡ some after)
      × (after.lock ≡ store.lock)
      × ((k : Text) → load k after ≡ (if run.id == k then some run else load k store))
unfolding save load
stored-save run store here willing = (
  record store { runs = insert run.id (some run) store.runs },
  ground (arith, lookup-has_not run.id store.runs),
  refl,
  λ k. ground (arith, lookup-insert run.id k (some run) store.runs),
)

pub release_own :
    (run_id : Text) (store : Store)
    → lock_holder store ≡ some run_id
    → (release run_id store).lock ≡ none
unfolding release
release_own run_id store h = rw h (ground (arith, eq_refl run_id))

pub load-release : (run_id k : Text) (store : Store) → load k (release run_id store) ≡ load k store
unfolding load release
load-release run_id k store = ground arith

pub store-wipe_copy :
    (run_id : Text) (service : Service) → (wipe_copy run_id service).store ≡ service.store
unfolding wipe_copy
store-wipe_copy run_id service = ground arith

-- What staging gives for a run, in the store that it leaves.
abbrev pub StagedFor : RunRecord → Store → Staged → Type 0
StagedFor run store (staged entry) =
    (entry.run.id ≡ run.id)
    × (entry.run.state ≡ run.state)
    × (load entry.run.id store ≡ some entry.run)
    × (savable entry.run.id store ≡ true)
StagedFor run store (unstaged entry error) = entry.run.id ≡ run.id

pub record StageEffect (before : Service) (run : RunRecord) (result : Staged) (after : Service)
    : Type 0 where
  pub same_queue : after.queue ≡ before.queue
  pub same_threads : after.threads ≡ before.threads
  pub same_lock : after.store.lock ≡ before.store.lock
  pub outcome : StagedFor run after.store result

module _ (run : RunRecord) where
  save_staged_lem :
      (prepared : Prepared) (service : Service) (o : Option Store)
      → prepared.run.id ≡ run.id
      → prepared.run.state ≡ run.state
      → save prepared.run service.store ≡ o
      → let (result, after) = save_staged prepared service o in StageEffect service run result after
  unfolding save_staged
  save_staged_lem prepared service none i s e = record {
    same_queue = refl;
    same_threads = refl;
    same_lock = refl;
    outcome = i;
  }
  save_staged_lem prepared service (some store) i s e =
      let (loaded, same, again, _) = save-eq-some prepared.run service.store store e in
      record {
        same_queue = refl;
        same_threads = refl;
        same_lock = same;
        outcome = (i, s, loaded, again);
      }

  write_play_lem :
      (error : Option Text) (prepared : Prepared) (service : Service)
      → prepared.run.id ≡ run.id
      → prepared.run.state ≡ run.state
      → let (result, after) = write_play error prepared service in
        StageEffect service run result after
  unfolding write_play
  write_play_lem (some error) prepared service i s = record {
    same_queue = refl;
    same_threads = refl;
    same_lock = refl;
    outcome = i;
  }
  write_play_lem none prepared service i s =
      save_staged_lem prepared service (save prepared.run service.store) i s refl

  seed_copy_lem :
      (seeding : Seeding) (error : Option Text) (prepared : Prepared) (service : Service)
      → prepared.run.id ≡ run.id
      → prepared.run.state ≡ run.state
      → let (result, after) = seed_copy seeding error prepared service in
        StageEffect service run result after
  unfolding seed_copy
  seed_copy_lem no_passwords error prepared service i s = write_play_lem error prepared service i s
  seed_copy_lem (seed_refused reason) error prepared service i s = record {
    same_queue = refl;
    same_threads = refl;
    same_lock = refl;
    outcome = i;
  }
  seed_copy_lem (carried document) error prepared service i s =
      write_play_lem error (record prepared { seeded = some document }) service i s

lock-with_directory :
    (run_id : Text) (store : Store) → (with_directory run_id store).lock ≡ store.lock
unfolding with_directory
lock-with_directory run_id store = ground arith

lock-created :
    (run : RunRecord) (store : Store) (o : Option Store)
    → save run store ≡ o
    → (created store o).0.lock ≡ store.lock
unfolding created
lock-created run store none e = refl
lock-created run store (some saved) e =
    let (_, same, _, _) = save-eq-some run store saved e in lock-prune saved ∙ same

lock-create : (run : RunRecord) (store : Store) → (create run store).0.lock ≡ store.lock
unfolding create
lock-create run store =
    let made = with_directory run.id store in
    lock-created run made (save run made) refl ∙ lock-with_directory run.id store

stage_tree_lem :
    (error : Option Text) (staging : Staging) (prepared : Prepared) (service : Service)
    → let (result, after) = stage_tree error staging prepared service in
      StageEffect service prepared.run result after
unfolding stage_tree
stage_tree_lem (some error) staging prepared service = record {
  same_queue = refl;
  same_threads = refl;
  same_lock = refl;
  outcome = refl;
}
stage_tree_lem none staging prepared service =
    seed_copy_lem prepared.run staging.seeding staging.play_error
      (record prepared { run = record prepared.run { files = staging.files } }) service refl refl

stage_created_lem :
    (staging : Staging) (prepared : Prepared) (service : Service) (o : Store × Bool)
    → o.0.lock ≡ service.store.lock
    → let (result, after) = stage_created staging prepared service o in
      StageEffect service prepared.run result after
unfolding stage_created
stage_created_lem staging prepared service (store, true) same =
    let made = record service { store = store } in
    let effect = stage_tree_lem staging.tree_error staging prepared made in
    record {
      same_queue = effect.same_queue;
      same_threads = effect.same_threads;
      same_lock = effect.same_lock ∙ same;
      outcome = effect.outcome;
    }
stage_created_lem staging prepared service (store, false) same = record {
  same_queue = refl;
  same_threads = refl;
  same_lock = same;
  outcome = refl;
}

pub stage_lem :
    (staging : Staging) (prepared : Prepared) (service : Service)
    → let (result, after) = stage staging prepared service in
      StageEffect service prepared.run result after
unfolding stage
stage_lem staging prepared service =
    stage_created_lem staging prepared service (create prepared.run service.store)
      (lock-create prepared.run service.store)
