-- ===== src/Runs/Service.antt =====
-- app/runs/service.py: how a run is accepted, staged and started. The state is `Service`: what
-- `RunService` keeps, the store, the threads that are playing a run, and `hashes`, the runs whose
-- staged inventory on disk carries password hashes; `wipes` is of which runs `seed.wipe` can rewrite
-- that copy. What the outside does in an operation (staging the tree, the repair of the trust, what
-- fails once the run is about to play, the clock) is an argument, a `Staging` or a `Start`.
pub mod Queue
pub mod Ending
pub mod Advice
pub mod Stages
pub mod Begins
pub mod Launching
pub mod Turns
pub mod Cancels
pub mod System
pub mod Ends
pub mod Keeps
pub mod Drain
use seapath_webui.Common.{
  ℕ, Text, codes, ◌==◌, length, filter, is_empty, Bool, true, false, not, Option, none, some, List,
  [], ◌∷◌, ◌++◌, if◌then◌else◌,
}
use seapath_webui.Common.Dict.{has}
use seapath_webui.Common.Names.{mem}
use seapath_webui.Runs.Models.{
  RunState, queued, running, failed, RunRecord, StagedFile, Message, could_not_queue,
}
use seapath_webui.Runs.Store
use seapath_webui.Runs.Store.{Store, savable, acquired, locked, Acquired}

-- A run accepted and staged, with what it needs to start: `seeded` is the staged inventory carrying
-- the root password hashes.
pub record Prepared : Type 0 where
  pub run : RunRecord
  pub limit : Option Text
  pub seeded : Option Text

pub record Service : Type 0 where
  pub store : Store
  pub queue : List Prepared
  pub dispatcher : Bool
  pub turn : Bool
  pub current : Option Text
  pub seeded : List Text
  pub cancelled : List Text
  pub listeners : Bool
  pub threads : List RunRecord
  pub hashes : List Text
  pub wipes : Text → Bool

pub data Exception : Type 0 where
  exception : Text → Exception
  api_error : Text → ℕ → Exception
  missing_directory : Exception

-- What `seed.carrying_passwords` gives.
pub data Seeding : Type 0 where
  no_passwords : Seeding
  carried seed_refused : Text → Seeding

-- What the outside does while a run is staged.
pub record Staging : Type 0 where
  pub tree_error : Option Text
  pub files : List StagedFile
  pub seeding : Seeding
  pub play_error : Option Text

-- What the outside does while a run is started.
pub record Start : Type 0 where
  pub before_launch_error : Option Text
  -- What `_request` or `collection_version` raises, after the `try` of `_begin`.
  pub request_error : Option Text
  -- What the writing of the record raises at the end of `_begin`, beside what the store says.
  pub record_error : Option Text
  pub collection_version : Text
  pub command : List Text
  pub now : ℕ

pub data Staged : Type 0 where
  staged : Prepared → Staged
  unstaged : Prepared → Exception → Staged

refused_by : Option Text → Exception
refused_by none = missing_directory
refused_by (some error) = exception error

-- What a record that cannot be saved raises.
unfoldable pub unsaved : Text → Store → Exception
unfolding refused_by
unsaved run_id store =
    if has run_id store.runs then refused_by (store.refusal run_id) else missing_directory

unfoldable pub save_staged : Prepared → Service → Option Store → Staged × Service
unfolding unsaved
save_staged prepared service none =
    (unstaged prepared (unsaved prepared.run.id service.store), service)
save_staged prepared service (some store) = (staged prepared, record service { store = store })

unfoldable pub write_play : Option Text → Prepared → Service → Staged × Service
unfolding save_staged
write_play (some error) prepared service = (unstaged prepared (exception error), service)
write_play none prepared service =
    save_staged prepared service (Store.save prepared.run service.store)

unfoldable pub seed_copy : Seeding → Option Text → Prepared → Service → Staged × Service
unfolding write_play
seed_copy no_passwords play_error prepared service = write_play play_error prepared service
seed_copy (seed_refused error) play_error prepared service =
    (unstaged prepared (api_error (codes "invalid_seed") 400), service)
seed_copy (carried document) play_error prepared service =
    write_play play_error (record prepared { seeded = some document }) service

unfoldable pub stage_tree : Option Text → Staging → Prepared → Service → Staged × Service
unfolding seed_copy
stage_tree (some error) staging prepared service = (unstaged prepared (exception error), service)
stage_tree none staging prepared service =
    seed_copy staging.seeding staging.play_error
      (record prepared { run = record prepared.run { files = staging.files } }) service

unfoldable pub stage_created : Staging → Prepared → Service → Store × Bool → Staged × Service
unfolding stage_tree unsaved
stage_created staging prepared service (store, true) =
    stage_tree staging.tree_error staging prepared (record service { store = store })
stage_created staging prepared service (store, false) =
    (unstaged prepared (unsaved prepared.run.id store), record service { store = store })

-- RunService._stage
unfoldable pub stage : Staging → Prepared → Service → Staged × Service
unfolding stage_created
stage staging prepared service =
    stage_created staging prepared service (Store.create prepared.run service.store)

pub data Begun : Type 0 where
  begun : RunRecord → Begun
  unbegun : RunRecord → Exception → Begun

-- Take a run's name out of a set of names.
unfoldable pub discard : Text → List Text → List Text
discard run_id names = filter (λ name. not (name == run_id)) names

-- `seed.wipe` on the staged copy of a run: where it cannot read or rewrite the copy it says so in the
-- log alone, and the hashes stay.
unfoldable pub wipe : Text → Service → List Text
unfolding discard
wipe run_id service = if service.wipes run_id then discard run_id service.hashes else service.hashes

-- The wipe of the copy of a run that is in `_seeded`.
unfoldable pub wipe_copy : Text → Service → Service
unfolding wipe discard
wipe_copy run_id service =
    if mem run_id service.seeded
    then record service { hashes = wipe run_id service; seeded = discard run_id service.seeded }
    else service

-- The `except` of `_begin`.
unfoldable pub abandon : RunRecord → Exception → Service → Begun × Service
unfolding wipe_copy
abandon run error service =
    let wiped = wipe_copy run.id service in
    (unbegun run error, record wiped { store = Store.release run.id wiped.store })

unfoldable pub save_begun : RunRecord → Service → Option Store → Begun × Service
unfolding unsaved
save_begun run service none = (unbegun run (unsaved run.id service.store), service)
save_begun run service (some store) = (begun run, record service { store = store })

-- The save at the end of `_begin`, which can be refused at that moment alone.
unfoldable pub record_begun : Option Text → RunRecord → Service → Begun × Service
unfolding save_begun
record_begun (some error) run service = (unbegun run (exception error), service)
record_begun none run service = save_begun run service (Store.save run service.store)

unfoldable pub requested : Option Text → Start → RunRecord → Service → Begun × Service
unfolding record_begun
requested (some error) start run service = (unbegun run (exception error), service)
requested none start run service =
    record_begun start.record_error
      (record run {
        state = running;
        started_at = some start.now;
        collection_version = start.collection_version;
        command = start.command;
      })
      (record service { current = some run.id })

-- What follows the `try` of `_begin`. Nothing there lets go of the lock where it raises.
unfoldable pub set_running : Start → RunRecord → Service → Begun × Service
unfolding requested
set_running start run service = requested start.request_error start run service

-- Writing the seeded inventory into the staged copy fails where the run's directory is gone or the file
-- system refuses.
unfoldable pub write_seed : Option Text → Start → RunRecord → Service → Begun × Service
unfolding set_running abandon unsaved
write_seed none start run service = set_running start run service
write_seed (some document) start run service =
    if savable run.id service.store
    then set_running start run
        (record service { hashes = run.id ∷ service.hashes; seeded = run.id ∷ service.seeded })
    else abandon run (unsaved run.id service.store) service

unfoldable pub repair : Option Text → Start → Prepared → Service → Begun × Service
unfolding write_seed abandon
repair (some error) start prepared service = abandon prepared.run (exception error) service
repair none start prepared service = write_seed prepared.seeded start prepared.run service

-- RunService._begin
unfoldable pub begin : Start → Prepared → Service → Begun × Service
unfolding repair
begin start prepared service = repair start.before_launch_error start prepared service

-- RunService._spawn
unfoldable pub spawn : RunRecord → Service → Service
spawn run service = record service { threads = run ∷ service.threads }

pub data Decision : Type 0 where
  start_now wait_turn : Decision
  waiting_ahead : ℕ → Decision
  lock_held : Text → Decision

unfoldable pub decided : Bool → Service → Acquired → Decision × Service
decided queue service (acquired store) = (start_now, record service { store = store })
decided true service (locked holder) = (wait_turn, service)
decided false service (locked holder) = (lock_held holder, service)

unfoldable pub behind : Bool → Service → Decision
behind true service = wait_turn
behind false service = waiting_ahead (length service.queue)

-- The choice of `_launch`: start, wait, or refuse. A launch that asks to wait makes it under the lock
-- of the queue. One that does not lets that lock go before it takes the run lock, which `starts_late`
-- of Service/System.antt accounts for.
unfoldable pub decide : Bool → Text → Service → Decision × Service
unfolding decided behind
decide queue run_id service =
    if is_empty service.queue
    then decided queue service (Store.acquire run_id none service.store)
    else (behind queue service, service)

pub data Reply : Type 0 where
  launched queued_up : RunRecord → Reply
  refused_waiting : ℕ → Reply
  refused_locked : Text → Reply
  failed_with : Exception → Reply

unfoldable pub spawned : Begun × Service → Reply × Service
unfolding spawn
spawned (begun run, service) = (launched run, spawn run service)
spawned (unbegun run error, service) = (failed_with error, service)

unfoldable pub started : Start → Staged × Service → Reply × Service
unfolding spawned
started start (staged prepared, service) = spawned (begin start prepared service)
started start (unstaged prepared error, service) =
    (failed_with error, record service { store = Store.release prepared.run.id service.store })

-- The end of `_launch`, holding the lock: stage, begin, spawn.
unfoldable pub start_run : Staging → Start → Prepared → Service → Reply × Service
unfolding started
start_run staging start prepared service = started start (stage staging prepared service)

unfoldable pub save_unqueued : Exception → Text → Service → Option Store → Reply × Service
unfolding unsaved
save_unqueued error run_id service none = (failed_with (unsaved run_id service.store), service)
save_unqueued error run_id service (some store) =
    (failed_with error, record service { store = store })

unfoldable pub text_of : Exception → Text
text_of (exception error) = error
text_of (api_error code status) = code
text_of missing_directory = codes "No such file or directory"

unfoldable pub appended : ℕ → Staged × Service → Reply × Service
unfolding save_unqueued text_of
appended now (staged prepared, service) = (
  queued_up prepared.run,
  record service { queue = service.queue ++ prepared ∷ []; dispatcher = true },
)
appended now (unstaged prepared error, service) = save_unqueued error prepared.run.id service (
    Store.save
      (record prepared.run {
        state = failed;
        finished_at = some now;
        message = some (could_not_queue (text_of error));
      })
      service.store)

-- RunService._enqueue
unfoldable pub enqueue : ℕ → Staging → Prepared → Service → Reply × Service
unfolding appended
enqueue now staging prepared service =
    appended now
      (stage staging (record prepared { run = record prepared.run { state = queued } }) service)

unfoldable pub answered : Staging → Start → Prepared → Decision × Service → Reply × Service
answered staging start prepared (start_now, service) = start_run staging start prepared service
answered staging start prepared (wait_turn, service) = enqueue start.now staging prepared service
answered staging start prepared (waiting_ahead count, service) = (refused_waiting count, service)
answered staging start prepared (lock_held holder, service) = (refused_locked holder, service)

-- RunService._launch, once the run is checked and prepared.
unfoldable pub launch : Bool → Staging → Start → Prepared → Service → Reply × Service
unfolding answered
launch queue staging start prepared service =
    answered staging start prepared (decide queue prepared.run.id service)
