-- ===== src/Runs/Store.antt =====
-- app/runs/store.py. A directory of the store holds a readable record or none; the lock is the file
-- `.lock`, as its lines. Identifiers hold no line break, and `kept` is 0 to keep every run. What the
-- file system refuses is part of the state: `removal` is what becomes of a directory that the service
-- deletes, and `refusal` the error with which it refuses to write the record of a run, if it does.
pub mod Prune
pub mod Streams
pub mod Compaction
pub mod Listing
pub mod Reconcile
pub mod Restart
use mathlib.Core.List.{reverse}
use seapath_webui.Common.{
  ℕ, Text, codes, ◌==◌, length, drop, leb, nat_eq, is_empty, Bool, true, false, not, ◌&&◌, ◌||◌,
  Option, none, some, ◌>>=◌, List, [], ◌∷◌, ◌++◌, if◌then◌else◌,
}
use seapath_webui.Common.Dict.{Dict, lookup, insert, remove, has, keys}
use seapath_webui.Common.Names.{sorted}
use seapath_webui.Runs.Models.{
  RunState, queued, cancelled, interrupted, RunRecord, Message, rebooted, service_replaced,
  restarted, dropped_at_restart, is_going,
}

-- What `shutil.rmtree` makes of a directory: it is deleted; it fails with the record deleted already;
-- or it fails before that.
pub data Removal : Type 0 where
  deleted record_lost left_alone : Removal

pub record Store : Type 0 where
  pub kept : ℕ
  pub removal : Text → Removal
  pub refusal : Text → Option Text
  pub lock : Option (List Text)
  pub runs : Dict (Option RunRecord)

flat : Option (Option RunRecord) → Option RunRecord
flat none = none
flat (some record_read) = record_read

-- RunStore.load
unfoldable pub load : Text → Store → Option RunRecord
unfolding flat
load run_id store = flat (lookup run_id store.runs)

abbrev pub absent : Option Text → Bool
absent none = true
absent (some error) = false

-- A record can be written where the directory of the run is there and nothing refuses it.
abbrev pub savable : Text → Store → Bool
savable run_id store = has run_id store.runs && absent (store.refusal run_id)

-- RunStore.save: `none` is the OSError, where the directory is missing or the file system refuses.
unfoldable pub save : RunRecord → Store → Option Store
save run store =
    if savable run.id store
    then some (record store { runs = insert run.id (some run) store.runs })
    else none

-- The directory names, the newest first.
unfoldable pub newest : Store → List Text
newest store = reverse (sorted (keys store.runs))

-- RunStore._lock_lines, RunStore._lock_holder
unfoldable pub holder_of : Option (List Text) → Option Text
holder_of none = none
holder_of (some []) = none
holder_of (some (line ∷ lines)) = if is_empty line then none else some line

unfoldable pub lock_holder : Store → Option Text
unfolding holder_of
lock_holder store = holder_of store.lock

describe : Option (List Text) → Text
describe none = codes "Another operation"
describe (some []) = codes "Another operation"
describe (some (first ∷ [])) = codes "Run " ++ first
describe (some (first ∷ second ∷ rest)) = if is_empty second then codes "Run " ++ first else second

unfoldable pub lock_description : Store → Text
unfolding describe
lock_description store = describe store.lock

-- What `acquire` does: take the lock, or say what is holding it (`RunLocked`).
pub data Acquired : Type 0 where
  acquired : Store → Acquired
  locked : Text → Acquired

named : Text → Option Text → Text
named run_id none = codes "Run " ++ run_id
named run_id (some description) =
    if is_empty description then codes "Run " ++ run_id else description

take_lock : Text → Option Text → Option (List Text) → Store → Acquired
unfolding named
take_lock run_id description (some lines) store = locked (lock_description store)
take_lock run_id description none store =
    acquired (record store { lock = some (run_id ∷ named run_id description ∷ []) })

unfoldable pub acquire : Text → Option Text → Store → Acquired
unfolding take_lock
acquire run_id description store = take_lock run_id description store.lock store

held_by : Text → Option Text → Bool
held_by run_id none = true
held_by run_id (some holder) = holder == run_id

-- `self._lock_holder() in (run_id, None)`
unfoldable pub release : Text → Store → Store
unfolding held_by lock_holder
release run_id store =
    if held_by run_id (lock_holder store) then record store { lock = none } else store

going_record : Option RunRecord → Bool
going_record none = false
going_record (some run) = is_going run.state

same_holder : Text → Option Text → Bool
same_holder name none = false
same_holder name (some holder) = name == holder

-- Whether the body of the loop gets to the deletion of the directory of this name.
unfoldable pub prunable : Store → Text → Bool
unfolding going_record same_holder
prunable store name =
    not (same_holder name (lock_holder store)) && not (going_record (load name store))

-- `shutil.rmtree` on the directory of a run.
unfoldable pub rmtree : Removal → Text → Store → Store
rmtree deleted name store = record store { runs = remove name store.runs }
rmtree record_lost name store = record store { runs = insert name none store.runs }
rmtree left_alone name store = store

said_removed : Removal → Text → List Text → List Text
said_removed deleted name removed = name ∷ removed
said_removed fate name removed = removed

unfoldable pub prune_names : List Text → Store → List Text × Store
unfolding rmtree said_removed
prune_names [] store = ([], store)
prune_names (name ∷ names) store =
    let skipped = prune_names names store in
    let (removed, after) = prune_names names (rmtree (store.removal name) name store) in
    if prunable store name then (said_removed (store.removal name) name removed, after) else skipped

-- RunStore.prune: the names removed, and the store.
unfoldable pub prune : Store → List Text × Store
unfolding prune_names
prune store =
    if nat_eq store.kept 0 then ([], store) else prune_names (drop store.kept (newest store)) store

-- directory.mkdir(parents=True, exist_ok=True)
unfoldable pub with_directory : Text → Store → Store
with_directory run_id store =
    if has run_id store.runs then store else record store { runs = insert run_id none store.runs }

unfoldable pub created : Store → Option Store → Store × Bool
created store none = (store, false)
created store (some saved) = ((prune saved).1, true)

-- RunStore.create, the streams and the results directory aside: the store, and whether the record was
-- saved. Where it was not, the directory is left without one.
unfoldable pub create : RunRecord → Store → Store × Bool
unfolding with_directory created
create run store = let made = with_directory run.id store in created made (save run made)

with_record : List RunRecord → Option RunRecord → List RunRecord
with_record records none = records
with_record records (some run) = records ++ run ∷ []

-- The loop of `RunStore.list`: `break` once `limit` records are read.
unfoldable pub list_names : ℕ → Store → List Text → List RunRecord → List RunRecord
unfolding with_record
list_names limit store [] records = records
list_names limit store (name ∷ names) records =
    let records' = with_record records (load name store) in
    let rest = list_names limit store names records' in
    if leb limit (length records') then records' else rest

-- RunStore.list
unfoldable pub list : ℕ → Store → List RunRecord
unfolding list_names
list limit store = list_names limit store (newest store) []

-- What a start finds failing beside the writing of records: the deletion of the lock, and what the
-- compaction of the event files of a directory raises. It writes no record.
pub record StartFaults : Type 0 where
  pub unlinking : Option Text
  pub compacting : Text → Option Text

-- `(self._root / _LOCK).unlink(missing_ok=True)`
unfoldable pub unlink_lock : Option Text → Store → Option Store
unlink_lock none store = some (record store { lock = none })
unlink_lock (some error) store = none

-- `self.compact` on every directory, until one raises.
unfoldable pub compact_all : (Text → Option Text) → List Text → Store → Option Store
compact_all compacting [] store = some store
compact_all compacting (name ∷ names) store =
    let rest = compact_all compacting names store in if absent (compacting name) then rest else none

interrupted_by : Bool → Option Text → Message
interrupted_by replaces (some (c ∷ host)) = rebooted (c ∷ host)
interrupted_by true _ = service_replaced
interrupted_by false _ = restarted

-- `replaces` is whether the catalogue has an entry of that name which restarts this service.
module _ (replaces : Text → Bool) where
  unfoldable pub interrupted_message : RunRecord → Message
  unfolding interrupted_by
  interrupted_message run = interrupted_by (replaces run.playbook_id) run.ends_with_reboot

  closed : ℕ → RunState → RunRecord → Option RunRecord
  unfolding is_going
  closed now queued run =
      some (record run {
        state = cancelled;
        finished_at = some now;
        message = some dropped_at_restart;
      })
  closed now state run =
      if is_going state
      then some (record run {
        state = interrupted;
        finished_at = some now;
        message = some (interrupted_message run);
      })
      else none

  -- The record as the loop of `reconcile` closes it, where it does.
  unfoldable pub close : ℕ → RunRecord → Option RunRecord
  unfolding closed
  close now run = closed now run.state run

  -- The listeners of a run died with the process.
  cleared : RunRecord → Store → Option (RunRecord × Store)
  cleared run store =
      let quiet = record run { followups = false } in
      if run.followups
      then (do after ← save quiet store; some (quiet, after))
      else some (run, store)

  save_closed : Option RunRecord → Store → Option (List RunRecord × Store)
  save_closed none store = some ([], store)
  save_closed (some run) store = do after ← save run store; some (run ∷ [], after)

  -- The body of the loop: the record recovered, if it is one.
  unfoldable pub reconcile_one : ℕ → RunRecord → Store → Option (List RunRecord × Store)
  unfolding cleared save_closed close
  reconcile_one now run store = do
    (run', after) ← cleared run store
    save_closed (close now run') after

  unfoldable pub reconcile_records : ℕ → List RunRecord → Store → Option (List RunRecord × Store)
  reconcile_records now [] store = some ([], store)
  reconcile_records now (run ∷ runs) store = do
    (recovered, after) ← reconcile_one now run store
    (more, last) ← reconcile_records now runs after
    some (recovered ++ more, last)

  -- RunStore.reconcile: `none` is an exception.
  unfoldable pub reconcile : StartFaults → ℕ → Store → Option (List RunRecord × Store)
  unfolding unlink_lock compact_all
  reconcile faults now store = do
    (recovered, closed_store) ← reconcile_records now (list 1000 store) store
    unlocked ← unlink_lock faults.unlinking closed_store
    after ← compact_all faults.compacting (keys (prune unlocked).1.runs) (prune unlocked).1
    some (recovered, after)
