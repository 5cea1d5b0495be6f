-- ===== src/Runs/Service/Queue.antt =====
-- The queue of `RunService`: one round of `_dispatch`, `cancel` and the reading of what is going.
use seapath_webui.Common.{
  ℕ, suc, Text, codes, ◌==◌, length, find, Bool, true, false, Option, none, some, List, [], ◌∷◌,
  map, ◌||◌, if◌then◌else◌,
}
use seapath_webui.Common.Names.{mem}
use seapath_webui.Runs.Models.{
  RunState, queued, failed, cancelled, RunRecord, could_not_start, dequeued, is_finished,
}
use seapath_webui.Runs.Store
use seapath_webui.Runs.Store.{Store, Acquired, acquired, locked}
use seapath_webui.Runs.Service.{
  Prepared, Service, Exception, api_error, Start, Begun, begun, unbegun, begin, spawn, text_of,
  unsaved,
}

pub data Turn : Type 0 where
  nothing_left not_yet : Turn
  taken : Prepared → Turn

unfoldable pub take_head : Prepared → List Prepared → Service → Acquired → Turn × Service
take_head head rest service (acquired store) =
    (taken head, record service { store = store; queue = rest; turn = false })
take_head head rest service (locked holder) = (not_yet, record service { turn = false })

unfoldable pub turn_of : List Prepared → Service → Turn × Service
unfolding take_head
turn_of [] service = (nothing_left, record service { dispatcher = false })
turn_of (head ∷ rest) service =
    take_head head rest service (Store.acquire head.run.id none service.store)

-- The part of a round under the lock of the queue, and the wait where the lock is not free.
unfoldable pub next_turn : Service → Turn × Service
unfolding turn_of
next_turn service = turn_of service.queue service

pub data Round : Type 0 where
  ended waited : Round
  playing unstarted : RunRecord → Round
  -- the exception that the handler itself raised, which ends the thread
  dispatcher_died : Exception → Round

unfoldable pub save_unstarted : RunRecord → Service → Option Store → Round × Service
unfolding unsaved
save_unstarted run service none = (dispatcher_died (unsaved run.id service.store), service)
save_unstarted run service (some store) = (unstarted run, record service { store = store })

unfoldable pub begun_or_failed : ℕ → Begun × Service → Round × Service
unfolding spawn save_unstarted text_of
begun_or_failed now (begun run, service) = (playing run, spawn run service)
begun_or_failed now (unbegun run error, service) =
    let run' = record run {
      state = failed;
      finished_at = some now;
      message = some (could_not_start (text_of error));
    } in
    save_unstarted run' service (Store.save run' service.store)

-- The rest of the round: start the head that was taken.
unfoldable pub start_head : Start → Prepared → Service → Round × Service
unfolding begun_or_failed
start_head start head service = begun_or_failed start.now (begin start head service)

unfoldable pub after_turn : Start → Turn × Service → Round × Service
unfolding start_head
after_turn start (nothing_left, service) = (ended, service)
after_turn start (not_yet, service) = (waited, service)
after_turn start (taken head, service) = start_head start head service

-- One round of the loop of RunService._dispatch.
unfoldable pub dispatch_round : Start → Service → Round × Service
unfolding after_turn
dispatch_round start service = after_turn start (next_turn service)

abbrev pub identifier : Prepared → Text
identifier prepared = prepared.run.id

-- RunService.queued
unfoldable pub waiting_runs : Service → List RunRecord
waiting_runs service = map (λ prepared. prepared.run) service.queue

-- `self._queue.remove(item)`: the first entry of that run.
unfoldable pub remove_first : Text → List Prepared → List Prepared
remove_first run_id [] = []
remove_first run_id (item ∷ items) =
    let rest = remove_first run_id items in if identifier item == run_id then items else item ∷ rest

pub data Cancelled : Type 0 where
  taken_out cancel_asked : RunRecord → Cancelled
  cancel_refused : Exception → Cancelled

unfoldable pub dequeue : RunRecord → Service → Option Store → Cancelled × Service
unfolding unsaved
dequeue run service none = (cancel_refused (unsaved run.id service.store), service)
dequeue run service (some store) = (taken_out run, record service { store = store })

unfoldable pub ask_cancel : Text → Service → Option RunRecord → Cancelled × Service
ask_cancel run_id service none = (cancel_refused (api_error (codes "unknown_run") 404), service)
ask_cancel run_id service (some run) =
    if is_finished run.state
    then (cancel_refused (api_error (codes "run_finished") 409), service)
    else (cancel_asked run, record service { cancelled = run_id ∷ service.cancelled })

unfoldable pub cancel_found : ℕ → Text → Service → Option Prepared → Cancelled × Service
unfolding dequeue ask_cancel
cancel_found now run_id service none = ask_cancel run_id service (Store.load run_id service.store)
cancel_found now run_id service (some waiting) =
    let run = record waiting.run {
      state = cancelled;
      finished_at = some now;
      message = some dequeued;
    } in
    dequeue run (record service { queue = remove_first run_id service.queue })
      (Store.save run service.store)

-- RunService.cancel
unfoldable pub cancel : ℕ → Text → Service → Cancelled × Service
unfolding cancel_found
cancel now run_id service =
    cancel_found now run_id service (find (λ item. identifier item == run_id) service.queue)

is_queued : RunState → Bool
is_queued queued = true
is_queued _ = false

unless_finished : RunRecord → Option RunRecord
unless_finished run = if is_finished run.state then none else some run

newest_unqueued : List Text → List RunRecord → Option RunRecord
unfolding is_queued unless_finished
newest_unqueued waiting [] = none
newest_unqueued waiting (run ∷ runs) =
    let rest = newest_unqueued waiting runs in
    if mem run.id waiting || is_queued run.state then rest else unless_finished run

or_else : Option RunRecord → Option RunRecord → Option RunRecord
or_else (some run) other = some run
or_else none other = other

current_run : Option Text → Store → Option RunRecord
unfolding unless_finished
current_run none store = none
current_run (some run_id) store = elim (Store.load run_id store) [
  | none ↦ none
  | some run ↦ unless_finished run
]

-- RunService.going
unfoldable pub going : Service → Option RunRecord
unfolding or_else current_run newest_unqueued
going service =
    let waiting = map (λ run. run.id) (waiting_runs service) in
    or_else (current_run service.current service.store)
      (newest_unqueued waiting (Store.list (suc (length waiting)) service.store))
