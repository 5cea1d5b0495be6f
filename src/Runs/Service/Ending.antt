-- ===== src/Runs/Service/Ending.antt =====
-- The end of a run: `_final_state`, `_final_message`, and the `finally` of `_execute`.
use seapath_webui.Common.{
  ℕ, Text, ◌==◌, filter, is_empty, ltb, nat_eq, Bool, true, false, not, Option, none, some, List,
  [], ◌∷◌, if◌then◌else◌,
}
use seapath_webui.Common.Dict.{Dict}
use seapath_webui.Common.Int.{ℤ, is_zero}
use seapath_webui.Common.Names.{sorted}
use seapath_webui.Runs.Models.{
  RunState, success, failed, cancelled, interrupted, HostProgress, reached, RunProgress, RunRecord,
  Message, adapter_error, raised_error, rebooted, stopped_before_any_machine, no_final_status,
  cancelled_part_way, host_failed, hosts_unreachable,
}
use seapath_webui.Runs.Store
use seapath_webui.Runs.Store.{Store}
use seapath_webui.Runs.Service.{Service, wipe_copy, discard}

-- What `RunAdapter.execute` answers; a raised exception is `crashed`.
pub record Outcome : Type 0 where
  pub return_code : ℤ
  pub was_cancelled : Bool
  pub error : Option Text

pub data Played : Type 0 where
  returned : Outcome → Played
  crashed : Text → Played

-- The truth value of an optional text.
unfoldable pub given : Option Text → Bool
given none = false
given (some text) = not (is_empty text)

-- RunService._final_state
unfoldable pub final_state : Outcome → RunProgress → RunState
unfolding given
final_state outcome progress =
    if outcome.was_cancelled
    then cancelled
    else if given outcome.error
    then failed
    else if not progress.final_status_seen
    then (if nat_eq progress.tasks_started 0 then failed else interrupted)
    else if is_zero outcome.return_code
    then success
    else failed

-- The names of the hosts that pass a test, in the order of the mapping.
unfoldable pub hosts_where : (HostProgress → Bool) → Dict HostProgress → List Text
hosts_where test [] = []
hosts_where test ((name, host) ∷ hosts) =
    let rest = hosts_where test hosts in if test host then name ∷ rest else rest

-- The sentence of `_why_it_stopped`, without the advice on connections.
unfoldable pub why_it_stopped : Dict HostProgress → Message
unfolding hosts_where
why_it_stopped hosts =
    let unreachable = sorted (hosts_where (λ host. ltb 0 host.unreachable) hosts) in
    let failures = sorted (hosts_where (λ host. ltb 0 host.failed) hosts) in
    if is_empty unreachable then host_failed else hosts_unreachable failures unreachable

text_or_empty : Option Text → Text
text_or_empty none = []
text_or_empty (some text) = text

ended_message : Text → RunProgress → Option Text → RunState → Option Message
unfolding why_it_stopped
ended_message first_error progress reboot failed =
    if nat_eq progress.tasks_started 0
    then some (stopped_before_any_machine first_error)
    else some (why_it_stopped progress.hosts)
ended_message first_error progress reboot interrupted =
    if given reboot
    then some (rebooted (text_or_empty reboot))
    else some (no_final_status (sorted (hosts_where reached progress.hosts)))
ended_message first_error progress reboot cancelled = some cancelled_part_way
ended_message first_error progress reboot state = none

-- RunService._final_message; `first_error` is what `_first_error` reads in the log.
unfoldable pub final_message : Text → Outcome → RunProgress → RunRecord → Option Message
unfolding ended_message text_or_empty given
final_message first_error outcome progress run =
    if given outcome.error
    then some (adapter_error (text_or_empty outcome.error))
    else ended_message first_error progress run.ends_with_reboot run.state

-- The record after the `try` of `_execute`.
unfoldable pub judged : Text → RunProgress → Played → RunRecord → RunRecord
unfolding final_state final_message
judged first_error progress (returned outcome) run =
    let run' = record run {
      return_code = some outcome.return_code;
      state = final_state outcome progress;
    } in
    record run' { message = final_message first_error outcome progress run' }
judged first_error progress (crashed error) run = record run {
  state = failed;
  message = some (raised_error error);
}

unfoldable pub forget_current : Text → Option Text → Option Text
forget_current run_id none = none
forget_current run_id (some playing) = if playing == run_id then none else some playing

unfoldable pub let_go : Text → Service → Service
unfolding forget_current discard
let_go run_id service = record service {
  store = Store.release run_id service.store;
  current = forget_current run_id service.current;
  turn = true;
  cancelled = discard run_id service.cancelled;
}

-- The thread plays no more, whether or not the record could be saved.
unfoldable pub leave_thread : Text → Service → Service
leave_thread run_id service = record service {
  threads = filter (λ run. not (run.id == run_id)) service.threads;
}

unfoldable pub save_ended : RunRecord → Service → Option Store → Option RunRecord × Service
unfolding let_go
save_ended run service none = (none, service)
save_ended run service (some store) = (some run, let_go run.id (record service { store = store }))

-- The `finally` of RunService._execute: the record that was saved, if it could be.
unfoldable pub end_run :
    ℕ → Text → RunProgress → Played → RunRecord → Service → Option RunRecord × Service
unfolding judged wipe_copy save_ended leave_thread
end_run now first_error progress played run service =
    let wiped = leave_thread run.id (wipe_copy run.id service) in
    let run' = record (judged first_error progress played run) {
      finished_at = some now;
      progress = progress;
      followups = service.listeners;
    } in
    save_ended run' wiped (Store.save run' wiped.store)

-- What follows the listeners of a run.
unfoldable pub end_listeners : RunRecord → Store → Option Store
end_listeners run store =
    if run.followups then Store.save (record run { followups = false }) store else some store
