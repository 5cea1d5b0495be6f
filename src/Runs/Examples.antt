-- ===== src/Runs/Examples.antt =====
-- The theorems on the runs, applied to a node that keeps one run beside those at work: the run "r1"
-- holds the lock, "r2" waits.
use seapath_webui.Common.{
  drop, nat_eq, not, ◌&&◌, if◌then◌else◌, Bool, Option, ◌++◌, All, strip, is_space, Text, codes,
  ◌==◌, eq_iff, text_le, length, find, true, false, none, some, List, [], ◌∷◌, ◌≡◌, ◌≢◌, ◌⊎◌, ◌↔◌,
  inl, inr, refl, if◌then◌else◌, arith,
}
use seapath_webui.Common.Dict.{remove, lookup, has, keys}
use seapath_webui.Common.Int.{pos, is_zero}
use seapath_webui.Common.Names.{mem, sorted}
use seapath_webui.Runs.Store.Streams.{
  Streams, events, cut_short, append_events, events-append_events,
}
use seapath_webui.Runs.Models.{
  RunState, queued, running, success, interrupted, cancelled, failed, RunRecord, RunProgress,
  is_going,
}
use seapath_webui.Runs.Store
use seapath_webui.Runs.Store.{
  holder_of, deleted, StartFaults, Store, load, newest, list, prunable, prune, reconcile,
  lock_holder,
}
use seapath_webui.Runs.Store.Prune.{named_by, at_work, lookup-prune, prune_spares}
use seapath_webui.Runs.Store.Listing.{readable, IsNamed}
use seapath_webui.Runs.Store.Reconcile.{IsSettled}
use seapath_webui.Runs.Store.Restart.{reconcile-IsSettled}
use seapath_webui.Runs.Service.{
  Prepared, Service, Staging, Start, no_passwords, start_run, decide, launch, missing_directory,
  refused_waiting, refused_locked,
}
use seapath_webui.Runs.Service.Launching.{Waits, Started, launch-Waits, launch_refused, launch_idle}
use seapath_webui.Runs.Service.Queue.{dispatch_round, dispatcher_died, cancel, taken_out}
use seapath_webui.Runs.Service.Turns.{Turned, dispatch_round-Turned, dispatch_round_leak}
use seapath_webui.Runs.Service.Cancels.{cancel-taken_out}
use seapath_webui.Runs.Service.System.{System, Reach, here, next, starts, begins, IsExclusive}
use seapath_webui.Runs.Service.System.Exclusion.{Reach-IsExclusive}
use seapath_webui.Runs.Service.Ending.{Outcome, returned, given, final_state, end_run}
use seapath_webui.Runs.Service.Drain.{End, drain, Finished, drain_empties}
use seapath_webui.Runs.Service.Ends.{Ended, end_run-Ended, final_state_lem}

abbrev nothing_played : RunProgress
nothing_played = record {
  play = none;
  task = none;
  tasks_started = 0;
  durations = [];
  hosts = [];
  final_status_seen = false;
}

abbrev run_of : Text → RunState → RunRecord
run_of id state = record {
  id = id;
  playbook = codes "setup.yaml";
  playbook_id = codes "setup";
  state = state;
  check = false;
  started_at = none;
  finished_at = none;
  launched_by = codes "ada";
  inventory_commit = none;
  collection_version = [];
  variables = [];
  command = [];
  scope = record { groups = []; hosts = [] };
  machines = none;
  ends_with_reboot = none;
  return_code = none;
  progress = nothing_played;
  message = none;
  files = [];
  guest = none;
  followups = false;
}

abbrev prepared_of : Text → RunState → Prepared
prepared_of id state = record { run = run_of id state; limit = none; seeded = none }

abbrev r1 : RunRecord
r1 = run_of (codes "r1") running

abbrev old : RunRecord
old = run_of (codes "r1") success

abbrev r2 : Prepared
r2 = prepared_of (codes "r2") queued

abbrev new_run : Prepared
new_run = prepared_of (codes "r3") queued

abbrev free_store : Store
free_store = record {
  kept = 1;
  removal = λ name. deleted;
  refusal = λ name. none;
  lock = none;
  runs = (codes "r1", some r1) ∷ (codes "r2", some r2.run) ∷ [];
}

abbrev held_store : Store
held_store = record free_store { lock = some (codes "r1" ∷ codes "Run r1" ∷ []) }

-- r1 is being played, and r2 waits.
abbrev busy : Service
busy = record {
  store = held_store;
  queue = r2 ∷ [];
  dispatcher = true;
  turn = false;
  current = some (codes "r1");
  seeded = [];
  cancelled = [];
  listeners = false;
  threads = r1 ∷ [];
  hashes = [];
  wipes = λ name. true;
}

-- The lock is free, and r2 waits.
abbrev ready : Service
ready = record busy { store = free_store; current = none; threads = [] }

abbrev idle : Service
idle = record ready { queue = [] }

abbrev staging : Staging
staging = record { tree_error = none; files = []; seeding = no_passwords; play_error = none }

abbrev start : Start
start = record {
  before_launch_error = none;
  request_error = none;
  record_error = none;
  collection_version = codes "1.0";
  command = codes "ansible-playbook" ∷ [];
  now = 7;
}

launch_idle_example :
    let (reply, after) = launch false staging start new_run idle in Started idle after new_run reply
launch_idle_example = launch_idle false staging start new_run idle refl refl refl refl refl

launch-Waits_example :
    let (reply, after) = launch true staging start new_run busy in Waits busy after new_run reply
launch-Waits_example = launch-Waits staging start new_run busy (inl refl)

launch_refused_example :
    ((launch false staging start new_run busy).1 ≡ busy)
    × (((launch false staging start new_run busy).0 ≡ refused_waiting (length busy.queue))
        ⊎ ((launch false staging start new_run busy).0
            ≡ refused_locked (Store.lock_description busy.store)))
launch_refused_example = launch_refused staging start new_run busy (inl refl)

dispatch_round-Turned_example :
    let (round, after) = dispatch_round start ready in Turned ready after r2 [] round
dispatch_round-Turned_example = dispatch_round-Turned start ready r2 [] refl refl refl refl refl

-- The directory of r2 is gone.
abbrev gone : Service
gone = record ready { store = record free_store { runs = (codes "r1", some r1) ∷ [] } }

dispatch_round_leak_example :
    let (round, after) = dispatch_round start gone in
    (round ≡ dispatcher_died missing_directory)
    × (lock_holder after.store ≡ some (codes "r2"))
    × (after.threads ≡ [])
    × (after.queue ≡ [])
    × (after.dispatcher ≡ true)
unfolding has ◌==◌
dispatch_round_leak_example = dispatch_round_leak start gone r2 [] refl refl refl refl refl refl

cancel-taken_out_example :
    let (answer, after) = cancel 9 (codes "r2") busy in
    (run : RunRecord) × (front back : List Prepared) × (answer ≡ taken_out run)
    × (run.id ≡ codes "r2")
    × (run.state ≡ cancelled)
    × (load (codes "r2") after.store ≡ some run)
    × (r2 ∷ [] ≡ front ++ r2 ∷ back)
    × All (λ other. (other.run.id == codes "r2") ≡ false) front
    × (after.queue ≡ front ++ back)
    × (after.store.lock ≡ busy.store.lock)
    × (after.threads ≡ busy.threads)
    × (after.cancelled ≡ busy.cancelled)
unfolding find ◌==◌ load lookup
cancel-taken_out_example = cancel-taken_out 9 (codes "r2") busy r2 refl (λ h. absurd (cc h)) refl

abbrev zero_code : Outcome
zero_code = record { return_code = pos 0; was_cancelled = false; error = none }

abbrev recap : RunProgress
recap = record nothing_played { tasks_started = 3; final_status_seen = true }

final_state_lem_example :
    ((final_state zero_code recap ≡ cancelled) ↔ (zero_code.was_cancelled ≡ true))
    × ((final_state zero_code recap ≡ interrupted) ↔ (
        (zero_code.was_cancelled ≡ false)
        × (given zero_code.error ≡ false)
        × (recap.final_status_seen ≡ false)
        × (recap.tasks_started ≢ 0)))
    × ((final_state zero_code recap ≡ success) ↔ (
        (zero_code.was_cancelled ≡ false)
        × (given zero_code.error ≡ false)
        × (recap.final_status_seen ≡ true)
        × (is_zero zero_code.return_code ≡ true)))
    × ((final_state zero_code recap ≢ cancelled)
        → (final_state zero_code recap ≢ interrupted)
        → (final_state zero_code recap ≢ success)
        → final_state zero_code recap ≡ failed)
final_state_lem_example = final_state_lem zero_code recap

end_run-Ended_example :
    let (saved, after) = end_run 9 [] recap (returned zero_code) r1 busy in
    (ended : RunRecord) × (saved ≡ some ended)
    × (mem (codes "r1") after.hashes ≡ false)
    × Ended busy after (codes "r1") ended
unfolding load lookup ◌==◌ mem
end_run-Ended_example =
    end_run-Ended 9 [] recap (returned zero_code) r1 busy (λ h. absurd (cc h)) refl refl (λ h. h)

abbrev success_end : End
success_end = record { now = 9; first_error = []; progress = recap; played = returned zero_code }

drain_empties_example :
    let after = drain ((start, success_end) ∷ []) ready in
    (after.queue ≡ []) × (after.store.lock ≡ none) × (Finished (codes "r2") after × Unit {0})
unfolding load lookup ◌==◌ mem
drain_empties_example =
    drain_empties ready ((start, success_end) ∷ []) refl refl ((refl, refl), tt)
      ((refl, (λ h. absurd (cc h)), refl), tt)

-- r1 is over, and r2 is the newest.
abbrev over_store : Store
over_store = record free_store { runs = (codes "r1", some old) ∷ (codes "r2", some r2.run) ∷ [] }

lookup-prune_example : lookup (codes "r1") (prune over_store).1.runs ≡ (
    if not (nat_eq 1 0)
      && mem (codes "r1") (drop 1 (newest over_store))
      && not (named_by (codes "r1") (lock_holder over_store))
      && not (at_work (load (codes "r1") over_store))
    then none
    else lookup (codes "r1") over_store.runs)
lookup-prune_example = lookup-prune over_store (codes "r1")

-- r1, which is over, is what is pruned.
pruned : keys (prune over_store).1.runs ≡ codes "r2" ∷ []
unfolding prune newest sorted keys remove load lookup text_le ◌==◌ is_going lock_holder prunable
pruned = refl

prune_spares_example : load (codes "r1") (prune held_store).1 ≡ some r1
unfolding load lookup ◌==◌ is_going
prune_spares_example = prune_spares held_store (codes "r1") r1 refl (inr refl)

free_store-IsNamed : IsNamed free_store
unfolding load lookup
free_store-IsNamed k run h = ground (arith, eq_iff (codes "r1") k, eq_iff (codes "r2") k)

two_read : length (readable free_store (newest free_store)) ≡ 2
unfolding readable newest load lookup sorted keys text_le ◌==◌
two_read = refl

abbrev healthy : StartFaults
healthy = record { unlinking = none; compacting = λ name. none }

reconcile-IsSettled_example :
    (recovered : List RunRecord) × (after : Store) × (reconcile (λ name. false) healthy 9 free_store
      ≡ some (recovered, after))
    × (after.lock ≡ none)
    × ((k : Text) (run : RunRecord) → load k after ≡ some run → IsSettled run)
reconcile-IsSettled_example =
    reconcile-IsSettled (λ name. false) 9 healthy free_store refl (λ k. refl) (λ k. refl)
      free_store-IsNamed (omega (arith, two_read))

-- Nothing is going on, and r3 is launched.
abbrev system : System
system = record { service = idle; jobs = []; staging = []; installing = [] }

abbrev launched_system : System
launched_system = record system {
  service = (start_run staging start new_run (decide false (codes "r3") idle).1).1;
}

path : Reach system launched_system
unfolding decide Store.acquire
path = next (next here (starts false new_run refl refl)) (begins staging start [] [] new_run refl)

Reach-IsExclusive_example : IsExclusive launched_system
Reach-IsExclusive_example = Reach-IsExclusive system launched_system refl refl refl path

abbrev dumped : Bool → Text
dumped true = codes "1"
dumped false = codes "0"

abbrev loaded : Text → Option Bool
loaded s = if s == codes "1" then some true else (if s == codes "0" then some false else none)

abbrev no_stream : Streams
no_stream = record {
  events_file = none;
  log_file = none;
  site_inventory = none;
  flat_inventory = none;
}

events-append_events_example :
    events dumped loaded 1 (
      cut_short dumped loaded
        (codes "{")
        (append_events dumped loaded (true ∷ false ∷ []) no_stream))
    ≡ false ∷ []
unfolding strip is_space ◌==◌
events-append_events_example =
    events-append_events dumped loaded 1 (true ∷ false ∷ []) (codes "{") no_stream refl
      (((refl, tt), refl, refl), (((refl, tt), refl, refl), tt)) (refl, tt) (inl refl)
