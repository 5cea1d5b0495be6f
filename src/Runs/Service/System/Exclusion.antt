-- ===== src/Runs/Service/System/Exclusion.antt =====
-- At most one run at a time.
use seapath_webui.Common.{none, some, [], ◌∷◌, ◌++◌, ◌≡◌, refl, ◌∙◌, arith}
use seapath_webui.Runs.Store.{release}
use seapath_webui.Runs.Service.{decide, start_run, enqueue}
use seapath_webui.Runs.Service.Begins.{Calm}
use seapath_webui.Runs.Service.Launching.{start_run_lem, enqueue-Waits}
use seapath_webui.Runs.Service.Queue.{next_turn, start_head, cancel}
use seapath_webui.Runs.Service.Ending.{end_run}
use seapath_webui.Runs.Service.Turns.{start_head-Turned}
use seapath_webui.Runs.Service.System.{
  launching, turning, System, Step, starts, starts_late, waits, enqueues, begins, takes, passes,
  turns, ends, cancels, disk_changes, installs, installed, Reach, here, next, IsExclusive,
}
use seapath_webui.Runs.Service.System.Parts.{
  All-nil, IsExclusive-idle, nothing_on, IsExclusive-same, IsExclusive-job, decide_lem, taken_lem,
  passes_lem, cancels_lem, end_run-threads, no_thread, IsExclusive-Started, IsExclusive-Turned,
  only_job, only_thread, only_install, acquire_lem,
}

pub Step-IsExclusive : (sys after : System) → IsExclusive sys → Step sys after → IsExclusive after
Step-IsExclusive sys _ inv (starts queue p proper now) =
    let (free, same, held) = decide_lem queue p.run.id sys.service proper now in
    IsExclusive-job sys (decide queue p.run.id sys.service).1 (launching p)
      (nothing_on sys inv free) same held
Step-IsExclusive sys _ inv (starts_late p store proper e) =
    let (free, held) = acquire_lem p.run.id none sys.service.store store proper e in
    IsExclusive-job sys (record sys.service { store = store }) (launching p)
      (nothing_on sys inv free) refl held
Step-IsExclusive sys _ inv (waits p choice) =
    IsExclusive-same sys sys.service (p ∷ sys.staging) inv refl refl
Step-IsExclusive sys _ inv (enqueues now outside pre post p e) =
    let effect = enqueue-Waits now outside p sys.service in
    IsExclusive-same sys (enqueue now outside p sys.service).1 (pre ++ post) inv effect.same_lock
      effect.same_threads
Step-IsExclusive sys _ inv (begins outside start pre post p e) =
    let (j, t, i, held) = only_job sys inv pre post (launching p) e in
    let (reply, after) = start_run outside start p sys.service in
    IsExclusive-Started (Calm start) sys p (pre ++ post) reply after j t i
      (start_run_lem outside start p sys.service held)
Step-IsExclusive sys _ inv (takes p proper turn) =
    let (free, same, held) = taken_lem p sys.service proper turn in
    IsExclusive-job sys (next_turn sys.service).1 (turning p) (nothing_on sys inv free) same held
Step-IsExclusive sys _ inv (passes what) =
    let (lock, threads) = passes_lem sys.service what in
    IsExclusive-same sys (next_turn sys.service).1 sys.staging inv lock threads
Step-IsExclusive sys _ inv (turns start pre post p e) =
    let (j, t, i, held) = only_job sys inv pre post (turning p) e in
    let (round, after) = start_head start p sys.service in
    IsExclusive-Turned (Calm start) sys p (pre ++ post) sys.service.queue round after j t i
      (start_head-Turned start p sys.service held)
Step-IsExclusive sys _ inv (ends now first_error progress played pre post run e) =
    let (empty, j, i) = only_thread sys inv pre post run e in
    let after = (end_run now first_error progress played run sys.service).1 in
    IsExclusive-idle (record sys { service = after }) j
      (end_run-threads now first_error progress played run sys.service
        ∙ no_thread sys.service.threads pre post run e empty)
      i
Step-IsExclusive sys _ inv (cancels now run_id) =
    let (lock, threads) = cancels_lem now run_id sys.service in
    IsExclusive-same sys (cancel now run_id sys.service).1 sys.staging inv lock threads
Step-IsExclusive sys _ inv (disk_changes removal refusal wipes) =
    let changed_service = record sys.service {
      store = record sys.service.store { removal = removal; refusal = refusal };
      wipes = wipes;
    } in
    IsExclusive-same sys changed_service sys.staging inv refl refl
Step-IsExclusive sys _ inv (installs id description store proper e) =
    let (free, held) = acquire_lem id (some description) sys.service.store store proper e in
    let (j, t, i) = nothing_on sys inv free in
    record {
      few = rw (j, t, i) (omega arith);
      jobs_hold = All-nil _ sys.jobs j;
      threads_hold = All-nil _ sys.service.threads t;
      installing_hold = (held, All-nil _ sys.installing i);
    }
Step-IsExclusive sys _ inv (installed pre post id e) =
    let (empty, j, t) = only_install sys inv pre post id e in
    IsExclusive-idle
      (record sys {
        service = record sys.service { store = release id sys.service.store };
        installing = pre ++ post;
      })
      j t empty

-- However the parts of the threads interleave, from a system in which nothing is being started,
-- played or installed, at most one run is being started or played, or one collection installed, and
-- the run lock is in its name.
pub Reach-IsExclusive :
    (sys after : System)
    → sys.jobs ≡ []
    → sys.service.threads ≡ []
    → sys.installing ≡ []
    → Reach sys after
    → IsExclusive after
Reach-IsExclusive sys _ j t i here = IsExclusive-idle sys j t i
Reach-IsExclusive sys after j t i (next {mid} path step) =
    Step-IsExclusive mid after (Reach-IsExclusive sys mid j t i path) step
