-- ===== src/Runs/Service/System.antt =====
-- One run at a time. The threads of the service interleave between the parts that each of them does
-- without letting go of the queue's lock or of the run lock: the choice of a launch, the start of a
-- run that has taken the lock, the staging of a run that is to wait, a turn of the dispatcher, the
-- end of a run, a cancellation, and the installation of a collection, which takes the same lock. Between
-- them the file system may begin or cease to refuse.
pub mod Parts
pub mod Exclusion
use seapath_webui.Common.{
  ℕ, ◌+◌, ◌≤◌, Text, ◌==◌, eq_refl, is_empty, length, length-append, filter, All, Bool, true, false,
  not, Option, none, some, List, [], ◌∷◌, ◌++◌, map, ◌≡◌, ◌⊎◌, inl, inr, refl, ◌∙◌, ap, sym, subst,
  if◌then◌else◌, arith, Option-cases,
}
use seapath_webui.Runs.Models.{RunRecord, RunProgress}
use seapath_webui.Runs.Store
use seapath_webui.Runs.Store.{
  Removal, Store, save, acquire, release, acquired, lock_holder, holder_of, Acquired,
}
use seapath_webui.Runs.Service.{
  Prepared, Service, Staging, Start, Decision, start_now, wait_turn, decide, decided, behind,
  start_run, enqueue, Reply, launched, failed_with, queued_up, refused_waiting, refused_locked,
  wipe_copy,
}
use seapath_webui.Runs.Service.Launching.{Started, start_run_lem, enqueue-Waits}
use seapath_webui.Runs.Service.Queue.{
  Turn, taken, nothing_left, not_yet, next_turn, turn_of, take_head, start_head, Round, playing,
  unstarted, dispatcher_died, ended, waited, cancel, cancel_found, dequeue, ask_cancel,
}
use seapath_webui.Runs.Service.Ending.{Played, end_run, save_ended, leave_thread, let_go}
use seapath_webui.Runs.Service.Turns.{Turned, start_head-Turned}

-- A run that has taken the lock and that no thread plays yet: a launch's, or a turn of the queue's.
pub data Job : Type 0 where
  launching turning : Prepared → Job

abbrev pub job_id : Job → Text
job_id (launching prepared) = prepared.run.id
job_id (turning prepared) = prepared.run.id

pub record System : Type 0 where
  pub service : Service
  pub jobs : List Job
  pub staging : List Prepared
  pub installing : List Text

pub data Step (sys : System) : System → Type 0 where
  starts :
      (queue : Bool) (p : Prepared)
      → is_empty p.run.id ≡ false
      → (decide queue p.run.id sys.service).0 ≡ start_now
      → Step sys (record sys {
        service = (decide queue p.run.id sys.service).1;
        jobs = launching p ∷ sys.jobs;
      })
  starts_late :
      (p : Prepared) (store : Store)
      → is_empty p.run.id ≡ false
      → acquire p.run.id none sys.service.store ≡ acquired store
      → Step sys (record sys {
        service = record sys.service { store = store };
        jobs = launching p ∷ sys.jobs;
      })
  waits :
      (p : Prepared)
      → (decide true p.run.id sys.service).0 ≡ wait_turn
      → Step sys (record sys { staging = p ∷ sys.staging })
  enqueues :
      (now : ℕ) (outside : Staging) (pre post : List Prepared) (p : Prepared)
      → sys.staging ≡ pre ++ p ∷ post
      → Step sys
          (record sys { service = (enqueue now outside p sys.service).1; staging = pre ++ post })
  begins :
      (outside : Staging) (start : Start) (pre post : List Job) (p : Prepared)
      → sys.jobs ≡ pre ++ launching p ∷ post
      → Step sys
          (record sys { service = (start_run outside start p sys.service).1; jobs = pre ++ post })
  takes :
      (p : Prepared)
      → is_empty p.run.id ≡ false
      → (next_turn sys.service).0 ≡ taken p
      → Step sys (record sys { service = (next_turn sys.service).1; jobs = turning p ∷ sys.jobs })
  passes :
      ((next_turn sys.service).0 ≡ nothing_left) ⊎ ((next_turn sys.service).0 ≡ not_yet)
      → Step sys (record sys { service = (next_turn sys.service).1 })
  turns :
      (start : Start) (pre post : List Job) (p : Prepared)
      → sys.jobs ≡ pre ++ turning p ∷ post
      → Step sys (record sys { service = (start_head start p sys.service).1; jobs = pre ++ post })
  ends :
      (now : ℕ) (first_error : Text) (progress : RunProgress) (played : Played)
      (pre post : List RunRecord) (run : RunRecord)
      → sys.service.threads ≡ pre ++ run ∷ post
      → Step sys
          (record sys { service = (end_run now first_error progress played run sys.service).1 })
  cancels :
      (now : ℕ) (run_id : Text)
      → Step sys (record sys { service = (cancel now run_id sys.service).1 })
  -- what the file system refuses changes
  disk_changes :
      (removal : Text → Removal) (refusal : Text → Option Text) (wipes : Text → Bool)
      → Step sys (record sys {
        service = record sys.service {
          store = record sys.service.store { removal = removal; refusal = refusal };
          wipes = wipes;
        };
      })
  installs :
      (id description : Text) (store : Store)
      → is_empty id ≡ false
      → acquire id (some description) sys.service.store ≡ acquired store
      → Step sys (record sys {
        service = record sys.service { store = store };
        installing = id ∷ sys.installing;
      })
  installed :
      (pre post : List Text) (id : Text)
      → sys.installing ≡ pre ++ id ∷ post
      → Step sys (record sys {
        service = record sys.service { store = release id sys.service.store };
        installing = pre ++ post;
      })

pub data Reach (sys : System) : System → Type 0 where
  here : Reach sys sys
  next : {mid last : System} → Reach sys mid → Step mid last → Reach sys last

abbrev pub Holds : Service → Text → Type 0
Holds service id = lock_holder service.store ≡ some id

-- At most one run is being started or played, or one collection installed, and it holds the lock.
pub record IsExclusive (sys : System) : Type 0 where
  pub few : length sys.jobs + length sys.service.threads + length sys.installing ≤ 1
  pub jobs_hold : All (λ job. Holds sys.service (job_id job)) sys.jobs
  pub threads_hold : All (λ run. Holds sys.service run.id) sys.service.threads
  pub installing_hold : All (Holds sys.service) sys.installing
