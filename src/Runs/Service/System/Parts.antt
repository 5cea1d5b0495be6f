-- ===== src/Runs/Service/System/Parts.antt =====
-- What each part that a thread does makes of the lock and of the threads.
use seapath_webui.Common.{
  ℕ, ◌+◌, ◌≤◌, Text, ◌==◌, eq_refl, is_empty, length, filter, All, Bool, false, not, Option, none,
  some, List, [], ◌∷◌, ◌++◌, ◌≡◌, ◌⊎◌, refl, ◌∙◌, ap, sym, subst, arith,
}
use seapath_webui.Runs.Models.{RunRecord, RunProgress}
use seapath_webui.Runs.Store.{Store, save, acquire, acquired, lock_holder, holder_of}
use seapath_webui.Runs.Service.{
  Prepared, Service, start_now, decide, decided, behind, Reply, launched, failed_with, queued_up,
  refused_waiting, refused_locked, wipe_copy,
}
use seapath_webui.Runs.Service.Launching.{StartedIf}
use seapath_webui.Runs.Service.Queue.{
  taken, nothing_left, not_yet, next_turn, turn_of, take_head, Round, playing, unstarted,
  dispatcher_died, ended, waited, cancel, cancel_found, dequeue, ask_cancel,
}
use seapath_webui.Runs.Service.Ending.{Played, end_run, save_ended, leave_thread, let_go}
use seapath_webui.Runs.Service.Turns.{TurnedIf}
use seapath_webui.Runs.Service.System.{Job, job_id, System, Holds, IsExclusive}

pub length-middle {ℓ} :
    {A : Type ℓ} (pre post : List A) (x : A) → length (pre ++ x ∷ post) ≡ length (pre ++ post) + 1
length-middle [] post x = omega arith
length-middle (y ∷ pre) post x = omega (arith, length-middle pre post x)

pub All-middle {ℓ κ} :
    {A : Type ℓ} (P : A → Type κ) (pre post : List A) (x : A) → All P (pre ++ x ∷ post) → P x
All-middle P [] post x h = h.0
All-middle P (y ∷ pre) post x h = All-middle P pre post x h.1

pub nil_of_length {ℓ} : {A : Type ℓ} (xs : List A) → length xs ≤ 0 → xs ≡ []
nil_of_length [] h = refl
nil_of_length (x ∷ xs) h = absurd (omega arith)

pub All-nil {ℓ κ} : {A : Type ℓ} (P : A → Type κ) (xs : List A) → xs ≡ [] → All P xs
All-nil P xs e = subst (All P) (sym e) tt

-- Nothing is going on: whatever the lock is, the system is exclusive.
pub IsExclusive-idle :
    (sys : System)
    → sys.jobs ≡ []
    → sys.service.threads ≡ []
    → sys.installing ≡ []
    → IsExclusive sys
IsExclusive-idle sys j t i = record {
  few = rw (j, t, i) (omega arith);
  jobs_hold = All-nil _ sys.jobs j;
  threads_hold = All-nil _ sys.service.threads t;
  installing_hold = All-nil _ sys.installing i;
}

pub not_held :
    (service : Service) {A : Type 0} (id : Text) → service.store.lock ≡ none → Holds service id → A
unfolding lock_holder holder_of
not_held service id free held = absurd (ground arith)

-- With the lock free, nothing is going on.
module _ (sys : System) (inv : IsExclusive sys) (free : sys.service.store.lock ≡ none) where
  pub free_jobs : (jobs : List Job) → All (λ job. Holds sys.service (job_id job)) jobs → jobs ≡ []
  free_jobs [] h = refl
  free_jobs (job ∷ jobs) h = not_held sys.service (job_id job) free h.0

  pub free_threads :
      (runs : List RunRecord) → All (λ run. Holds sys.service run.id) runs → runs ≡ []
  free_threads [] h = refl
  free_threads (run ∷ runs) h = not_held sys.service run.id free h.0

  pub free_installing : (ids : List Text) → All (Holds sys.service) ids → ids ≡ []
  free_installing [] h = refl
  free_installing (id ∷ ids) h = not_held sys.service id free h.0

  pub nothing_on : (sys.jobs ≡ []) × (sys.service.threads ≡ []) × (sys.installing ≡ [])
  nothing_on = (
    free_jobs sys.jobs inv.jobs_hold,
    free_threads sys.service.threads inv.threads_hold,
    free_installing sys.installing inv.installing_hold,
  )

-- A part that keeps the lock and the threads keeps the system exclusive.
pub IsExclusive-same :
    (sys : System) (service : Service) (staging : List Prepared)
    → IsExclusive sys
    → service.store.lock ≡ sys.service.store.lock
    → service.threads ≡ sys.service.threads
    → IsExclusive (record sys { service = service; staging = staging })
unfolding lock_holder
IsExclusive-same sys service staging inv lock threads = record {
  few = rw threads inv.few;
  jobs_hold = rw lock inv.jobs_hold;
  threads_hold = rw (lock, threads) inv.threads_hold;
  installing_hold = rw lock inv.installing_hold;
}

pub no_more {ℓ} :
    {A : Type ℓ} (pre post : List A) (x : A) (b c : ℕ)
    → length (pre ++ x ∷ post) + b + c ≤ 1
    → (pre ++ post ≡ []) × (b ≡ 0) × (c ≡ 0)
no_more pre post x b c few =
    let longer = length-middle pre post x in
    (
      nil_of_length (pre ++ post) (omega (arith, longer)),
      omega (arith, longer),
      omega (arith, longer),
    )

pub nil_of_zero {ℓ} : {A : Type ℓ} (xs : List A) → length xs ≡ 0 → xs ≡ []
nil_of_zero xs h = nil_of_length xs (omega (arith, h))

-- What is taken, played or installed alone, and holds the lock, is exclusive.
pub IsExclusive-job :
    (sys : System) (service : Service) (job : Job)
    → (sys.jobs ≡ []) × (sys.service.threads ≡ []) × (sys.installing ≡ [])
    → service.threads ≡ sys.service.threads
    → Holds service (job_id job)
    → IsExclusive (record sys { service = service; jobs = job ∷ sys.jobs })
IsExclusive-job sys service job (j, t, i) same held = record {
  few = rw (j, same, t, i) (omega arith);
  jobs_hold = (held, All-nil _ sys.jobs j);
  threads_hold = All-nil _ service.threads (same ∙ t);
  installing_hold = All-nil _ sys.installing i;
}

pub IsExclusive-thread :
    (sys : System) (service : Service) (jobs : List Job) (run : RunRecord)
    → jobs ≡ []
    → sys.installing ≡ []
    → service.threads ≡ run ∷ []
    → Holds service run.id
    → IsExclusive (record sys { service = service; jobs = jobs })
IsExclusive-thread sys service jobs run j i t held = record {
  few = rw (j, t, i) (omega arith);
  jobs_hold = All-nil _ jobs j;
  threads_hold = subst (All (λ run. Holds service run.id)) (sym t) (held, tt);
  installing_hold = All-nil _ sys.installing i;
}

pub decide_lem :
    (queue : Bool) (id : Text) (service : Service)
    → is_empty id ≡ false
    → (decide queue id service).0 ≡ start_now
    → (service.store.lock ≡ none)
      × ((decide queue id service).1.threads ≡ service.threads)
      × Holds (decide queue id service).1 id
unfolding decide decided behind acquire lock_holder holder_of
decide_lem queue id service proper h = (ground arith, ground arith, ground arith)

pub taken_lem :
    (p : Prepared) (service : Service)
    → is_empty p.run.id ≡ false
    → (next_turn service).0 ≡ taken p
    → (service.store.lock ≡ none)
      × ((next_turn service).1.threads ≡ service.threads)
      × Holds (next_turn service).1 p.run.id
unfolding next_turn turn_of take_head acquire lock_holder holder_of
taken_lem p service proper h = (ground arith, ground arith, ground arith)

pub passes_lem :
    (service : Service)
    → ((next_turn service).0 ≡ nothing_left) ⊎ ((next_turn service).0 ≡ not_yet)
    → ((next_turn service).1.store.lock ≡ service.store.lock)
      × ((next_turn service).1.threads ≡ service.threads)
unfolding next_turn turn_of take_head acquire
passes_lem service h = (ground arith, ground arith)

pub cancels_lem :
    (now : ℕ) (run_id : Text) (service : Service)
    → ((cancel now run_id service).1.store.lock ≡ service.store.lock)
      × ((cancel now run_id service).1.threads ≡ service.threads)
unfolding cancel cancel_found dequeue ask_cancel save
cancels_lem now run_id service = (ground arith, ground arith)

pub save_ended-threads :
    (run : RunRecord) (service : Service) (o : Option Store)
    → (save_ended run service o).1.threads ≡ service.threads
unfolding save_ended let_go
save_ended-threads run service none = refl
save_ended-threads run service (some store) = refl

pub end_run-threads :
    (now : ℕ) (first_error : Text) (progress : RunProgress) (played : Played) (run : RunRecord)
    (service : Service)
    → (end_run now first_error progress played run service).1.threads
      ≡ filter (λ thread. not (thread.id == run.id)) service.threads
unfolding end_run leave_thread
end_run-threads now first_error progress played run service =
    save_ended-threads _ (leave_thread run.id (wipe_copy run.id service)) _
    ∙ unfold wipe_copy in ground arith

pub no_thread :
    (runs pre post : List RunRecord) (run : RunRecord)
    → runs ≡ pre ++ run ∷ post
    → pre ++ post ≡ []
    → filter (λ thread. not (thread.id == run.id)) runs ≡ []
unfolding filter
no_thread runs [] [] run e empty = rw (e, eq_refl run.id) refl
no_thread runs [] (x ∷ post) run e empty = absurd (ground (arith, empty))
no_thread runs (x ∷ pre) post run e empty = absurd (ground (arith, empty))

-- What a start leaves, of which only the reply tells: a thread, or none.
pub IsExclusive-Started :
    (calm : Type 0) (sys : System) (p : Prepared) (jobs : List Job) (reply : Reply)
    (after : Service)
    → jobs ≡ []
    → sys.service.threads ≡ []
    → sys.installing ≡ []
    → StartedIf calm sys.service after p reply
    → IsExclusive (record sys { service = after; jobs = jobs })
IsExclusive-Started calm sys p jobs (launched run) after j t i (threads, _, _, held, _, _) =
    IsExclusive-thread sys after jobs run j i (threads ∙ ap (λ l. run ∷ l) t) held
IsExclusive-Started calm sys p jobs (failed_with error) after j t i (threads, _) =
    IsExclusive-idle (record sys { service = after; jobs = jobs }) j (threads ∙ t) i
IsExclusive-Started calm sys p jobs (queued_up run) after j t i h = absurd h
IsExclusive-Started calm sys p jobs (refused_waiting count) after j t i h = absurd h
IsExclusive-Started calm sys p jobs (refused_locked holder) after j t i h = absurd h

pub IsExclusive-Turned :
    (calm : Type 0) (sys : System) (p : Prepared) (jobs : List Job) (rest : List Prepared)
    (round : Round) (after : Service)
    → jobs ≡ []
    → sys.service.threads ≡ []
    → sys.installing ≡ []
    → TurnedIf calm sys.service after p rest round
    → IsExclusive (record sys { service = after; jobs = jobs })
IsExclusive-Turned calm sys p jobs rest (playing run) after j t i (_, _, _, threads, held, _) =
    IsExclusive-thread sys after jobs run j i (threads ∙ ap (λ l. run ∷ l) t) held
IsExclusive-Turned calm sys p jobs rest (unstarted run) after j t i (_, _, _, threads, _, _) =
    IsExclusive-idle (record sys { service = after; jobs = jobs }) j (threads ∙ t) i
IsExclusive-Turned calm sys p jobs rest (dispatcher_died error) after j t i (_, threads, _) =
    IsExclusive-idle (record sys { service = after; jobs = jobs }) j (threads ∙ t) i
IsExclusive-Turned calm sys p jobs rest ended after j t i h = absurd h
IsExclusive-Turned calm sys p jobs rest waited after j t i h = absurd h

module _ (sys : System) (inv : IsExclusive sys) where
  pub only_job :
      (pre post : List Job) (job : Job)
      → sys.jobs ≡ pre ++ job ∷ post
      → (pre ++ post ≡ [])
        × (sys.service.threads ≡ [])
        × (sys.installing ≡ [])
        × Holds sys.service (job_id job)
  only_job pre post job e =
      let (none_else, threads, installing) =
        no_more pre post job (length sys.service.threads) (length sys.installing)
          (rw e at inv.few) in
      (
        none_else,
        nil_of_zero sys.service.threads threads,
        nil_of_zero sys.installing installing,
        All-middle _ pre post job
            (subst (All (λ job. Holds sys.service (job_id job))) e inv.jobs_hold),
      )

  pub only_thread :
      (pre post : List RunRecord) (run : RunRecord)
      → sys.service.threads ≡ pre ++ run ∷ post
      → (pre ++ post ≡ []) × (sys.jobs ≡ []) × (sys.installing ≡ [])
  only_thread pre post run e =
      let longer = ap length e in
      let (none_else, jobs, installing) =
        no_more pre post run (length sys.jobs) (length sys.installing)
          (omega (arith, inv.few, longer)) in
      (none_else, nil_of_zero sys.jobs jobs, nil_of_zero sys.installing installing)

  pub only_install :
      (pre post : List Text) (id : Text)
      → sys.installing ≡ pre ++ id ∷ post
      → (pre ++ post ≡ []) × (sys.jobs ≡ []) × (sys.service.threads ≡ [])
  only_install pre post id e =
      let longer = ap length e in
      let (none_else, jobs, threads) =
        no_more pre post id (length sys.jobs) (length sys.service.threads)
          (omega (arith, inv.few, longer)) in
      (none_else, nil_of_zero sys.jobs jobs, nil_of_zero sys.service.threads threads)

pub acquire_lem :
    (id : Text) (description : Option Text) (store after : Store)
    → is_empty id ≡ false
    → acquire id description store ≡ acquired after
    → (store.lock ≡ none) × (lock_holder after ≡ some id)
unfolding acquire lock_holder holder_of
acquire_lem id description store after proper h = (ground arith, ground arith)
