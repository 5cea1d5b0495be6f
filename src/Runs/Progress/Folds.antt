-- ===== src/Runs/Progress/Folds.antt =====
-- What a stream of events leaves in the progress.
use seapath_webui.Common.{
  ℕ, ◌+◌, Text, ◌==◌, eq_iff, Bool, true, false, ◌||◌, Option, none, some, List, [], ◌∷◌, ◌≡◌, ◌∙◌,
  ap, refl, if◌then◌else◌, arith, Bool-cases, inl, inr,
}
use seapath_webui.Common.Dict.{Dict, lookup, insert, lookup-insert}
use seapath_webui.Common.Names.{mem}
use seapath_webui.Runs.Models.{HostProgress, RunProgress}
use seapath_webui.Runs.Progress.{
  HostResult, ResultData, Recap, Event, playbook_on_play_start, playbook_on_task_start, host_result,
  playbook_on_stats, other_event, host_of, found_host, recapped, named_hosts, recapped_all,
  apply_stats, on_host, apply_event, apply_events,
}

lookup-recapped_all :
    (recap : Recap) (names : List Text) (hosts : Dict HostProgress) (k : Text)
    → lookup k (recapped_all recap names hosts)
      ≡ (if mem k names then some (recapped recap k (host_of k hosts)) else lookup k hosts)
unfolding recapped_all mem host_of
lookup-recapped_all recap [] hosts k = refl
lookup-recapped_all recap (name ∷ names) hosts k =
    let seen = recapped recap name (host_of name hosts) in
    lookup-recapped_all recap names (insert name seen hosts) k
    ∙ rw (lookup-insert name k seen hosts) (elim (Bool-cases (name == k)) [
      | inl same ↦ rw same (
          rw ((eq_iff name k).0 same) (
            unfold recapped found_host in
            elim (Bool-cases (mem k names)) [
              | inl again ↦ rw again refl
              | inr last ↦ rw last refl
            ]))
      | inr other ↦ rw other refl
    ])

-- The recap replaces the running tally of every host that the tally or the recap names: each counter
-- is the recap's count, 0 where it gives none, and the host's last task and what was said of its
-- connection stay. Any other name is looked up as before.
pub apply_stats_lem :
    (recap : Recap) (progress : RunProgress) (host : Text)
    → lookup host (apply_stats recap progress).hosts ≡ (
        if mem host (named_hosts recap progress.hosts)
        then some (recapped recap host (host_of host progress.hosts))
        else lookup host progress.hosts)
unfolding apply_stats
apply_stats_lem recap progress host =
    lookup-recapped_all recap (named_hosts recap progress.hosts) progress.hosts host

abbrev pub has_recap : List Event → Bool
has_recap [] = false
has_recap (playbook_on_stats recap ∷ events) = true
has_recap (event ∷ events) = has_recap events

abbrev pub count_tasks : List Event → ℕ
count_tasks [] = 0
count_tasks (playbook_on_task_start task ∷ events) = count_tasks events + 1
count_tasks (event ∷ events) = count_tasks events

on_host-flags :
    (kind : HostResult) (data_read : ResultData) (host : Option Text) (progress : RunProgress)
    → ((on_host kind data_read host progress).final_status_seen ≡ progress.final_status_seen)
      × ((on_host kind data_read host progress).tasks_started ≡ progress.tasks_started)
unfolding on_host
on_host-flags kind data_read none progress = (refl, refl)
on_host-flags kind data_read (some []) progress = (refl, refl)
on_host-flags kind data_read (some (c ∷ name)) progress = (refl, refl)

-- After a stream of events the recap counts as seen exactly if it was before or the stream has one,
-- wherever it stands, and the tasks counted are those counted before and the starts of the stream.
pub apply_events_lem :
    (events : List Event) (progress : RunProgress)
    → ((apply_events events progress).final_status_seen
        ≡ (progress.final_status_seen || has_recap events))
      × ((apply_events events progress).tasks_started ≡ progress.tasks_started + count_tasks events)
unfolding apply_events apply_stats
apply_events_lem [] progress = (ground arith, omega arith)
apply_events_lem (playbook_on_play_start play ∷ events) progress = apply_events_lem events _
apply_events_lem (playbook_on_task_start task ∷ events) progress =
    let rest = apply_events_lem events (apply_event (playbook_on_task_start task) progress) in
    (rest.0, omega (arith, rest.1))
apply_events_lem (host_result kind data_read ∷ events) progress =
    let rest = apply_events_lem events (apply_event (host_result kind data_read) progress) in
    let (seen, tasks) = on_host-flags kind data_read data_read.host progress in
    (rest.0 ∙ ap (λ b. b || has_recap events) seen, rest.1 ∙ ap (λ n. n + count_tasks events) tasks)
apply_events_lem (playbook_on_stats recap ∷ events) progress =
    let rest = apply_events_lem events (apply_event (playbook_on_stats recap) progress) in
    (rest.0 ∙ ground arith, rest.1)
apply_events_lem (other_event ∷ events) progress = apply_events_lem events progress
