-- ===== src/Runs/Progress.antt =====
-- app/runs/progress.py: the events of Ansible folded into the progress of a run. An event is what the
-- code reads of the JSON object: a text that may be absent is an option, a truth value a Boolean, and
-- a failure's message what `_failure_message` finds of it.
pub mod Folds
pub mod Summary
pub mod Hidden
mod Examples
use seapath_webui.Common.{
  ℕ, ◌+◌, max, Text, codes, starts_with, is_empty, Bool, true, false, Option, none, some, List, [],
  ◌∷◌, ◌++◌, if◌then◌else◌,
}
use seapath_webui.Common.Dict.{Dict, lookup, insert, keys}
use seapath_webui.Common.Names.{union}
use seapath_webui.Runs.Models.{HostProgress, RunProgress}

-- The keys of `_HOST_RESULTS`.
pub data HostResult : Type 0 where
  runner_on_ok runner_on_failed runner_on_skipped runner_on_unreachable runner_on_async_failed :
      HostResult

pub data ResultOutcome : Type 0 where
  went_ok was_changed has_failed was_skipped not_reached was_ignored : ResultOutcome

pub record ResultData : Type 0 where
  pub host : Option Text
  pub task : Option Text
  pub role : Option Text
  pub res_changed : Bool
  pub ignore_errors : Bool
  pub duration : Option ℕ
  pub failure_message : Option Text

-- The mappings of the recap, from a host to its count.
pub record Recap : Type 0 where
  pub ok : Dict ℕ
  pub changed : Dict ℕ
  pub failures : Dict ℕ
  pub skipped : Dict ℕ
  pub dark : Dict ℕ
  pub ignored : Dict ℕ

pub data Event : Type 0 where
  playbook_on_play_start playbook_on_task_start : Option Text → Event
  host_result : HostResult → ResultData → Event
  playbook_on_stats : Recap → Event
  other_event : Event

-- `value or other`
or_text : Option Text → Option Text → Option Text
or_text none other = other
or_text (some []) other = other
or_text (some (c ∷ rest)) other = some (c ∷ rest)

-- _outcome
unfoldable pub outcome_of : HostResult → ResultData → ResultOutcome
outcome_of runner_on_ok data_read = if data_read.res_changed then was_changed else went_ok
outcome_of runner_on_failed data_read = if data_read.ignore_errors then was_ignored else has_failed
outcome_of runner_on_skipped data_read = was_skipped
outcome_of runner_on_unreachable data_read = not_reached
outcome_of runner_on_async_failed data_read =
    if data_read.ignore_errors then was_ignored else has_failed

text_of_message : Option Text → Text
text_of_message none = []
text_of_message (some message) = message

unfoldable pub tallied : ResultOutcome → ResultData → HostProgress → HostProgress
unfolding text_of_message
tallied went_ok data_read host = record host { ok = host.ok + 1 }
tallied was_changed data_read host = record host { changed = host.changed + 1 }
tallied has_failed data_read host = record host { failed = host.failed + 1 }
tallied was_skipped data_read host = record host { skipped = host.skipped + 1 }
tallied was_ignored data_read host = record host { ok = host.ok + 1; ignored = host.ignored + 1 }
tallied not_reached data_read host = record host {
  unreachable = host.unreachable + 1;
  unreachable_message =
      if is_empty host.unreachable_message
      then text_of_message data_read.failure_message
      else host.unreachable_message;
}

abbrev pub new_host : HostProgress
new_host = record {
  ok = 0;
  changed = 0;
  failed = 0;
  skipped = 0;
  unreachable = 0;
  ignored = 0;
  last_task = none;
  unreachable_message = [];
}

found_host : Option HostProgress → HostProgress
found_host none = new_host
found_host (some host) = host

-- _host
unfoldable pub host_of : Text → Dict HostProgress → HostProgress
unfolding found_host
host_of name hosts = found_host (lookup name hosts)

-- _qualified
qualified : Option Text → Option Text → Option Text
qualified none role = none
qualified (some []) role = some []
qualified task none = task
qualified task (some []) = task
qualified (some (c ∷ task)) (some (r ∷ role)) =
    if starts_with (c ∷ task) ((r ∷ role) ++ codes " :")
    then some (c ∷ task)
    else some ((r ∷ role) ++ codes " : " ++ (c ∷ task))

count_of : Option ℕ → ℕ
count_of none = 0
count_of (some n) = n

timed : Option Text → Option ℕ → Dict ℕ → Dict ℕ
unfolding count_of
timed (some (c ∷ task)) (some seconds) durations =
    insert (c ∷ task) (max (count_of (lookup (c ∷ task) durations)) seconds) durations
timed task seconds durations = durations

on_host : HostResult → ResultData → Option Text → RunProgress → RunProgress
unfolding outcome_of tallied host_of or_text
on_host kind data_read none progress = progress
on_host kind data_read (some []) progress = progress
on_host kind data_read (some (c ∷ name)) progress =
    let host = tallied (outcome_of kind data_read) data_read (host_of (c ∷ name) progress.hosts) in
    record progress {
      hosts =
          insert (c ∷ name) (record host { last_task = or_text data_read.task progress.task })
            progress.hosts;
    }

unfoldable pub recapped : Recap → Text → HostProgress → HostProgress
unfolding count_of
recapped recap name host = record host {
  ok = count_of (lookup name recap.ok);
  changed = count_of (lookup name recap.changed);
  failed = count_of (lookup name recap.failures);
  skipped = count_of (lookup name recap.skipped);
  unreachable = count_of (lookup name recap.dark);
  ignored = count_of (lookup name recap.ignored);
}

unfoldable pub named_hosts : Recap → Dict HostProgress → List Text
named_hosts recap hosts = union (keys hosts) (
    union (keys recap.ok) (
      union (keys recap.changed) (
        union (keys recap.failures)
          (union (keys recap.skipped) (union (keys recap.dark) (keys recap.ignored))))))

unfoldable pub recapped_all : Recap → List Text → Dict HostProgress → Dict HostProgress
unfolding recapped host_of
recapped_all recap [] hosts = hosts
recapped_all recap (name ∷ names) hosts =
    recapped_all recap names (insert name (recapped recap name (host_of name hosts)) hosts)

-- _apply_stats. The order in which Python visits the set of hosts is that of the list.
unfoldable pub apply_stats : Recap → RunProgress → RunProgress
unfolding recapped_all named_hosts
apply_stats recap progress = record progress {
  hosts = recapped_all recap (named_hosts recap progress.hosts) progress.hosts;
}

unfoldable pub apply_event : Event → RunProgress → RunProgress
unfolding or_text on_host timed qualified apply_stats
apply_event (playbook_on_play_start play) progress = record progress {
  play = or_text play progress.play;
}
apply_event (playbook_on_task_start task) progress = record progress {
  task = or_text task progress.task;
  tasks_started = progress.tasks_started + 1;
}
apply_event (host_result kind data_read) progress =
    let told = on_host kind data_read data_read.host progress in
    record told {
      durations = timed (qualified data_read.task data_read.role) data_read.duration told.durations;
    }
apply_event (playbook_on_stats recap) progress =
    apply_stats recap (record progress { final_status_seen = true })
apply_event other_event progress = progress

-- The events of a run, in order.
unfoldable pub apply_events : List Event → RunProgress → RunProgress
unfolding apply_event
apply_events [] progress = progress
apply_events (event ∷ events) progress = apply_events events (apply_event event progress)
