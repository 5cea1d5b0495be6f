-- ===== src/Runs/Progress/Examples.antt =====
-- The theorems on progress, applied to a failure of "n1" that the recap does not count.
use seapath_webui.Common.{has_char, ◌==◌, refl, inl, codes, false, none, some, List, [], ◌∷◌, ◌≡◌}
use seapath_webui.Common.Dict.{Dict, lookup}
use seapath_webui.Runs.Models.{RunProgress}
use seapath_webui.Runs.Progress.{
  Recap, Event, playbook_on_task_start, host_result, playbook_on_stats, runner_on_ok,
  runner_on_failed, outcome_of,
}
use seapath_webui.Runs.Checks.{Json, truth_of}
use seapath_webui.Runs.Progress.Summary.{
  host_event, summarise, get, result_data, is_debug, last_segment,
}
use seapath_webui.Runs.Progress.Hidden.{summarise_hides}

abbrev nothing_played : RunProgress
nothing_played = record {
  play = none;
  task = none;
  tasks_started = 0;
  durations = [];
  hosts = [];
  final_status_seen = false;
}

abbrev failure : Event
failure = host_result runner_on_failed (record {
  host = some (codes "n1");
  task = some (codes "ping");
  role = none;
  res_changed = false;
  ignore_errors = false;
  duration = some 12;
  failure_message = some (codes "no");
})

abbrev recap : Recap
recap = record {
  ok = (codes "n1", 1) ∷ [];
  changed = [];
  failures = [];
  skipped = [];
  dark = (codes "n2", 1) ∷ [];
  ignored = [];
}

abbrev events : List Event
events = playbook_on_task_start (some (codes "ping")) ∷ failure ∷ playbook_on_stats recap ∷ []

abbrev plain_task : Dict Json
plain_task = (codes "task_action", Json.text (codes "ansible.builtin.copy")) ∷ []

abbrev first_secret : Dict Json
first_secret = (codes "password", Json.text (codes "a")) ∷ []

abbrev second_secret : Dict Json
second_secret = (codes "password", Json.text (codes "b")) ∷ []

summarise_hides_example :
    summarise
      (λ v. codes "x")
      (λ d. [])
      (host_event runner_on_ok)
      (record { fields = plain_task; res = first_secret })
    ≡ summarise
        (λ v. codes "x")
        (λ d. [])
        (host_event runner_on_ok)
        (record { fields = plain_task; res = second_secret })
unfolding get truth_of outcome_of result_data is_debug last_segment has_char ◌==◌ lookup
summarise_hides_example =
    summarise_hides (λ v. codes "x") (λ d. []) runner_on_ok plain_task first_secret second_secret
      (refl, (λ h. cc), inl refl)
