-- ===== src/Runs/Progress/Summary.antt =====
-- app/runs/progress.py: what the run view receives of an event. `res` is the mapping under that key of
-- the event's data, empty where there is none; `shown` is Python's `str` and `dumped` its `json.dumps`.
use seapath_webui.Common.{
  Text, codes, ◌==◌, nat_eq, take, has_char, starts_with, Bool, true, false, not, ◌&&◌, Option,
  none, some, List, [], ◌∷◌, ◌++◌, map, filter, if◌then◌else◌, ◌≡◌, ◌⊎◌,
}
use seapath_webui.Common.Dict.{Dict, lookup}
use seapath_webui.Common.Names.{mem}
use seapath_webui.Runs.Checks.{Json, Pairs, truth_of}
use seapath_webui.Runs.Progress.{
  HostResult, ResultOutcome, went_ok, was_changed, has_failed, was_skipped, not_reached,
  was_ignored, ResultData, outcome_of,
}

pub data EventName : Type 0 where
  play_start task_start stats_event other : EventName
  host_event : HostResult → EventName

pub record EventData : Type 0 where
  pub fields : Dict Json
  pub res : Dict Json

pub record ResultSummary : Type 0 where
  pub host : Json
  pub task : Json
  pub outcome : ResultOutcome
  pub seconds : Json
  pub message : Option Text
  pub output : Option Text

pub data Summary : Type 0 where
  play_summary : Json → Summary
  task_summary : (task : Json) → (play : Json) → Summary
  result_summary : ResultSummary → Summary
  stats_summary : Dict Json → Summary

abbrev or_null : Option Json → Json
or_null none = Json.null
or_null (some value) = value

-- d.get(k)
unfoldable pub get : Text → Dict Json → Json
unfolding lookup
get k d = or_null (lookup k d)

unfoldable pub result_data : EventData → ResultData
unfolding get truth_of
result_data data_read = record {
  host = none;
  task = none;
  role = none;
  res_changed = truth_of (get (codes "changed") (data_read.res));
  ignore_errors = truth_of (get (codes "ignore_errors") (data_read.fields));
  duration = none;
  failure_message = none;
}

-- s.rsplit(".", 1)[-1]
unfoldable pub last_segment : Text → Text
unfolding has_char
last_segment [] = []
last_segment (c ∷ s) =
    let deeper = last_segment s in
    if has_char b'.' s then deeper else if nat_eq c b'.' then s else c ∷ s

abbrev bookkeeping : List Text
bookkeeping =
    codes "changed"
    ∷ codes "failed"
    ∷ codes "skipped"
    ∷ codes "rescued"
    ∷ codes "ignored"
    ∷ codes "warnings"
    ∷ codes "deprecations"
    ∷ []

unfoldable pub is_shown : Text × Json → Bool
unfolding starts_with mem
is_shown (key, value) = not (starts_with key (codes "_ansible")) && not (mem key bookkeeping)

abbrev pub shows_message : ResultOutcome → Bool
shows_message went_ok = false
shows_message was_changed = false
shows_message has_failed = true
shows_message was_skipped = false
shows_message not_reached = true
shows_message was_ignored = true

abbrev or_mapping : Json → Json
or_mapping value = if truth_of value then value else Json.mapping Pairs.no_pairs

-- _stats
unfoldable pub stats_of : Dict Json → Dict Json
unfolding get truth_of
stats_of fields =
    map (λ k. (k, or_mapping (get k fields)))
      (codes "ok"
        ∷ codes "changed"
        ∷ codes "failures"
        ∷ codes "dark"
        ∷ codes "skipped"
        ∷ codes "rescued"
        ∷ codes "ignored"
        ∷ [])

module _ (shown : Json → Text) (dumped : Dict Json → Text) where
  -- _qualified
  unfoldable pub qualified_json : Dict Json → Json
  unfolding get truth_of starts_with
  qualified_json fields =
      let task = get (codes "task") fields in
      let role = get (codes "role") fields in
      if (truth_of task && truth_of role)
        && not (starts_with (shown task) (shown role ++ codes " :"))
      then Json.text (shown role ++ (codes " : " ++ shown task))
      else task

  -- str(value or "")
  abbrev text_or_empty : Json → Text
  text_or_empty value = if truth_of value then shown value else []

  unfoldable pub is_debug : Dict Json → Bool
  unfolding get last_segment ◌==◌ truth_of
  is_debug fields = last_segment (text_or_empty (get (codes "task_action") fields)) == codes "debug"

  abbrev pub printed : Dict Json → Option Text
  printed [] = none
  printed ((key, value) ∷ []) =
      if key == codes "msg"
      then some (take 2000 (shown value))
      else some (take 2000 (dumped ((key, value) ∷ [])))
  printed (first ∷ second ∷ rest) = some (take 2000 (dumped (first ∷ second ∷ rest)))

  -- _debug_output
  unfoldable pub debug_output : EventData → Option Text
  unfolding is_debug get truth_of is_shown filter
  debug_output data_read =
      if not (is_debug (data_read.fields))
      then none
      else if truth_of (get (codes "_ansible_no_log") (data_read.res))
      then none
      else printed (filter is_shown (data_read.res))

  -- _failure_message
  unfoldable pub failure_message : Dict Json → Option Text
  unfolding get truth_of
  failure_message res =
      let message = get (codes "msg") res in
      let error = get (codes "stderr") res in
      let reason = get (codes "reason") res in
      if truth_of message
      then some (take 2000 (shown message))
      else if truth_of error
      then some (take 2000 (shown error))
      else if truth_of reason
      then some (take 2000 (shown reason))
      else none

  unfoldable pub message_of : ResultOutcome → Dict Json → Option Text
  unfolding failure_message
  message_of outcome res = if shows_message outcome then failure_message res else none

  unfoldable pub result_of : HostResult → EventData → ResultSummary
  unfolding outcome_of result_data get qualified_json message_of debug_output
  result_of result data_read =
      let outcome = outcome_of result (result_data data_read) in
      record {
        host = get (codes "host") (data_read.fields);
        task = qualified_json (data_read.fields);
        outcome = outcome;
        seconds = get (codes "duration") (data_read.fields);
        message = message_of outcome (data_read.res);
        output = debug_output data_read;
      }

  -- The shape the run view receives over the event stream.
  unfoldable pub summarise : EventName → EventData → Option Summary
  unfolding get qualified_json result_of stats_of
  summarise play_start data_read = some (play_summary (get (codes "play") (data_read.fields)))
  summarise task_start data_read =
      some
        (task_summary (qualified_json (data_read.fields)) (get (codes "play") (data_read.fields)))
  summarise (host_event result) data_read = some (result_summary (result_of result data_read))
  summarise stats_event data_read = some (stats_summary (stats_of (data_read.fields)))
  summarise other data_read = none

  -- The part of a result's payload that the run view gets: whether the task changed something, why it
  -- failed where it did, and what a `debug` task that is not under `no_log` printed.
  abbrev pub Alike : HostResult → Dict Json → Dict Json → Dict Json → Type 0
  Alike result fields res other_res =
      (truth_of (get (codes "changed") res) ≡ truth_of (get (codes "changed") other_res))
      × (shows_message (outcome_of result (result_data (record { fields = fields; res = res })))
            ≡ true
          → failure_message res ≡ failure_message other_res)
      × ((is_debug fields ≡ false)
          ⊎ ((truth_of (get (codes "_ansible_no_log") res) ≡ true)
              × (truth_of (get (codes "_ansible_no_log") other_res) ≡ true)))
