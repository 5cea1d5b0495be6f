-- ===== src/Runs/Models.antt =====
-- app/runs/models.py, and the sentences that a record can carry as a data type.
use seapath_webui.Common.{ℕ, Text, Bool, true, false, ltb, ◌||◌, Option, List}
use seapath_webui.Common.Dict.{Dict}
use seapath_webui.Common.Int.{ℤ}

pub data RunState : Type 0 where
  queued pending running success failed cancelled interrupted : RunState

pub record StagedFile : Type 0 where
  pub path : Text
  pub size : ℕ
  pub source : Text

pub record HostProgress : Type 0 where
  pub ok : ℕ
  pub changed : ℕ
  pub failed : ℕ
  pub skipped : ℕ
  pub unreachable : ℕ
  pub ignored : ℕ
  pub last_task : Option Text
  pub unreachable_message : Text

-- HostProgress.reached
unfoldable pub reached : HostProgress → Bool
reached host = ltb 0 host.ok || ltb 0 host.changed || ltb 0 host.failed || ltb 0 host.skipped

pub record RunProgress : Type 0 where
  pub play : Option Text
  pub task : Option Text
  pub tasks_started : ℕ
  -- hundredths of a second
  pub durations : Dict ℕ
  pub hosts : Dict HostProgress
  pub final_status_seen : Bool

-- What a caller asked the run to be narrowed to.
pub record RunScope : Type 0 where
  pub groups : List Text
  pub hosts : List Text

-- One constructor for each sentence that a record's `message` can be.
pub data Message : Type 0 where
  could_not_queue could_not_start adapter_error raised_error : Text → Message
  dequeued dropped_at_restart service_replaced restarted : Message
  rebooted : Text → Message
  stopped_before_any_machine : Text → Message
  no_final_status : List Text → Message
  cancelled_part_way : Message
  host_failed : Message
  hosts_unreachable : List Text → List Text → Message

pub record RunRecord : Type 0 where
  pub id : Text
  pub playbook : Text
  pub playbook_id : Text
  pub state : RunState
  pub check : Bool
  pub started_at : Option ℕ
  pub finished_at : Option ℕ
  pub launched_by : Text
  pub inventory_commit : Option Text
  pub collection_version : Text
  -- values as their JSON text
  pub variables : Dict Text
  pub command : List Text
  pub scope : RunScope
  pub machines : Option (List Text)
  pub ends_with_reboot : Option Text
  pub return_code : Option ℤ
  pub progress : RunProgress
  pub message : Option Message
  pub files : List StagedFile
  pub guest : Option Text
  pub followups : Bool

-- RunRecord.finished
unfoldable pub is_finished : RunState → Bool
is_finished success = true
is_finished failed = true
is_finished cancelled = true
is_finished interrupted = true
is_finished _ = false

-- `state in (RunState.PENDING, RunState.RUNNING)`
unfoldable pub is_going : RunState → Bool
is_going pending = true
is_going running = true
is_going _ = false
