-- ===== src/Runs/Checks/Values.antt =====
-- app/runs/service.py: `_checked_value`, `_bounded`, `_check_machine` and `_check_workload`. `shown` is
-- Python's `str` of a value that is no text.

pub mod Typed
pub mod Unread
use seapath_webui.Common.{
  ℕ, Text, codes, ◌==◌, is_empty, strip, Bool, true, false, Option, none, some, List, [], ◌∷◌, ◌++◌,
  if◌then◌else◌,
}
use seapath_webui.Common.Dict.{keys}
use seapath_webui.Common.Int.{ℤ, pos, within_range}
use seapath_webui.Common.Names.{mem, union}
use seapath_webui.Common.Numerals.{int_of_text}
use seapath_webui.Hosts.Cpus.{parse_cpu_list}
use seapath_webui.Inventory.Model.{Inventory, InventoryState}
use seapath_webui.Runs.Catalogue.{
  VariableType, boolean, machine, seconds, microseconds, priority, cpu_list, workload, unknown,
  VariableSpec,
}
use seapath_webui.Runs.Checks.{
  Json, null, truth, integer, real, text, sequence, mapping, Real, finite, infinite, not_a_number,
  Verdict, passes, refuses, overflows, not_a_machine, is_this_machine, not_a_workload, not_whole,
  out_of_range, not_cpus, truth_of,
}

-- What `int` makes of a value: a number, a TypeError or a ValueError, or an OverflowError.
pub data Read : Type 0 where
  whole : ℤ → Read
  unread too_large : Read

unfoldable pub read_text : Option ℤ → Read
read_text none = unread
read_text (some n) = whole n

-- int(value)
unfoldable pub integer_of : Json → Read
unfolding read_text
integer_of null = unread
integer_of (truth b) = whole (pos (if b then 1 else 0))
integer_of (integer n) = whole n
integer_of (real (finite n fraction)) = whole n
integer_of (real infinite) = too_large
integer_of (real not_a_number) = unread
integer_of (text s) = read_text (int_of_text s)
integer_of (sequence items) = unread
integer_of (mapping pairs) = unread

unfoldable pub bounded_number : Text → ℕ → ℕ → Read → Verdict Json
bounded_number name low high unread = refuses (not_whole name)
bounded_number name low high too_large = overflows
bounded_number name low high (whole n) =
    if within_range low high n then passes (integer n) else refuses (out_of_range name)

-- _bounded
unfoldable pub bounded : Text → Json → ℕ → ℕ → Verdict Json
unfolding bounded_number integer_of
bounded name value low high = bounded_number name low high (integer_of value)

abbrev pub one_day : ℕ
one_day = 86400

abbrev pub listed_cpus : Text → Text → Option (List ℕ) → Verdict Json
listed_cpus name stripped none = overflows
listed_cpus name stripped (some cpus) =
    if is_empty cpus then refuses (not_cpus name) else passes (text stripped)

unfoldable pub checked_cpus : Text → Text → Verdict Json
checked_cpus name stripped =
    if stripped == codes "smp"
    then passes (text stripped)
    else listed_cpus name stripped (parse_cpu_list (some stripped))

-- What a launch asks of the inventory for a value: its machines, this machine, the workloads that are
-- declared and those marked to be removed.
pub record Declared : Type 0 where
  pub hosts : List Text
  pub this_host : Option Text
  pub workloads : List Text
  pub removed : List Text

abbrev pub only_variable : Text
only_variable = codes "deploy_containers_cluster_only"

unfoldable pub is_host : Text → Option Text → Bool
is_host name none = false
is_host name (some host) = name == host

-- _check_machine
unfoldable pub check_machine : Declared → Text → Json → Verdict Json
unfolding is_host
check_machine declared name (text value) =
    if mem value declared.hosts
    then (if is_host value declared.this_host
        then refuses (is_this_machine name)
        else passes (text value))
    else refuses (not_a_machine name)
check_machine declared name value = refuses (not_a_machine name)

unfoldable pub workloads_for : Declared → Text → List Text
workloads_for declared name =
    if name == only_variable then union declared.workloads declared.removed else declared.workloads

-- _check_workload
unfoldable pub check_workload : Declared → Text → Json → Verdict Json
unfolding workloads_for
check_workload declared name (text value) =
    if mem value (workloads_for declared name)
    then passes (text value)
    else refuses (not_a_workload name)
check_workload declared name value = refuses (not_a_workload name)

module _ (shown : Json → Text) where
  -- str(value)
  unfoldable pub text_of_value : Json → Text
  text_of_value (text s) = s
  text_of_value value = shown value

  -- What the loop of `_accepted_variables` makes of a value, `_checked_value` included.
  unfoldable pub checked_value : Declared → VariableType → Text → Json → Verdict Json
  unfolding bounded checked_cpus check_machine check_workload text_of_value truth_of
  checked_value declared boolean name value = passes (truth (truth_of value))
  checked_value declared machine name value = check_machine declared name value
  checked_value declared seconds name value = bounded name value 1 one_day
  checked_value declared microseconds name value = bounded name value 1 1000000
  checked_value declared priority name value = bounded name value 1 98
  checked_value declared cpu_list name value = checked_cpus name (strip (text_of_value value))
  checked_value declared workload name value = check_workload declared name value
  checked_value declared unknown name value = passes value
