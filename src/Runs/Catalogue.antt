-- ===== src/Runs/Catalogue.antt =====
-- app/runs/catalogue.py: what an entry of the catalogue says, as far as a launch reads it.
use seapath_webui.Common.{Text, Bool, true, false, Option, List}

pub data Preview : Type 0 where
  full partial no_preview : Preview

pub data Precondition : Type 0 where
  inventory_valid self_trust peer_reachable guest_addressable seed_buildable : Precondition
  in_standalone in_cluster playbook_present distribution_matches variables_supported : Precondition

pub data VariableType : Type 0 where
  boolean machine seconds microseconds priority cpu_list workload unknown : VariableType

pub record VariableSpec : Type 0 where
  pub name : Text
  pub type : VariableType
  pub required : Bool
  pub role : Option Text

pub record PlaybookEntry : Type 0 where
  pub id : Text
  pub targets : List Text
  pub preview : Preview
  pub requires : List Precondition
  pub variables : List VariableSpec
  pub distribution : Option Text
  pub reboots_controller : Bool
  pub controller_last : Bool
  pub results_variable : Option Text
  pub scope_required : Bool

-- PlaybookEntry.previewable
unfoldable pub previewable : Preview → Bool
previewable full = true
previewable partial = true
previewable no_preview = false

unfoldable pub is_unknown : VariableType → Bool
is_unknown unknown = true
is_unknown _ = false
