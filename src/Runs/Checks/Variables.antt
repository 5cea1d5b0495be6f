-- ===== src/Runs/Checks/Variables.antt =====
-- app/runs/service.py: `_accepted_variables` and `undeclared`. `role_declares` is whether the installed
-- role declares a variable, and `catalogued` what the catalogue says an identifier is.
pub mod Accepted
use seapath_webui.Common.{
  Text, Bool, true, false, not, ◌&&◌, filter, is_empty, Option, none, some, List, [], ◌∷◌,
  if◌then◌else◌,
}
use seapath_webui.Common.Dict.{Dict, lookup, insert, has, keys}
use seapath_webui.Common.Names.{sorted}
use seapath_webui.Runs.Catalogue.{VariableSpec, PlaybookEntry}
use seapath_webui.Runs.Checks.{
  Json, Verdict, passes, refuses, unknown_variable, missing_variable, role_ignores, ◌>>=◌,
}
use seapath_webui.Runs.Checks.Values.{Declared, checked_value}

-- {spec.name: spec for spec in entry.variables}
unfoldable pub specs_by_name : List VariableSpec → Dict VariableSpec → Dict VariableSpec
specs_by_name [] found = found
specs_by_name (spec ∷ specs) found = specs_by_name specs (insert spec.name spec found)

unfoldable pub specs_of : PlaybookEntry → Dict VariableSpec
unfolding specs_by_name
specs_of entry = specs_by_name entry.variables []

-- [name for name, spec in declared.items() if spec.required and name not in supplied]
unfoldable pub missing_of : Dict VariableSpec → Dict Json → List Text
missing_of [] supplied = []
missing_of ((name, spec) ∷ specs) supplied =
    let rest = missing_of specs supplied in
    if spec.required && not (has name supplied) then name ∷ rest else rest

module _ (role_declares : Text → Text → Bool) where
  unfoldable pub role_lacks : Text → Option Text → Bool
  role_lacks name none = false
  role_lacks name (some role) = not (is_empty role) && not (role_declares role name)

  unfoldable pub spec_lacks : Text → Option VariableSpec → Bool
  unfolding role_lacks
  spec_lacks name none = false
  spec_lacks name (some spec) = role_lacks name spec.role

  -- The variables that `undeclared` names: empty where it answers nothing.
  unfoldable pub undeclared : Option PlaybookEntry → List Text → List Text
  unfolding spec_lacks
  undeclared none names = []
  undeclared (some entry) names =
      filter (λ name. spec_lacks name (lookup name (specs_of entry))) names

unfoldable pub unknown_names : Dict VariableSpec → Dict Json → List Text
unknown_names specs supplied = filter (λ name. not (has name specs)) (keys supplied)

-- The end of a step of the loop: a name that is not declared has been refused before.
abbrev pub checked_spec : (VariableSpec → Verdict Json) → Option VariableSpec → Verdict Json
checked_spec check none = refuses (unknown_variable [])
checked_spec check (some spec) = check spec

module _ (shown : Json → Text) (declared : Declared) where
  -- The loop of `_accepted_variables`.
  unfoldable pub checked_items : Dict VariableSpec → Dict Json → Verdict (Dict Json)
  checked_items specs [] = passes []
  checked_items specs ((name, value) ∷ items) = do
    v ← checked_spec (λ spec. checked_value shown declared spec.type name value) (lookup name specs)
    rest ← checked_items specs items
    passes ((name, v) ∷ rest)

  module _ (role_declares : Text → Text → Bool) (catalogued : Text → Option PlaybookEntry) where
    -- _accepted_variables
    unfoldable pub accepted_variables : PlaybookEntry → Dict Json → Verdict (Dict Json)
    unfolding specs_of missing_of undeclared unknown_names checked_items
    accepted_variables entry supplied =
        if not (is_empty (unknown_names (specs_of entry) supplied))
        then refuses (unknown_variable (sorted (unknown_names (specs_of entry) supplied)))
        else if not (is_empty (missing_of (specs_of entry) supplied))
        then refuses (missing_variable (missing_of (specs_of entry) supplied))
        else if not (is_empty (undeclared role_declares (catalogued entry.id) (keys supplied)))
        then refuses (role_ignores (undeclared role_declares (catalogued entry.id) (keys supplied)))
        else checked_items (specs_of entry) supplied
