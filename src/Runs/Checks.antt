-- ===== src/Runs/Checks.antt =====
-- app/runs/service.py: what a launch checks before anything is locked or written. A value that a caller
-- gives is what the JSON of its request can hold, and a refusal is an `ApiError` or, for an infinite
-- number, the OverflowError of `int`; `raises` is its ValueError on the subscript of a pattern.
pub mod Values
pub mod Variables
pub mod Preconditions
pub mod Launch
mod Examples
use seapath_webui.Common.{
  ℕ, Text, Bool, true, false, not, ◌&&◌, ◌||◌, Option, none, some, List, [], ◌∷◌, is_empty, ◌≡◌,
  refl, if◌then◌else◌,
}
use seapath_webui.Common.Dict.{Dict}
use seapath_webui.Common.Int.{ℤ, is_zero}
use seapath_webui.Runs.Scope.{ScopeRefused}
use seapath_webui.Runs.Catalogue.{Precondition}

-- A float: its whole part towards zero, and whether it has a fraction.
pub data Real : Type 0 where
  finite : ℤ → Bool → Real
  infinite not_a_number : Real

mutual
  pub data Json : Type 0 where
    null : Json
    truth : Bool → Json
    integer : ℤ → Json
    real : Real → Json
    text : Text → Json
    sequence : Items → Json
    mapping : Pairs → Json

  pub data Items : Type 0 where
    no_items : Items
    item : Json → Items → Items

  pub data Pairs : Type 0 where
    no_pairs : Pairs
    pair : Text → Json → Pairs → Pairs

-- Why an entry cannot be launched, one constructor for each sentence.
pub data Reason : Type 0 where
  no_inventory no_trust no_address no_guest no_seed_role no_seed_tool no_cluster no_standalone :
      Reason
  invalid_inventory unreachable_machines malformed_seeds unfillable : List Text → Reason
  no_account not_shipped : Reason
  wrong_distribution : Text → Reason

pub data Refusal : Type 0 where
  scope_refused : ScopeRefused → Refusal
  scope_required not_previewable : Refusal
  controller_in_scope controller_not_alone : List Text → Refusal
  precondition_failed : List (Precondition × Reason) → Refusal
  unknown_variable missing_variable role_ignores : List Text → Refusal
  not_a_machine is_this_machine not_a_workload not_whole out_of_range not_cpus : Text → Refusal

pub data Verdict (A : Type 0) : Type 0 where
  passes : A → Verdict A
  refuses : Refusal → Verdict A
  overflows raises : Verdict A

infixl 5 ◌>>=◌
abbrev pub ◌>>=◌ : {A B : Type 0} → Verdict A → (A → Verdict B) → Verdict B
passes a >>= f = f a
refuses why >>= f = refuses why
overflows >>= f = overflows
raises >>= f = raises

pub >>=-eq-passes :
    {A B : Type 0} (m : Verdict A) (f : A → Verdict B) {b : B}
    → (m >>= f) ≡ passes b
    → (a : A) × (m ≡ passes a) × (f a ≡ passes b)
>>=-eq-passes (passes a) f h = (a, refl, h)
>>=-eq-passes (refuses why) f h = cc
>>=-eq-passes overflows f h = cc
>>=-eq-passes raises f h = cc

pub passes-injective : {A : Type 0} (a b : A) → passes a ≡ passes b → a ≡ b
passes-injective a b h = cc

-- A guard that a pass has met.
pub when_passes :
    {A : Type 0} (b : Bool) (m : Verdict A) (why : Refusal) {v : A}
    → (if b then m else refuses why) ≡ passes v
    → (b ≡ true) × (m ≡ passes v)
when_passes true m why h = (refl, h)
when_passes false m why h = cc

-- A refusal that a pass has not met.
pub unless_passes :
    {A : Type 0} (b : Bool) (m : Verdict A) (why : Refusal) {v : A}
    → (if b then refuses why else m) ≡ passes v
    → (b ≡ false) × (m ≡ passes v)
unless_passes true m why h = cc
unless_passes false m why h = (refl, h)

is_no_items : Items → Bool
is_no_items no_items = true
is_no_items (item value items) = false

is_no_pairs : Pairs → Bool
is_no_pairs no_pairs = true
is_no_pairs (pair name value pairs) = false

real_truth : Real → Bool
real_truth (finite whole fraction) = not (is_zero whole) || fraction
real_truth infinite = true
real_truth not_a_number = true

-- bool(value)
unfoldable pub truth_of : Json → Bool
unfolding is_no_items is_no_pairs real_truth
truth_of null = false
truth_of (truth b) = b
truth_of (integer n) = not (is_zero n)
truth_of (real r) = real_truth r
truth_of (text s) = not (is_empty s)
truth_of (sequence items) = not (is_no_items items)
truth_of (mapping pairs) = not (is_no_pairs pairs)
