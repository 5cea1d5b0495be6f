-- ===== src/Runs/Checks/Variables/Accepted.antt =====
-- What the variables of an accepted launch are.
use seapath_webui.Common.{
  Text, ◌==◌, eq_iff, Bool, true, false, not, ◌&&◌, filter, is_empty, Option, none, some, List, [],
  ◌∷◌, ◌≡◌, refl, ap, sym, ◌∙◌, subst, inl, inr, if◌then◌else◌, arith, Bool-cases,
}
use seapath_webui.Common.Dict.{Dict, lookup, has, keys}
use seapath_webui.Common.Names.{mem, mem-filter}
use seapath_webui.Runs.Catalogue.{VariableSpec, PlaybookEntry}
use seapath_webui.Runs.Checks.{Json, passes, >>=-eq-passes, passes-injective, unless_passes}
use seapath_webui.Runs.Checks.Values.{Declared, checked_value}
use seapath_webui.Runs.Checks.Values.Typed.{Allowed, checked_value_sound}
use seapath_webui.Runs.Checks.Variables.{
  specs_of, missing_of, spec_lacks, undeclared, unknown_names, checked_spec, checked_items,
  accepted_variables,
}

module _ (shown : Json → Text) (declared : Declared) where
  -- Every value is allowed to the variable of its name.
  abbrev pub AllAllowed : Dict VariableSpec → Dict Json → Type 0
  AllAllowed specs [] = Unit
  AllAllowed specs ((name, value) ∷ items) =
      ((spec : VariableSpec) × (lookup name specs ≡ some spec)
        × Allowed declared spec.type name value)
      × AllAllowed specs items

  checked_spec_sound :
      (specs : Dict VariableSpec) (name : Text) (value v : Json) (o : Option VariableSpec)
      → lookup name specs ≡ o
      → checked_spec (λ spec. checked_value shown declared spec.type name value) o ≡ passes v
      → ((spec : VariableSpec) × (lookup name specs ≡ some spec)
          × Allowed declared spec.type name v)
        × (checked_spec (λ spec. checked_value shown declared spec.type name v) o ≡ passes v)
  checked_spec_sound specs name value v none e h = cc
  checked_spec_sound specs name value v (some spec) e h =
      let (allowed, again) = checked_value_sound shown declared spec.type name value v h in
      ((spec, e, allowed), again)

  checked_items_sound :
      (specs : Dict VariableSpec) (items chosen : Dict Json)
      → checked_items shown declared specs items ≡ passes chosen
      → (keys chosen ≡ keys items)
        × AllAllowed specs chosen
        × (checked_items shown declared specs chosen ≡ passes chosen)
  unfolding checked_items keys
  checked_items_sound specs [] chosen h =
      subst
        (λ c.
          (keys c ≡ []) × AllAllowed specs c × (checked_items shown declared specs c ≡ passes c))
        (passes-injective [] chosen h) (refl, tt, refl)
  checked_items_sound specs ((name, value) ∷ items) chosen h =
      let (v, checked, h1) = >>=-eq-passes (checked_spec _ (lookup name specs)) _ h in
      let (rest, loop, last) = >>=-eq-passes (checked_items shown declared specs items) _ h1 in
      let (allowed, again) =
        checked_spec_sound specs name value v (lookup name specs) refl checked in
      let (same, all_allowed, all_again) = checked_items_sound specs items rest loop in
      subst
        (λ c.
          (keys c ≡ name ∷ keys items)
          × AllAllowed specs c
          × (checked_items shown declared specs c ≡ passes c))
        (passes-injective ((name, v) ∷ rest) chosen last)
        (ap (λ k. name ∷ k) same, (allowed, all_allowed), rw (again, all_again) refl)

has-keys : {V : Type 0} (name : Text) (d : Dict V) → has name d ≡ mem name (keys d)
unfolding has keys mem
has-keys name [] = refl
has-keys name ((k, v) ∷ d) = ground (arith, has-keys name d)

missing_of-keys :
    (specs : Dict VariableSpec) (a b : Dict Json)
    → keys a ≡ keys b
    → missing_of specs a ≡ missing_of specs b
unfolding missing_of
missing_of-keys [] a b e = refl
missing_of-keys ((name, spec) ∷ specs) a b e =
    let same : has name a ≡ has name b =
      has-keys name a ∙ ap (mem name) e ∙ sym (has-keys name b) in
    rw (same, missing_of-keys specs a b e) refl

unlisted :
    {A : Type 0} (b : Bool) (x : A) (rest : List A)
    → is_empty (if b then x ∷ rest else rest) ≡ true
    → (b ≡ false) × (is_empty rest ≡ true)
unlisted true x rest h = cc
unlisted false x rest h = (refl, h)

missing_of_none :
    (specs : Dict VariableSpec) (supplied : Dict Json) (name : Text) (spec : VariableSpec)
    → is_empty (missing_of specs supplied) ≡ true
    → lookup name specs ≡ some spec
    → spec.required ≡ true
    → has name supplied ≡ true
unfolding missing_of lookup
missing_of_none [] supplied name spec h e r = cc
missing_of_none ((k, first) ∷ specs) supplied name spec h e r =
    let (given, left) =
      unlisted (first.required && not (has k supplied)) k (missing_of specs supplied) h in
    elim (Bool-cases (k == name)) [
      | inl same ↦ here (rw same at e) ((eq_iff k name).0 same) given
      | inr other ↦ missing_of_none specs supplied name spec left (rw other at e) r
    ]
  where
    here :
        some first ≡ some spec
        → k ≡ name
        → (first.required && not (has k supplied)) ≡ false
        → has name supplied ≡ true
    here found at_name given =
        let asked : first.required ≡ true = ap (λ s. s.required) first_is ∙ r in
        subst (λ n. has n supplied ≡ true) at_name (ground arith)
      where
        first_is : first ≡ spec
        first_is = cc

nowhere : (name : Text) (l : List Text) → is_empty l ≡ true → mem name l ≡ true → ⊥
unfolding mem
nowhere name [] e there = cc
nowhere name (x ∷ l) e there = cc

filter_none :
    (test : Text → Bool) (names : List Text) (name : Text)
    → is_empty (filter test names) ≡ true
    → mem name names ≡ true
    → test name ≡ false
filter_none test names name h m = elim (Bool-cases (test name)) [
  | inr fails ↦ fails
  | inl meets ↦
      absurd (nowhere name (filter test names) h (mem-filter test name names ∙ rw (m, meets) refl))
]

undeclared_one :
    (role_declares : Text → Text → Bool) (installed : Option PlaybookEntry) (names : List Text)
    (name : Text)
    → is_empty (undeclared role_declares installed names) ≡ true
    → mem name names ≡ true
    → undeclared role_declares installed (name ∷ []) ≡ []
unfolding undeclared filter
undeclared_one role_declares none names name h m = refl
undeclared_one role_declares (some entry) names name h m =
    rw (filter_none (λ n. spec_lacks role_declares n (lookup n (specs_of entry))) names name h m)
      refl

-- The variables of a launch that is accepted.
pub record WellGiven (shown : Json → Text) (declared : Declared)
    (role_declares : Text → Text → Bool) (installed : Option PlaybookEntry)
    (specs : Dict VariableSpec) (supplied chosen : Dict Json) : Type 0 where
  pub same_names : keys chosen ≡ keys supplied
  pub all_allowed : AllAllowed shown declared specs chosen
  pub required_given :
      (name : Text) (spec : VariableSpec)
      → lookup name specs ≡ some spec
      → spec.required ≡ true
      → has name chosen ≡ true
  pub read_by_role :
      (name : Text)
      → mem name (keys chosen) ≡ true
      → undeclared role_declares installed (name ∷ []) ≡ []

module _ (shown : Json → Text) (declared : Declared) (role_declares : Text → Text → Bool)
    (catalogued : Text → Option PlaybookEntry) (entry : PlaybookEntry) (supplied chosen : Dict Json)
    (accepted : accepted_variables shown declared role_declares catalogued entry supplied
      ≡ passes chosen) where
  guards :
      (is_empty (unknown_names (specs_of entry) supplied) ≡ true)
      × (is_empty (missing_of (specs_of entry) supplied) ≡ true)
      × (is_empty (undeclared role_declares (catalogued entry.id) (keys supplied)) ≡ true)
      × (checked_items shown declared (specs_of entry) supplied ≡ passes chosen)
  unfolding accepted_variables
  guards =
      let (known, h1) =
        unless_passes (not (is_empty (unknown_names (specs_of entry) supplied))) _ _ accepted in
      let (given, h2) =
        unless_passes (not (is_empty (missing_of (specs_of entry) supplied))) _ _ h1 in
      let (read, h3) =
        unless_passes
          (not (is_empty (undeclared role_declares (catalogued entry.id) (keys supplied)))) _ _
          h2 in
      (ground arith, ground arith, ground arith, h3)

  -- The variables of a launch that is accepted are those that were given, by the same names; each is
  -- declared by the entry, and has the type and the bounds of its declaration; every variable that the
  -- entry requires is among them; and each that the catalogue declares a role for, in the entry of that
  -- identifier, is read by the role that is installed.
  pub accepted_variables_sound :
      WellGiven shown declared role_declares (catalogued entry.id) (specs_of entry) supplied chosen
  accepted_variables_sound =
      let (known, given, read, loop) = guards in
      let (same, allowed, _) =
        checked_items_sound shown declared (specs_of entry) supplied chosen loop in
      record {
        same_names = same;
        all_allowed = allowed;
        required_given = λ name spec e r.
            has-keys name chosen
            ∙ ap (mem name) same
            ∙ sym (has-keys name supplied)
            ∙ missing_of_none (specs_of entry) supplied name spec given e r;
        read_by_role = λ name there.
            undeclared_one role_declares (catalogued entry.id) (keys supplied) name read
              (ap (mem name) (sym same) ∙ there);
      }

  -- What a launch accepts, a relaunch with the accepted variables accepts again and leaves as it is,
  -- where the inventory, the catalogue and the roles are the same.
  pub accepted_variables_again :
      accepted_variables shown declared role_declares catalogued entry chosen ≡ passes chosen
  unfolding accepted_variables unknown_names
  accepted_variables_again =
      let (known, given, read, loop) = guards in
      let (same, _, again) =
        checked_items_sound shown declared (specs_of entry) supplied chosen loop in
      let given' : is_empty (missing_of (specs_of entry) chosen) ≡ true =
        ap is_empty (missing_of-keys (specs_of entry) chosen supplied same) ∙ given in
      rw (same, known, given', read) again
