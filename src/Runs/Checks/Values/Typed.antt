-- ===== src/Runs/Checks/Values/Typed.antt =====
-- What a value that passes its check is, and that it passes it again.
use seapath_webui.Common.{
  List, ℕ, ◌≤◌, Text, codes, ◌==◌, eq_iff, is_empty, strip, strip_idem, leb, true, false, Option,
  none, some, [], ◌≡◌, ◌≢◌, ◌⊎◌, inl, inr, refl, ap, sym, ◌∙◌, subst, arith, Bool-cases, ◌&&◌,
}
use seapath_webui.Common.Int.{pos, negsuc, within_range}
use seapath_webui.Common.Names.{mem}
use seapath_webui.Hosts.Cpus.{parse_cpu_list}
use seapath_webui.Runs.Catalogue.{
  VariableType, boolean, machine, seconds, microseconds, priority, cpu_list, workload, unknown,
}
use seapath_webui.Runs.Checks.{
  Json, null, truth, integer, real, text, sequence, mapping, passes, refuses, passes-injective,
  truth_of, when_passes, unless_passes,
}
use seapath_webui.Runs.Checks.Values.{
  Read, whole, unread, too_large, integer_of, bounded_number, bounded, one_day, listed_cpus,
  checked_cpus, Declared, is_host, check_machine, workloads_for, check_workload, text_of_value,
  checked_value,
}

-- An integer within bounds.
abbrev pub Within : ℕ → ℕ → Json → Type 0
Within low high (integer (pos n)) = (low ≤ n) × (n ≤ high)
Within low high value = ⊥

-- A value that the variable of a type may have.
abbrev pub Allowed : Declared → VariableType → Text → Json → Type 0
Allowed declared boolean name (truth b) = Unit
Allowed declared machine name (text m) =
    (mem m declared.hosts ≡ true) × (declared.this_host ≢ some m)
Allowed declared seconds name value = Within 1 one_day value
Allowed declared microseconds name value = Within 1 1000000 value
Allowed declared priority name value = Within 1 98 value
Allowed declared cpu_list name (text s) =
    (s ≡ codes "smp") ⊎ ((cpus : List ℕ) × (parse_cpu_list (some s) ≡ some cpus) × (cpus ≢ []))
Allowed declared workload name (text w) = mem w (workloads_for declared name) ≡ true
Allowed declared unknown name value = Unit
Allowed declared type name value = ⊥

bounded_number_sound :
    (name : Text) (low high : ℕ) (r : Read) (v : Json)
    → bounded_number name low high r ≡ passes v
    → Within low high v × (bounded name v low high ≡ passes v)
unfolding bounded_number bounded within_range integer_of
bounded_number_sound name low high unread v h = cc
bounded_number_sound name low high too_large v h = cc
bounded_number_sound name low high (whole (negsuc n)) v h = cc
bounded_number_sound name low high (whole (pos n)) v h =
    elim (Bool-cases (leb low n && leb n high)) [
      | inl fits ↦
          subst (λ w. Within low high w × (bounded name w low high ≡ passes w))
            (passes-injective _ v (rw fits at h)) ((ground arith, ground arith), rw fits refl)
      | inr outside ↦ absurd (refused (rw outside at h))
    ]
  where
    refused : {why : _} → refuses why ≡ passes v → ⊥
    refused e = cc

is_host-false : (o : Option Text) (m : Text) → is_host m o ≡ false → o ≢ some m
unfolding is_host
is_host-false none m h e = cc
is_host-false (some host) m h e = clash (sym ((eq_iff m host).1 same) ∙ h)
  where
    same : m ≡ host
    same = cc

    clash : true ≡ false → ⊥
    clash b = cc

check_machine_sound :
    (declared : Declared) (name : Text) (value v : Json)
    → check_machine declared name value ≡ passes v
    → Allowed declared machine name v × (value ≡ v)
unfolding check_machine
check_machine_sound declared name (text m) v h =
    let (there, rest) = when_passes (mem m declared.hosts) _ _ h in
    let (other, same) = unless_passes (is_host m declared.this_host) _ _ rest in
    let e = passes-injective (text m) v same in
    (subst (Allowed declared machine name) e (there, is_host-false declared.this_host m other), e)
check_machine_sound declared name null v h = cc
check_machine_sound declared name (truth b) v h = cc
check_machine_sound declared name (integer n) v h = cc
check_machine_sound declared name (real r) v h = cc
check_machine_sound declared name (sequence items) v h = cc
check_machine_sound declared name (mapping pairs) v h = cc

check_workload_sound :
    (declared : Declared) (name : Text) (value v : Json)
    → check_workload declared name value ≡ passes v
    → Allowed declared workload name v × (value ≡ v)
unfolding check_workload
check_workload_sound declared name (text m) v h =
    let (there, same) = when_passes (mem m (workloads_for declared name)) _ _ h in
    let e = passes-injective (text m) v same in (subst (Allowed declared workload name) e there, e)
check_workload_sound declared name null v h = cc
check_workload_sound declared name (truth b) v h = cc
check_workload_sound declared name (integer n) v h = cc
check_workload_sound declared name (real r) v h = cc
check_workload_sound declared name (sequence items) v h = cc
check_workload_sound declared name (mapping pairs) v h = cc

listed_cpus_sound :
    (declared : Declared) (name s : Text) (v : Json) (o : Option (List ℕ))
    → parse_cpu_list (some s) ≡ o
    → listed_cpus name s o ≡ passes v
    → Allowed declared cpu_list name v × (v ≡ text s)
listed_cpus_sound declared name s v none e h = cc
listed_cpus_sound declared name s v (some cpus) e h =
    let (some_cpus, same) = unless_passes (is_empty cpus) _ _ h in
    let same_text = passes-injective (text s) v same in
    (
      subst (Allowed declared cpu_list name) same_text
          (inr (cpus, e, λ none_at_all. clash (sym (ap is_empty none_at_all) ∙ some_cpus))),
      sym same_text,
    )
  where
    clash : true ≡ false → ⊥
    clash b = cc

checked_cpus_sound :
    (declared : Declared) (name s : Text) (v : Json)
    → checked_cpus name s ≡ passes v
    → Allowed declared cpu_list name v × (v ≡ text s)
unfolding checked_cpus
checked_cpus_sound declared name s v h = elim (Bool-cases (s == codes "smp")) [
  | inl all_cpus ↦
      let e = passes-injective (text s) v (rw all_cpus at h) in
      (subst (Allowed declared cpu_list name) e (inl ((eq_iff s (codes "smp")).0 all_cpus)), sym e)
  | inr other ↦ listed_cpus_sound declared name s v (parse_cpu_list (some s)) refl (rw other at h)
]

module _ (shown : Json → Text) (declared : Declared) where
  -- A value that passes has the type and the bounds of its variable, and passes again as it is.
  pub checked_value_sound :
      (type : VariableType) (name : Text) (value v : Json)
      → checked_value shown declared type name value ≡ passes v
      → Allowed declared type name v × (checked_value shown declared type name v ≡ passes v)
  unfolding checked_value
  checked_value_sound boolean name value v h =
      subst
        (λ w.
          Allowed declared boolean name w
          × (checked_value shown declared boolean name w ≡ passes w))
        (passes-injective (truth (truth_of value)) v h) (tt, unfold truth_of in refl)
  checked_value_sound machine name value v h =
      let (allowed, same) = check_machine_sound declared name value v h in
      (allowed, ap (check_machine declared name) (sym same) ∙ h)
  checked_value_sound seconds name value v h =
      unfold bounded in bounded_number_sound name 1 one_day _ v h
  checked_value_sound microseconds name value v h =
      unfold bounded in bounded_number_sound name 1 1000000 _ v h
  checked_value_sound priority name value v h =
      unfold bounded in bounded_number_sound name 1 98 _ v h
  checked_value_sound cpu_list name value v h =
      let given = text_of_value shown value in
      let (allowed, same) = checked_cpus_sound declared name (strip given) v h in
      let again : checked_cpus name (strip (strip given)) ≡ passes (text (strip given)) =
        ap (checked_cpus name) (strip_idem given) ∙ h ∙ ap passes same in
      (
        allowed,
        subst (λ w. checked_cpus name (strip (text_of_value shown w)) ≡ passes w) (sym same)
            (unfold text_of_value in again),
      )
  checked_value_sound workload name value v h =
      let (allowed, same) = check_workload_sound declared name value v h in
      (allowed, ap (check_workload declared name) (sym same) ∙ h)
  checked_value_sound unknown name value v h = (tt, refl)
