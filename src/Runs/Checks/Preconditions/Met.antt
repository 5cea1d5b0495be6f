-- ===== src/Runs/Checks/Preconditions/Met.antt =====
-- What it means that nothing blocks an entry.
use seapath_webui.Common.{
  Text, is_empty, filter, In, Bool, true, false, not, Option, none, some, List, [], ◌∷◌, ◌++◌, ◌≡◌,
  refl, ap, sym, ◌∙◌, subst, inl, inr, if◌then◌else◌, arith, Bool-cases,
}
use seapath_webui.Common.Dict.{lookup, keys}
use seapath_webui.Common.Names.{mem, mem-filter}
use seapath_webui.Inventory.Model.{Inventory}
use seapath_webui.Runs.Catalogue.{
  Precondition, peer_reachable, PlaybookEntry, playbook_present, distribution_matches,
  variables_supported,
}
use seapath_webui.Runs.Checks.{Reason, not_shipped}
use seapath_webui.Runs.Checks.Preconditions.{
  Site, is_this, address_known, others_of, unreachable_of, unreachable, played_among, unmet_peers,
  unmet, wrong_for, unfillable_of, coded, required_unmet, unfillable_block, blocking,
}

append_empty :
    {A : Type 0} (xs ys : List A)
    → is_empty (xs ++ ys) ≡ true
    → (is_empty xs ≡ true) × (is_empty ys ≡ true)
append_empty [] ys h = (refl, h)
append_empty (x ∷ xs) ys h = cc

coded_empty : (code : Precondition) (o : Option Reason) → is_empty (coded code o) ≡ true → o ≡ none
unfolding coded
coded_empty code none h = refl
coded_empty code (some reason) h = cc

required_met :
    (site : Site) (played : Option (List Text)) (codes : List Precondition)
    → is_empty (required_unmet site played codes) ≡ true
    → (code : Precondition) → In code codes
    → unmet site played code ≡ none
unfolding required_unmet
required_met site played [] h code there = elim there [ ]
required_met site played (first ∷ codes) h code (inl same) =
    let (met, _) = append_empty (coded first (unmet site played first)) _ h in
    ap (unmet site played) same ∙ coded_empty first _ met
required_met site played (first ∷ codes) h code (inr later) =
    let (_, rest) = append_empty (coded first (unmet site played first)) _ h in
    required_met site played codes rest code later

-- Nothing blocks an entry.
pub record IsClear (site : Site) (entry : PlaybookEntry) (played : Option (List Text))
    : Type 0 where
  pub met : (code : Precondition) → In code entry.requires → unmet site played code ≡ none
  pub shipped : mem entry.id site.missing ≡ false
  pub fits_distribution : wrong_for site entry.distribution site.running ≡ none
  pub fillable : unfillable_of entry.variables ≡ []

pub blocking-IsClear :
    (site : Site) (entry : PlaybookEntry) (played : Option (List Text))
    → is_empty (blocking site entry played) ≡ true
    → IsClear site entry played
unfolding blocking
blocking-IsClear site entry played h =
    let (present, h1) = append_empty (coded playbook_present _) _ h in
    let (required, h2) = append_empty (required_unmet site played entry.requires) _ h1 in
    let (distribution, fillable) = append_empty (coded distribution_matches _) _ h2 in
    record {
      met = required_met site played entry.requires required;
      shipped = here (mem entry.id site.missing) (coded_empty playbook_present _ present);
      fits_distribution = coded_empty distribution_matches _ distribution;
      fillable =
          no_name (unfillable_of entry.variables) (coded_empty variables_supported _ fillable);
    }
  where
    here : (b : Bool) → (if b then some not_shipped else none) ≡ none → b ≡ false
    here true e = cc
    here false e = refl

    no_name : (names : List Text) → unfillable_block names ≡ none → names ≡ []
    no_name [] e = refl
    no_name (name ∷ names) e = unfold unfillable_block in cc e

-- A machine that a run plays: any, where its machines are not resolved.
abbrev pub Plays : Option (List Text) → Text → Type 0
Plays none name = Unit
Plays (some played) name = mem name played ≡ true

no_peer : (names : List Text) → unmet_peers names ≡ none → names ≡ []
unfolding unmet_peers
no_peer [] e = refl
no_peer (name ∷ names) e = cc

-- A member of a list that a filter empties fails the test of the filter.
missed :
    (test : Text → Bool) (names : List Text) (name : Text)
    → filter test names ≡ []
    → mem name names ≡ true
    → test name ≡ false
missed test names name gone m = elim (Bool-cases (test name)) [
  | inr fails ↦ fails
  | inl meets ↦
      absurd (clash (sym (mem-filter test name names ∙ rw (m, meets) refl) ∙ ap (mem name) gone))
]
  where
    clash : true ≡ mem name [] → ⊥
    clash e = unfold mem in cc e

played_reachable :
    (played : Option (List Text)) (names : List Text) (name : Text)
    → played_among played names ≡ []
    → Plays played name
    → mem name names ≡ false
unfolding played_among
played_reachable none names name gone plays = rw gone (unfold mem in refl)
played_reachable (some l) names name gone plays = elim (Bool-cases (mem name names)) [
  | inr out ↦ out
  | inl there ↦ absurd (clash (sym plays ∙ missed (λ n. mem n l) names name gone there))
]
  where
    clash : true ≡ false → ⊥
    clash e = cc

reached_only :
    (test : Text → Bool) (extra : Bool) (others : List Text) (name : Text)
    → mem name others ≡ true
    → mem name (if is_empty others then [] else if not extra then others else filter test others)
      ≡ false
    → (extra ≡ true) × (test name ≡ false)
reached_only test extra [] name there out = absurd (unfold mem in cc there)
reached_only test false (first ∷ others) name there out = absurd (clash (sym there ∙ out))
  where
    clash : true ≡ false → ⊥
    clash e = cc
reached_only test true (first ∷ others) name there out =
    (refl, ground (arith, mem-filter test name (first ∷ others)))

-- Where the machines of a run are found reachable, there is a key to offer and a recorded host key for
-- each machine of the inventory that the run plays, but this one.
pub peers_known :
    (site : Site) (played : Option (List Text)) (inventory : Inventory) (name : Text)
    → unmet site played peer_reachable ≡ none
    → site.state.inventory ≡ some inventory
    → Plays played name
    → mem name (keys inventory.hosts) ≡ true
    → is_this name site.state.this_host ≡ false
    → (site.has_extra_keys ≡ true) × (address_known site.known (lookup name inventory.hosts) ≡ true)
unfolding unmet unreachable unreachable_of
peers_known site played inventory name met read plays there other =
    let reached =
      played_reachable played (unreachable_of site (some inventory)) name
        (subst (λ o. played_among played (unreachable_of site o) ≡ []) read (no_peer _ met))
        plays in
    let among : mem name (others_of inventory site.state.this_host) ≡ true =
      unfold others_of in
      mem-filter (λ n. not (is_this n site.state.this_host)) name (keys inventory.hosts)
      ∙ rw (there, other) refl in
    let (extra, unknown) = reached_only _ site.has_extra_keys _ name among reached in
    (extra, ground (arith, unknown))
