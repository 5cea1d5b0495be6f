-- ===== src/Runs/Checks/Launch/Ready.antt =====
-- What a launch that passes its checks is.
use seapath_webui.Common.{
  Text, is_empty, In, Bool, true, false, not, ◌&&◌, Option, none, some, List, [], ◌∷◌, ◌≡◌, refl,
  ap, sym, subst, ◌⊎◌, inl, inr, if◌then◌else◌, arith,
}
use seapath_webui.Common.Dict.{lookup, keys}
use seapath_webui.Common.Names.{mem}
use seapath_webui.Inventory.Model.{Inventory}
use seapath_webui.Inventory.Resolve.{Table}
use seapath_webui.Runs.Scope
use seapath_webui.Runs.Scope.{Scope, Checked, is_narrowed}
use seapath_webui.Runs.Scope.Matching.{plan_targets}
use seapath_webui.Runs.Catalogue.{PlaybookEntry, Preview, previewable, peer_reachable}
use seapath_webui.Runs.Checks.{
  Json, passes, >>=-eq-passes, passes-injective, unless_passes, no_seed_role, no_seed_tool,
}
use seapath_webui.Runs.Checks.Variables.{specs_of, accepted_variables}
use seapath_webui.Runs.Checks.Variables.Accepted.{WellGiven, accepted_variables_sound}
use seapath_webui.Runs.Checks.Preconditions.{
  Site, Blocks, blocking, seed_refusal, is_this, address_known,
}
use seapath_webui.Runs.Checks.Preconditions.Met.{IsClear, blocking-IsClear, Plays, peers_known}
use seapath_webui.Runs.Checks.Launch.{
  Asked, Prepared, scoped, check_narrowed, not_this, check_playing, check_controller, controller_of,
  check_blocks, check_passwords, refused_seed, check_preview, declared_by, prepare,
}

-- The machine driving a run of an entry that reboots machines: where the run plays it, the playbook
-- leaves it to finish at boot, and it is alone or the last.
abbrev pub MayReboot : Site → PlaybookEntry → Text → List Text → Type 0
MayReboot site entry host hosts =
    (site.updates_itself ≡ true)
    × ((not_this host hosts ≡ [])
        ⊎ ((entry.controller_last ≡ true) × (site.reboots_for_kernel ≡ true)))

check_playing_sound :
    (site : Site) (entry : PlaybookEntry) (host : Text) (hosts : List Text) (reboot : Option Text)
    → check_playing site entry host hosts ≡ passes reboot
    → mem host hosts ≡ true
    → MayReboot site entry host hosts × (reboot ≡ some host)
unfolding check_playing
check_playing_sound site entry host hosts reboot h there =
    let (updates, h1) = unless_passes (not site.updates_itself) _ _ (rw there at h) in
    let (fine, last) =
      unless_passes
        (not (is_empty (not_this host hosts))
          && not (entry.controller_last && site.reboots_for_kernel))
        _ _ h1 in
    (
      (ground arith, split (not_this host hosts) fine),
      sym (passes-injective (some host) reboot last),
    )
  where
    split :
        (l : List Text)
        → (not (is_empty l) && not (entry.controller_last && site.reboots_for_kernel)) ≡ false
        → (l ≡ []) ⊎ ((entry.controller_last ≡ true) × (site.reboots_for_kernel ≡ true))
    split [] e = inl refl
    split (x ∷ l) e = inr (ground arith, ground arith)

controller_of_sound :
    (site : Site) (entry : PlaybookEntry) (played : Option (List Text)) (reboot : Option Text)
    → controller_of site entry played ≡ passes reboot
    → (host : Text) (hosts : List Text) → entry.reboots_controller ≡ true
    → site.state.this_host ≡ some host
    → played ≡ some hosts
    → mem host hosts ≡ true
    → MayReboot site entry host hosts × (reboot ≡ some host)
unfolding controller_of check_controller
controller_of_sound site entry played reboot h host hosts reboots mine plays there =
    check_playing_sound site entry host hosts reboot (rw (reboots, mine, plays) at h) there

check_narrowed_sound :
    (required : Bool) (scope : Scope)
    → check_narrowed required scope ≡ passes tt
    → required ≡ true
    → is_narrowed scope.requested ≡ true
unfolding check_narrowed
check_narrowed_sound required scope h e =
    let (fine, _) = unless_passes (required && not (is_narrowed scope.requested)) _ _ h in
    ground arith

check_preview_sound :
    (check : Bool) (preview : Preview)
    → check_preview check preview ≡ passes tt
    → check ≡ true
    → previewable preview ≡ true
unfolding check_preview
check_preview_sound check preview h e =
    let (fine, _) = unless_passes (check && not (previewable preview)) _ _ h in ground arith

check_passwords_sound :
    (site : Site) (passwords : List Text)
    → check_passwords site passwords ≡ passes tt
    → is_empty passwords ≡ false
    → (site.has_seed_role ≡ true) × (site.has_seed_tool ≡ true)
unfolding check_passwords refused_seed seed_refusal
check_passwords_sound site [] h given = cc
check_passwords_sound site (guest ∷ guests) h given = from site.has_seed_role site.has_seed_tool h
  where
    from :
        (role tool : Bool)
        → refused_seed
            (if not role then some no_seed_role else if not tool then some no_seed_tool else none)
          ≡ passes tt
        → (role ≡ true) × (tool ≡ true)
    from true true e = (refl, refl)
    from true false e = cc
    from false tool e = cc

scoped_sound :
    (c : Option (Checked Scope)) (scope : Scope)
    → scoped c ≡ passes scope
    → c ≡ some (Scope.accepted scope)
unfolding scoped
scoped_sound none scope h = cc
scoped_sound (some (Scope.accepted found)) scope h =
    ap (λ s. some (Scope.accepted s)) (passes-injective found scope h)
scoped_sound (some (Scope.refused why)) scope h = cc

check_blocks_sound : (blocks : Blocks) → check_blocks blocks ≡ passes tt → is_empty blocks ≡ true
unfolding check_blocks
check_blocks_sound [] h = refl
check_blocks_sound (block ∷ blocks) h = cc

-- A launch that passed its checks.
pub record IsReady (site : Site) (table : Table) (entry : PlaybookEntry) (asked : Asked)
    (prepared : Prepared) : Type 0 where
  pub in_scope : plan_targets table entry.targets asked.scope ≡ some (Scope.accepted prepared.scope)
  pub narrowed : entry.scope_required ≡ true → is_narrowed prepared.scope.requested ≡ true
  pub clear : IsClear site entry prepared.scope.hosts
  pub controller :
      (host : Text) (hosts : List Text)
      → entry.reboots_controller ≡ true
      → site.state.this_host ≡ some host
      → prepared.scope.hosts ≡ some hosts
      → mem host hosts ≡ true
      → MayReboot site entry host hosts × (prepared.ends_with_reboot ≡ some host)
  pub seeds :
      is_empty asked.passwords ≡ false → (site.has_seed_role ≡ true) × (site.has_seed_tool ≡ true)
  pub preview : asked.check ≡ true → previewable entry.preview ≡ true
  pub reached :
      In peer_reachable entry.requires
      → (inventory : Inventory) (name : Text) → site.state.inventory ≡ some inventory
      → Plays prepared.scope.hosts name
      → mem name (keys inventory.hosts) ≡ true
      → is_this name site.state.this_host ≡ false
      → (site.has_extra_keys ≡ true)
        × (address_known site.known (lookup name inventory.hosts) ≡ true)

module _ (shown : Json → Text) (role_declares : Text → Text → Bool)
    (catalogued : Text → Option PlaybookEntry) where
  -- A launch that passes its checks plays the machines of a scope that the inventory accepts, a narrowed
  -- one where the entry requires that; no precondition of the entry is unmet, its playbook is shipped, and
  -- fits the node's distribution; where the entry needs its machines reachable, each machine that the run
  -- plays, but this one, has a recorded host key, and there is a key to offer it; where the entry reboots
  -- machines and the run plays the machine driving it, that machine is alone, or the last with a playbook
  -- that defers its reboot; where it gives root passwords, the role and the tool that build a seed
  -- are there; a check is asked only of an entry that can be previewed; and the variables are accepted.
  pub prepare-IsReady :
      (site : Site) (table : Table) (workloads removed : List Text) (directory : Text)
      (entry : PlaybookEntry) (asked : Asked) (prepared : Prepared)
      → prepare shown role_declares catalogued site table workloads removed directory entry asked
        ≡ passes prepared
      → IsReady site table entry asked prepared
        × WellGiven shown
            (declared_by site.state workloads removed)
            role_declares
            (catalogued entry.id)
            (specs_of entry)
            asked.variables
            prepared.chosen
  unfolding prepare
  prepare-IsReady site table workloads removed directory entry asked prepared h =
      let (scope, planned, h1) = >>=-eq-passes (scoped _) _ h in
      let (_, narrow, h2) = >>=-eq-passes (check_narrowed entry.scope_required scope) _ h1 in
      let (reboot, controlled, h3) = >>=-eq-passes (controller_of site entry scope.hosts) _ h2 in
      let (_, unblocked, h4) =
        >>=-eq-passes (check_blocks (blocking site entry scope.hosts)) _ h3 in
      let (_, seeds, h5) = >>=-eq-passes (check_passwords site asked.passwords) _ h4 in
      let (_, preview, h6) = >>=-eq-passes (check_preview asked.check entry.preview) _ h5 in
      let (chosen, accepted, last) = >>=-eq-passes (accepted_variables _ _ _ _ _ _) _ h6 in
      let clear = blocking-IsClear site entry scope.hosts (check_blocks_sound _ unblocked) in
      subst
        (λ p.
          IsReady site table entry asked p
          × WellGiven shown (declared_by site.state workloads removed) role_declares
              (catalogued entry.id) (specs_of entry) asked.variables p.chosen)
        (passes-injective _ prepared last)
        (
          record {
            in_scope = scoped_sound _ scope planned;
            narrowed = check_narrowed_sound entry.scope_required scope narrow;
            clear = clear;
            controller = controller_of_sound site entry scope.hosts reboot controlled;
            seeds = check_passwords_sound site asked.passwords seeds;
            preview = check_preview_sound asked.check entry.preview preview;
            reached = λ needs inventory name read plays there other.
                peers_known site scope.hosts inventory name (clear.met peer_reachable needs) read
                  plays there other;
          },
          accepted_variables_sound shown _ role_declares catalogued entry asked.variables chosen
              accepted,
        )
