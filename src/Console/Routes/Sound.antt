-- ===== src/Console/Routes/Sound.antt =====
-- Where a route goes.
use seapath_webui.Common.{
  Text, ◌==◌, eq_iff, eq_refl, filter, not, Bool, true, false, Option, none, some, List, [], ◌∷◌,
  ◌++◌, ◌≡◌, refl, ◌⊎◌, inl, inr, ◌∙◌, ap, sym, In, arith, Bool-cases,
}
use seapath_webui.Common.Dict.{Dict, lookup, insert, lookup-insert}
use seapath_webui.Common.Names.{mem, mem-append, mem-filter}
use seapath_webui.Inventory.Model.{Inventory, InventoryState, deployment_of}
use seapath_webui.Console.Targets.{
  ConsoleTarget, Self, Attempt, granted, >>=-eq-granted, targets, own_name,
}
use seapath_webui.Console.Commands.{serial_command}
use seapath_webui.Console.Routes.{
  guest_inventory, by_name, if_known, usable, or_later, first_usable, reachable, or_unreachable,
  is_cluster, graphic_candidates, graphic_route, serial_candidates, serial_route,
}

lookup-by_name :
    (ts : List ConsoleTarget) (found : Dict ConsoleTarget) (name : Text) (target : ConsoleTarget)
    → lookup name (by_name ts found) ≡ some target
    → (In target ts × (target.name ≡ name)) ⊎ (lookup name found ≡ some target)
unfolding by_name
lookup-by_name [] found name target h = inr h
lookup-by_name (first ∷ ts) found name target h =
    elim (lookup-by_name ts (insert first.name first found) name target h) [
      | inl (there, same) ↦ inl (inr there, same)
      | inr before ↦
          let split = sym (lookup-insert first.name name first found) ∙ before in
          elim (Bool-cases (first.name == name)) [
            | inl same ↦
                let here : some first ≡ some target = rw same at split in
                inl (
                  inl (sym (some-eq here)),
                  ap (λ t. t.name) (sym (some-eq here)) ∙ (eq_iff first.name name).0 same,
                )
            | inr other ↦ inr (rw other at split)
          ]
    ]
  where
    some-eq : some first ≡ some target → first ≡ target
    some-eq h = cc

-- A target that a route answers: known, one of those offered, and one of the candidates.
abbrev Chosen : Dict ConsoleTarget → List Text → ConsoleTarget → Type 0
Chosen found names target =
    (name : Text) × (mem name names ≡ true)
    × (lookup name found ≡ some target)
    × (target.host_key_known ≡ true)

usable_first :
    (o later : Option ConsoleTarget) (target : ConsoleTarget)
    → or_later (usable o) later ≡ some target
    → ((o ≡ some target) × (target.host_key_known ≡ true)) ⊎ (later ≡ some target)
unfolding or_later usable
usable_first none later target h = inr h
usable_first (some first) later target h = from first.host_key_known refl h
  where
    from :
        (b : Bool)
        → first.host_key_known ≡ b
        → or_later (if_known b first) later ≡ some target
        → ((some first ≡ some target) × (target.host_key_known ≡ true)) ⊎ (later ≡ some target)
    from true known e = inl (e, ap (λ t. t.host_key_known) (sym same) ∙ known)
      where
        same : first ≡ target
        same = cc
    from false unknown e = inr e

first_usable_sound :
    (found : Dict ConsoleTarget) (names : List Text) (target : ConsoleTarget)
    → first_usable found names ≡ some target
    → Chosen found names target
unfolding first_usable mem
first_usable_sound found [] target h = cc
first_usable_sound found (name ∷ names) target h =
    elim (usable_first (lookup name found) (first_usable found names) target h) [
      | inl (here, known) ↦ (name, ground (arith, eq_refl name), here, known)
      | inr later ↦
          let (k, among, there, known) = first_usable_sound found names target later in
          (k, ground arith, there, known)
    ]

-- A machine that a route answers.
pub record IsRoute (offered : List ConsoleTarget) (candidates : List Text) (target : ConsoleTarget)
    : Type 0 where
  pub is_offered : In target offered
  pub is_candidate : mem target.name candidates ≡ true
  pub known : target.host_key_known ≡ true

reachable-IsRoute :
    (this_machine : Text) (offered : List ConsoleTarget) (candidates : List Text)
    (target : ConsoleTarget)
    → reachable this_machine offered candidates ≡ some target
    → IsRoute offered candidates target
unfolding reachable
reachable-IsRoute this_machine offered candidates target h =
    let (name, among, there, known) = first_usable_sound (by_name offered []) _ target h in
    elim (lookup-by_name offered [] name target there) [
      | inl (is_in, same) ↦ record {
        is_offered = is_in;
        is_candidate = ap (λ n. mem n candidates) same ∙ candidate name among;
        known = known;
      }
      | inr nothing ↦ absurd (unfold lookup in cc nothing)
    ]
  where
    candidate :
        (name : Text)
        → mem name (
            filter (λ n. n == this_machine) candidates
            ++ filter (λ n. not (n == this_machine)) candidates)
          ≡ true
        → mem name candidates ≡ true
    candidate name h = ground (
      arith,
      mem-append name (filter (λ n. n == this_machine) candidates)
          (filter (λ n. not (n == this_machine)) candidates),
      mem-filter (λ n. n == this_machine) name candidates,
      mem-filter (λ n. not (n == this_machine)) name candidates,
    )

or_unreachable-eq-granted :
    (guest : Text) (o : Option ConsoleTarget) (target : ConsoleTarget)
    → or_unreachable guest o ≡ granted target
    → o ≡ some target
unfolding or_unreachable
or_unreachable-eq-granted guest none target h = cc
or_unreachable-eq-granted guest (some found) target h = ap some granted-eq
  where
    granted-eq : found ≡ target
    granted-eq = cc

pub granted_pair :
    (a b : ConsoleTarget) (c d : Text)
    → ◌≡◌ {A = Attempt (ConsoleTarget × Text)} (granted (a, c)) (granted (b, d))
    → (a ≡ b) × (c ≡ d)
granted_pair a b c d h = ground (arith, h)

module _ (self : Self) (recorded : List Text) (state : Option InventoryState)
    (locate : Text → Option Text) where
  -- A graphic console goes, where it goes, to a target that is offered, whose host key is known, and
  -- that is the machine the guest is reported on, or for a standalone guest one it may be on: the guest
  -- is one of the inventory.
  pub graphic_route_sound :
      (guest : Text) (target : ConsoleTarget)
      → graphic_route self recorded state locate guest ≡ granted target
      → (inventory : Inventory) × (guest_inventory guest state ≡ granted inventory)
        × IsRoute
            (targets self recorded state)
            (graphic_candidates self recorded state locate inventory guest)
            target
  unfolding graphic_route
  graphic_route_sound guest target h =
      let (inventory, read, route) = >>=-eq-granted (guest_inventory guest state) _ h in
      (
        inventory,
        read,
        reachable-IsRoute (own_name self state) (targets self recorded state) _ target
            (or_unreachable-eq-granted guest _ target route),
      )

  -- A serial console goes, where it goes, to a target that is offered, whose host key is known, and that
  -- is one of the machines the guest may be on: the guest is one of the inventory, and the command is
  -- the serial command of the guest, in the form of its deployment.
  pub serial_route_sound :
      (guest command : Text) (target : ConsoleTarget)
      → serial_route self recorded state locate guest ≡ granted (target, command)
      → (inventory : Inventory) × (guest_inventory guest state ≡ granted inventory)
        × IsRoute
            (targets self recorded state)
            (serial_candidates self recorded state locate inventory guest)
            target
        × (command ≡ serial_command guest (is_cluster (deployment_of guest inventory)))
  unfolding serial_route
  serial_route_sound guest command target h =
      let (inventory, read, rest) = >>=-eq-granted (guest_inventory guest state) _ h in
      let (found, route, last) = >>=-eq-granted (or_unreachable guest _) _ rest in
      let (same, commands) = granted_pair found target _ command last in
      (
        inventory,
        read,
        reachable-IsRoute (own_name self state) (targets self recorded state) _ target
            (or_unreachable-eq-granted guest _ target (route ∙ ap granted same)),
        sym commands,
      )
