-- ===== src/Console/Targets/Sound.antt =====
-- Which targets are offered.
use seapath_webui.Common.{
  Text, codes, is_empty, has_part, false, Option, none, some, List, [], ◌∷◌, ◌≡◌, refl, ◌⊎◌, inl,
  inr, ◌∙◌, ap, sym, In, arith, Bool-cases,
}
use seapath_webui.Common.Names.{mem}
use seapath_webui.Inventory.Model.{Inventory, InventoryState}
use seapath_webui.Console.Targets.{
  ConsoleTarget, Self, Declared, declared, stripped, passed_over, offered, offered_of, own_target,
  own_name, targets,
}

-- A target that an entry of the inventory gives: its address is the entry's, neither empty nor a
-- template, and its key is known exactly if one is recorded for that address.
pub record GivenBy (recorded : List Text) (target : ConsoleTarget) (entry : Declared) : Type 0 where
  pub same_name : target.name ≡ entry.name
  pub same_kind : target.kind ≡ entry.kind
  pub same_address : target.address ≡ stripped entry.address
  pub proper : is_empty target.address ≡ false
  pub plain : has_part (codes "{{") target.address ≡ false
  pub known : target.host_key_known ≡ mem target.address recorded

abbrev pub Given : List Text → List Declared → ConsoleTarget → Type 0
Given recorded entries target =
    (entry : Declared) × In entry entries × GivenBy recorded target entry

offered_sound :
    (recorded seen : List Text) (entries : List Declared) (target : ConsoleTarget)
    → In target (offered recorded seen entries)
    → Given recorded entries target
unfolding offered
offered_sound recorded seen [] target m = absurd m
offered_sound recorded seen (entry ∷ entries) target m =
    elim (Bool-cases (passed_over seen entry)) [
      | inl over ↦
          let (from, there, given) = offered_sound recorded seen entries target (rw over at m) in
          (from, inr there, given)
      | inr kept ↦ elim (taken (rw kept at m)) [
        | inl same ↦ (entry, inl refl, given_by same kept)
        | inr later ↦
            let (from, there, given) =
              offered_sound recorded (entry.name ∷ seen) entries target later in
            (from, inr there, given)
      ]
    ]
  where
    made : ConsoleTarget
    made = record {
      name = entry.name;
      kind = entry.kind;
      address = stripped entry.address;
      host_key_known = mem (stripped entry.address) recorded;
    }

    taken :
        In target (made ∷ offered recorded (entry.name ∷ seen) entries)
        → (target ≡ made) ⊎ In target (offered recorded (entry.name ∷ seen) entries)
    taken h = h

    given_by : target ≡ made → passed_over seen entry ≡ false → GivenBy recorded target entry
    given_by same kept =
        unfold passed_over in
        record {
          same_name = ap (λ t. t.name) same;
          same_kind = ap (λ t. t.kind) same;
          same_address = ap (λ t. t.address) same;
          proper = ap (λ t. is_empty t.address) same ∙ ground arith;
          plain = ap (λ t. has_part (codes "{{") t.address) same ∙ ground arith;
          known =
              ap (λ t. t.host_key_known) same
              ∙ ap (λ t. mem t recorded) (sym (ap (λ t. t.address) same));
        }

abbrev pub declared_of : Option InventoryState → List Declared
declared_of none = []
declared_of (some state) = elim state.inventory [ none ↦ [] | some inventory ↦ declared inventory ]

-- A target that is offered is this machine itself, at the address that the service is given for it,
-- or is given by an entry of the inventory.
pub targets_sound :
    (self : Self) (recorded : List Text) (state : Option InventoryState) (target : ConsoleTarget)
    → In target (targets self recorded state)
    → (target ≡ own_target self state) ⊎ Given recorded (declared_of state) target
unfolding targets
targets_sound self recorded state target (inl own) = inl own
targets_sound self recorded none target (inr m) = absurd m
targets_sound self recorded (some state) target (inr m) = inr (from state.inventory m)
  where
    from :
        (inventory : Option Inventory)
        → In target (offered_of recorded (own_name self (some state)) inventory)
        → Given recorded (elim inventory [ none ↦ [] | some inventory ↦ declared inventory ]) target
    from none h = absurd h
    from (some inventory) h =
        offered_sound recorded (own_name self (some state) ∷ []) (declared inventory) target h
