-- ===== src/Inventory/Rules.antt =====
-- app/inventory/validation.py: the rules on the number of machines and on guests. The rules on the
-- variables of a machine and across machines are not modelled.
use seapath_webui.Common.{
  Text, codes, length, ltb, is_empty, filter, Bool, true, false, not, ◌&&◌, Option, none, some,
  List, [], ◌∷◌, ◌++◌, map, if◌then◌else◌, ◌≡◌, refl, Bool-cases, inl, inr,
}
use seapath_webui.Common.Dict.{Dict, keys}
use seapath_webui.Common.Names.{mem, diff, sorted, mem-sorted, mem-diff}
use seapath_webui.Inventory.Model.{Inventory, Guest, Mode}

pub data Level : Type 0 where
  error warning : Level

pub data Rule : Type 0 where
  at_least_one_host standalone_is_one_machine guest_belongs_to_one_deployment
        malformed_guest_network :
      Rule

pub record Finding : Type 0 where
  pub level : Level
  pub rule : Rule
  pub host : Option Text
  pub field : Option Text

abbrev is_standalone : Mode → Bool
is_standalone Mode.standalone = true
is_standalone Mode.cluster = false

abbrev of_inventory : Rule → Finding
of_inventory rule = record { level = error; rule = rule; host = none; field = none }

unfoldable pub validate_count : Inventory → List Finding
validate_count inventory =
    (if is_empty (inventory.hosts) then of_inventory at_least_one_host ∷ [] else [])
    ++ (if is_standalone (inventory.mode) && ltb 1 (length (inventory.hosts))
        then of_inventory standalone_is_one_machine ∷ []
        else [])

abbrev is_declared : Option Mode → Bool
is_declared none = false
is_declared (some mode) = true

unfoldable pub deployed : Dict Guest → List Text
deployed [] = []
deployed ((name, guest) ∷ guests) =
    let rest = deployed guests in if is_declared (guest.deployment) then name ∷ rest else rest

-- The guests that both deployment playbooks claim.
unfoldable pub orphans : Inventory → List Text
unfolding deployed sorted diff keys
orphans inventory =
    if is_empty (deployed (inventory.guests))
    then []
    else sorted (diff (keys (inventory.guests)) (deployed (inventory.guests)))

unfoldable pub validate_guests : Inventory → List Finding
unfolding orphans
validate_guests inventory =
    map
      (λ name. record {
        level = error;
        rule = guest_belongs_to_one_deployment;
        host = some name;
        field = none;
      })
      (orphans inventory)

-- The variables of a guest that have a shape, where the guest's does not have it.
abbrev shaped : List Text
shaped = codes "cloud_init" ∷ codes "bridges" ∷ []

unfoldable pub validate_guest_networks : Dict Guest → List Finding
unfolding filter mem
validate_guest_networks [] = []
validate_guest_networks ((name, guest) ∷ guests) =
    map
      (λ variable. record {
        level = warning;
        rule = malformed_guest_network;
        host = some name;
        field = some variable;
      })
      (filter (λ variable. mem variable (guest.extra)) shaped)
    ++ validate_guest_networks guests

-- A guest is reported for its deployment where the inventory declares it and the deployment of another,
-- and not its own.
pub mem-orphans :
    (inventory : Inventory) (name : Text)
    → mem name (orphans inventory) ≡ (
        not (is_empty (deployed (inventory.guests)))
        && (mem name (keys (inventory.guests)) && not (mem name (deployed (inventory.guests)))))
unfolding orphans mem
mem-orphans inventory name = elim (Bool-cases (is_empty (deployed (inventory.guests)))) [
  | inl e ↦ rw e refl
  | inr e ↦
      rw
        (
          e,
          mem-sorted name (diff (keys (inventory.guests)) (deployed (inventory.guests))),
          mem-diff name (keys (inventory.guests)) (deployed (inventory.guests)),
        )
        refl
]
