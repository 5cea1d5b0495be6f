-- ===== src/Console/Targets.antt =====
-- app/console/service.py: the places that a console may be opened on. `recorded` is what
-- `known_hosts.recorded_names` answers, `hostname` and `address` the machine's own.
pub mod Sound
use seapath_webui.Common.{
  Text, codes, ◌==◌, is_empty, strip, has_part, find, Bool, true, false, ◌||◌, Option, none, some,
  List, [], ◌∷◌, ◌++◌, if◌then◌else◌, ◌≡◌, refl,
}
use seapath_webui.Common.Dict.{Dict}
use seapath_webui.Common.Names.{mem}
use seapath_webui.Inventory.Model.{NodeConfig, Guest, Inventory, InventoryState}

pub data TargetKind : Type 0 where
  this_machine machine guest : TargetKind

pub record ConsoleTarget : Type 0 where
  pub name : Text
  pub kind : TargetKind
  pub address : Text
  pub host_key_known : Bool

pub data Unavailable : Type 0 where
  console_disabled console_busy trust_missing : Unavailable
  unknown_host unknown_guest no_hypervisor host_key_unknown : Text → Unavailable

-- What a step gives, or the `ConsoleUnavailable` that it raises.
pub data Attempt (A : Type 0) : Type 0 where
  granted : A → Attempt A
  unavailable : Unavailable → Attempt A

infixl 5 ◌>>=◌
abbrev pub ◌>>=◌ : {A B : Type 0} → Attempt A → (A → Attempt B) → Attempt B
granted a >>= f = f a
unavailable why >>= f = unavailable why

pub >>=-eq-granted :
    {A B : Type 0} (m : Attempt A) (f : A → Attempt B) {b : B}
    → (m >>= f) ≡ granted b
    → (a : A) × (m ≡ granted a) × (f a ≡ granted b)
>>=-eq-granted (granted a) f h = (a, refl, h)
>>=-eq-granted (unavailable why) f h = cc

pub granted-injective : {A : Type 0} (a b : A) → granted a ≡ granted b → a ≡ b
granted-injective a b h = cc

-- The two addresses that the service is given.
pub record Self : Type 0 where
  pub hostname : Text
  pub address : Text

-- `value or other`
or_default : Text → Option Text → Text
or_default other none = other
or_default other (some []) = other
or_default other (some (c ∷ rest)) = c ∷ rest

state_host : Option InventoryState → Option Text
state_host none = none
state_host (some state) = state.this_host

unfoldable pub own_name : Self → Option InventoryState → Text
unfolding or_default state_host
own_name self state = or_default self.hostname (state_host state)

unfoldable pub own_target : Self → Option InventoryState → ConsoleTarget
unfolding own_name
own_target self state = record {
  name = own_name self state;
  kind = this_machine;
  address = self.address;
  host_key_known = true;
}

pub record Declared : Type 0 where
  pub name : Text
  pub kind : TargetKind
  pub address : Option Text

declared_machines : Dict NodeConfig → List Declared
declared_machines [] = []
declared_machines ((name, node) ∷ hosts) =
    record { name = name; kind = machine; address = some node.ansible_host }
    ∷ declared_machines hosts

declared_guests : Dict Guest → List Declared
declared_guests [] = []
declared_guests ((name, guest_read) ∷ guests) =
    record { name = name; kind = guest; address = guest_read.ansible_host } ∷ declared_guests guests

unfoldable pub declared : Inventory → List Declared
unfolding declared_machines declared_guests
declared inventory = declared_machines inventory.hosts ++ declared_guests inventory.guests

-- `(address or "").strip()`
unfoldable pub stripped : Option Text → Text
unfolding or_default
stripped address = strip (or_default [] address)

-- Whether the loop of `targets` passes an entry over.
unfoldable pub passed_over : List Text → Declared → Bool
unfolding stripped
passed_over seen entry =
    mem entry.name seen
    || is_empty (stripped entry.address)
    || has_part (codes "{{") (stripped entry.address)

unfoldable pub offered : List Text → List Text → List Declared → List ConsoleTarget
unfolding passed_over
offered recorded seen [] = []
offered recorded seen (entry ∷ entries) =
    let without = offered recorded seen entries in
    let rest = offered recorded (entry.name ∷ seen) entries in
    if passed_over seen entry
    then without
    else record {
      name = entry.name;
      kind = entry.kind;
      address = stripped entry.address;
      host_key_known = mem (stripped entry.address) recorded;
    }
      ∷ rest

unfoldable pub state_inventory : Option InventoryState → Option Inventory
state_inventory none = none
state_inventory (some state) = state.inventory

offered_of : List Text → Text → Option Inventory → List ConsoleTarget
offered_of recorded this_host none = []
offered_of recorded this_host (some inventory) =
    offered recorded (this_host ∷ []) (declared inventory)

-- ConsoleService.targets
unfoldable pub targets : Self → List Text → Option InventoryState → List ConsoleTarget
unfolding own_target state_inventory offered_of
targets self recorded state =
    own_target self state ∷ offered_of recorded (own_name self state) (state_inventory state)

unfoldable pub first_named : Text → Option ConsoleTarget → Attempt ConsoleTarget
first_named name none = unavailable (unknown_host name)
first_named name (some target) = granted target

-- ConsoleService.resolve: of no name, or an empty one, the first target.
unfoldable pub resolve :
    Self → List Text → Option InventoryState → Option Text → Attempt ConsoleTarget
unfolding own_target first_named
resolve self recorded state none = granted (own_target self state)
resolve self recorded state (some []) = granted (own_target self state)
resolve self recorded state (some (c ∷ name)) =
    first_named (c ∷ name) (find (λ target. target.name == c ∷ name) (targets self recorded state))
