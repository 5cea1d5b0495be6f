-- ===== src/Inventory/Model.antt =====
-- app/inventory/model.py: the desired state as the forms edit it. Of a machine and of a guest the
-- fields are those that another modelled part reads; a guest's `extra` is the list of its keys.
use seapath_webui.Common.{
  Text, Bool, true, false, filter, Option, none, some, List, [], ◌∷◌, is_empty, if◌then◌else◌,
}
use seapath_webui.Common.Dict.{Dict, lookup, keys}
use seapath_webui.Common.Names.{mem}

pub data Mode : Type 0 where
  standalone cluster : Mode

pub data NodeRole : Type 0 where
  hypervisor observer : NodeRole

pub record NodeConfig : Type 0 where
  pub role : NodeRole
  pub ansible_host : Text

pub record Guest : Type 0 where
  pub ansible_host : Option Text
  pub has_cloud_init : Bool
  pub deployment : Option Mode
  pub extra : List Text

pub record Inventory : Type 0 where
  pub mode : Mode
  pub hosts : Dict NodeConfig
  pub guests : Dict Guest
  pub cluster_members : List Text

abbrev pub is_hypervisor : NodeRole → Bool
is_hypervisor hypervisor = true
is_hypervisor observer = false

role_is_hypervisor : Option NodeConfig → Bool
role_is_hypervisor none = false
role_is_hypervisor (some node) = is_hypervisor node.role

-- Inventory.placement_hosts
unfoldable pub placement_hosts : Inventory → List Text
unfolding role_is_hypervisor
placement_hosts inventory =
    filter (λ name. role_is_hypervisor (lookup name inventory.hosts)) inventory.cluster_members

-- Inventory.cluster_hosts
unfoldable pub cluster_hosts : Inventory → List Text
cluster_hosts inventory =
    let members = filter (λ name. mem name inventory.cluster_members) (keys inventory.hosts) in
    if is_empty members then keys inventory.hosts else members

declared_deployment : Mode → Option Guest → Mode
declared_deployment mode none = mode
declared_deployment mode (some guest) = elim guest.deployment [ none ↦ mode | some own ↦ own ]

-- Inventory.deployment_of
unfoldable pub deployment_of : Text → Inventory → Mode
unfolding declared_deployment
deployment_of name inventory = declared_deployment inventory.mode (lookup name inventory.guests)

unfoldable pub names_of_role : Bool → Dict NodeConfig → List Text
names_of_role wanted [] = []
names_of_role wanted ((name, node) ∷ hosts) =
    let rest = names_of_role wanted hosts in
    if is_hypervisor node.role
    then (if wanted then name ∷ rest else rest)
    else if wanted
    then rest
    else name ∷ rest

-- Inventory.hypervisors
unfoldable pub hypervisors : Inventory → List Text
unfolding names_of_role
hypervisors inventory = names_of_role true inventory.hosts

-- Inventory.observers
unfoldable pub observers : Inventory → List Text
unfolding names_of_role
observers inventory = names_of_role false inventory.hosts

-- What `InventoryService.state` answers, as far as another modelled part reads it: `seeded` whether
-- there is a file, `failing` the rules that it breaks.
pub record InventoryState : Type 0 where
  pub inventory : Option Inventory
  pub this_host : Option Text
  pub seeded : Bool
  pub failing : List Text
