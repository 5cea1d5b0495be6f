-- ===== src/Runs/Scope.antt =====
-- app/runs/scope.py: which machines a run plays. `played` is what `_matching` reads of the playbook's
-- `hosts:` lines, `none` where it cannot, and `names_guests` what `_names_guests` answers of them.
pub mod Default
pub mod Narrowed
pub mod Choices
pub mod Matching
mod Examples
use seapath_webui.Common.{
  Text, codes, ◌==◌, is_empty, Bool, true, false, not, ◌&&◌, ◌||◌, Option, none, some, List, [],
  ◌∷◌, ◌++◌, if◌then◌else◌,
}
use seapath_webui.Common.Dict.{has}
use seapath_webui.Common.Names.{mem, union, inter, diff, to_set, sorted, subset}
use seapath_webui.Inventory.Resolve.{Table, root, members}
use seapath_webui.Runs.Models.{RunScope}

abbrev pub guest_group : Text
guest_group = codes "VMs"

pub record Scope : Type 0 where
  pub limit : Option Text
  pub hosts : Option (List Text)
  pub excluded : List Text
  pub requested : RunScope

pub data ScopeRefused : Type 0 where
  unknown_group unknown_host : Text → ScopeRefused
  empty_scope : List Text → ScopeRefused

pub data Checked (A : Type 0) : Type 0 where
  accepted : A → Checked A
  refused : ScopeRefused → Checked A

and_then : {A B : Type 0} → Checked A → (A → Checked B) → Checked B
and_then (accepted a) f = f a
and_then (refused why) f = refused why

-- RunScope.narrowed
unfoldable pub is_narrowed : RunScope → Bool
is_narrowed asked = not (is_empty asked.groups) || not (is_empty asked.hosts)

without : Option (List Text) → List Text → Option (List Text)
without none guests = none
without (some played) guests = some (sorted (diff played guests))

excluded_of : Option (List Text) → List Text → Bool → List Text
excluded_of none guests names_guests =
    if not (is_empty guests) && names_guests then sorted guests else []
excluded_of (some played) guests names_guests = sorted (inter guests played)

aimed_at_guests : Option (List Text) → List Text → Bool
aimed_at_guests none guests = false
aimed_at_guests (some played) guests = not (is_empty played) && subset played guests

sorted_hosts : Option (List Text) → Option (List Text)
sorted_hosts none = none
sorted_hosts (some played) = some (sorted played)

-- _default
unfoldable pub default : Bool → Option (List Text) → List Text → RunScope → Scope
unfolding without excluded_of aimed_at_guests sorted_hosts
default names_guests played guests asked =
    let excluded = excluded_of played guests names_guests in
    if aimed_at_guests played guests
    then record { limit = none; hosts = sorted_hosts played; excluded = []; requested = asked }
    else record {
      limit = if is_empty excluded then none else some (root ++ codes ":!" ++ guest_group);
      hosts = without played guests;
      excluded = excluded;
      requested = asked;
    }

-- _group
unfoldable pub group_hosts : Table → Text → Checked (List Text)
group_hosts table name =
    if not (has name table) || (not (name == root) && is_empty (members table name))
    then refused (unknown_group name)
    else accepted (members table name)

-- _host
unfoldable pub host_hosts : Table → Text → Checked (List Text)
host_hosts table name =
    if mem name (members table root) then accepted (name ∷ []) else refused (unknown_host name)

-- The two loops of `plan` that fill `selected`.
unfoldable pub selecting :
    (Text → Checked (List Text)) → List Text → List Text → Checked (List Text)
unfolding and_then
selecting hosts_of [] selected = accepted selected
selecting hosts_of (name ∷ names) selected =
    and_then (hosts_of name) (λ hosts. selecting hosts_of names (union selected hosts))

narrow : Option (List Text) → List Text → List Text
narrow none selected = selected
narrow (some played) selected = inter selected played

joined : List Text → Text
joined [] = []
joined (name ∷ []) = name
joined (name ∷ names) = name ++ codes ":" ++ joined names

unfoldable pub chosen_names : RunScope → List Text
chosen_names asked = sorted (to_set asked.groups) ++ sorted (to_set asked.hosts)

unfoldable pub settled : RunScope → List Text → Checked Scope
unfolding joined chosen_names
settled asked narrowed =
    if is_empty narrowed
    then refused (empty_scope (chosen_names asked))
    else accepted (record {
      limit = some (joined (chosen_names asked));
      hosts = some (sorted narrowed);
      excluded = [];
      requested = asked;
    })

-- plan
unfoldable pub plan : Bool → Option (List Text) → Table → RunScope → Checked Scope
unfolding and_then default group_hosts host_hosts selecting narrow settled is_narrowed
plan names_guests played table asked =
    if is_narrowed asked
    then and_then (selecting (group_hosts table) (sorted (to_set asked.groups)) []) (λ of_groups.
      and_then (selecting (host_hosts table) (sorted (to_set asked.hosts)) of_groups)
        (λ selected. settled asked (narrow played selected)))
    else accepted (default names_guests played (members table guest_group) asked)
