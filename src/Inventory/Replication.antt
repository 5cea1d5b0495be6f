-- ===== src/Inventory/Replication.antt =====
-- app/inventory/replication.py: the machines that a replication reaches, and what is reported of each.
-- What git answers at each step is an argument, and so is `lower`, Python's `str.lower`.
pub mod Ssh
pub mod Laws
pub mod Surveys
use seapath_webui.Common.{
  Text, codes, ◌==◌, has_part, starts_with, is_empty, strip, take, map, filter, Bool, true, false,
  not, ◌&&◌, ◌||◌, Option, none, some, List, [], ◌∷◌, ◌++◌, if◌then◌else◌,
}
use seapath_webui.Common.Dict.{Dict}
use seapath_webui.Common.Lines.{splitlines, join}
use seapath_webui.Inventory.Model.{Inventory, NodeConfig}
use seapath_webui.Inventory.Repository.{Answer, answered, failed, RemoteState, default_ref}

-- What one machine's copy is, or what the push to it did.
pub data Status : Type 0 where
  up_to_date behind diverged updated refused not_served unreachable : Status

pub record Target : Type 0 where
  pub host : Text
  pub address : Text

pub record Replica : Type 0 where
  pub host : Text
  pub address : Text
  pub commit : Option Text
  pub status : Status
  pub detail : Text

abbrev is_this : Option Text → Text → Bool
is_this none name = false
is_this (some host) name = host == name

unfoldable pub targets_in : Option Text → Dict NodeConfig → List Target
targets_in this_host [] = []
targets_in this_host ((name, node) ∷ hosts) =
    let rest = targets_in this_host hosts in
    if not (is_this this_host name) && not (is_empty (node.ansible_host))
    then (record { host = name; address = node.ansible_host }) ∷ rest
    else rest

-- The machines the inventory declares, minus this one.
unfoldable pub targets : Option Inventory → Option Text → List Target
unfolding targets_in
targets none this_host = []
targets (some inventory) this_host = targets_in this_host (inventory.hosts)

abbrev pub same_commit : Option Text → Option Text → Bool
same_commit none none = true
same_commit none (some b) = false
same_commit (some a) none = false
same_commit (some a) (some b) = a == b

abbrev first_of : Option Text → Option Text → Option Text
first_of none other = other
first_of (some text) other = some text

-- `x or y` for a text that may be missing
abbrev or_words : Option Text → Text → Text
or_words none other = other
or_words (some []) other = other
or_words (some (c ∷ s)) other = c ∷ s

unfoldable pub compare_copy : Option Text → (Text → Bool) → Option Text → Status
unfolding ◌==◌
compare_copy head contains none = if same_commit none head then Status.up_to_date else Status.behind
compare_copy head contains (some commit) =
    if same_commit (some commit) head
    then Status.up_to_date
    else if contains commit
    then Status.behind
    else Status.diverged

abbrev replica : Target → Option Text → Status → Text → Replica
replica target commit status detail = record {
  host = target.host;
  address = target.address;
  commit = commit;
  status = status;
  detail = detail;
}

abbrev pub is_there : Option Text → Option Text → Bool
is_there none head = false
is_there (some commit) head = same_commit (some commit) head

abbrev or_default : Option Text → Text
or_default none = default_ref
or_default (some []) = default_ref
or_default (some (c ∷ branch)) = c ∷ branch

-- The ref a push goes to: the one that machine serves.
abbrev pub pushed_ref : RemoteState → Text
pushed_ref state = or_default (state.branch)

-- What git answers of a machine: to a question, to a push, and to the question after it.
pub record Machine : Type 0 where
  pub before : Answer RemoteState
  pub push : Answer Text
  pub again : Answer RemoteState

module _ (lower : Text → Text) where
  unfoldable pub is_said : Text → Bool
  unfolding strip starts_with
  is_said line =
      not (is_empty (strip line)) && not (starts_with (lower (strip line)) (codes "warning:"))

  -- Git's own words, on one line.
  unfoldable pub sentence : Text → Text
  unfolding is_said splitlines filter strip join
  sentence message = take 500 (join (codes " ") (map strip (filter is_said (splitlines message))))

  unfoldable pub missing_git : Target → Text → Option Text
  unfolding has_part
  missing_git target message =
      let lowered = lower message in
      if has_part (codes "podman: not found") lowered
        || has_part (codes "podman: command not found") lowered
      then some (
          target.host
          ++ codes
              " has neither git nor podman, so nothing there can serve an inventory repository. Install git on it, or leave that machine out of the inventory.")
      else if has_part (codes "no such container") lowered
          || has_part (codes "no container with name") lowered
      then some (
          target.host
          ++ codes
              " has no git, so its own seapath-webui is what would serve the repository, and no seapath-webui container is running there. Start the service on that machine and replicate again.")
      else if has_part (codes "git: not found") lowered
          || has_part (codes "git: command not found") lowered
      then some (
          target.host
          ++ codes
              " could not run git, on its host or in its seapath-webui container. Check that the service is running there, or install git on the machine.")
      else none

  abbrev refused_push : Target → Text → Option Text
  refused_push target message =
      let lowered = lower message in
      if has_part (codes "non-fast-forward") lowered || has_part (codes "fetch first") lowered
      then some (
          target.host
          ++ codes
              " carries commits this node does not have. Open the UI on that machine and replicate from there, or revert what it holds. Nothing was overwritten.")
      else if has_part (codes "does not support push options") lowered
      then some (
          target.host
          ++ codes
              " runs a version that cannot be forced. Update the image there and restart seapath-webui, then replicate again. Nothing was sent.")
      else if has_part (codes "untracked working tree file") lowered
      then some (
          sentence message
          ++ (codes " Remove it on "
              ++ (target.host ++ codes ", commit it there, or tick Force to overwrite it.")))
      else if has_part (codes "rejected]") lowered
      then some (sentence message)
      else none

  -- What the machine refused, told from the machine not answering at all.
  unfoldable pub refusal : Target → Text → Option Text
  unfolding missing_git sentence has_part
  refusal target message = first_of (missing_git target message) (refused_push target message)

  unfoldable pub unreachable_replica : Target → Text → Replica
  unfolding missing_git sentence
  unreachable_replica target message = record {
    host = target.host;
    address = target.address;
    commit = none;
    status = Status.unreachable;
    detail = or_words (missing_git target message) (sentence message);
  }

  -- Which commit the machine holds. `contains` is whether this repository holds a commit.
  unfoldable pub read : Option Text → (Text → Bool) → Target → Answer RemoteState → Replica
  unfolding unreachable_replica compare_copy
  read head contains target (failed message) = unreachable_replica target message
  read head contains target (answered state) = record {
    host = target.host;
    address = target.address;
    commit = state.commit;
    status = compare_copy head contains (state.commit);
    detail = [];
  }

  abbrev refused_or : Target → Option Text → Text → Option Text → Replica
  refused_or target commit message none = unreachable_replica target message
  refused_or target commit message (some detail) = replica target commit Status.refused detail

  abbrev after_push : Option Text → Target → Answer RemoteState → Replica
  after_push head target (failed message) = unreachable_replica target message
  after_push head target (answered served) =
      if not (same_commit (served.commit) head)
      then replica target (served.commit) Status.not_served (
          target.host
          ++ codes
              " took the commit and its files did not change, because its repository serves another branch. A node running this version moves its own repository to main when it starts, so updating the image there and restarting seapath-webui is what fixes it.")
      else replica target (served.commit) Status.updated []

  abbrev pushed : Option Text → Target → Option Text → Answer Text → Answer RemoteState → Replica
  pushed head target commit (failed message) again =
      refused_or target commit message (refusal target message)
  pushed head target commit (answered out) again = after_push head target again

  -- What becomes of the machine: `before`, `push` and `again` are what git answers to the first
  -- question, to the push and to the second question.
  unfoldable pub push_to :
      Option Text → Target → Answer RemoteState → Answer Text → Answer RemoteState → Replica
  unfolding unreachable_replica refusal ◌==◌
  push_to head target (failed message) push again = unreachable_replica target message
  push_to head target (answered state) push again =
      if is_there (state.commit) head
      then replica target (state.commit) Status.up_to_date []
      else pushed head target (state.commit) push again

  unfoldable pub survey :
      Option Text
      → (Text → Bool)
      → (Target → Machine)
      → Option Inventory
      → Option Text
      → List Replica
  unfolding read targets
  survey head contains machine inventory this_host =
      map (λ t. read head contains t ((machine t).before)) (targets inventory this_host)

  unfoldable pub replicate :
      Option Text → (Target → Machine) → Option Inventory → Option Text → List Replica
  unfolding push_to targets
  replicate head machine inventory this_host =
      map (λ t. push_to head t ((machine t).before) ((machine t).push) ((machine t).again))
        (targets inventory this_host)
