-- ===== src/Inventory/Replication/Surveys.antt =====
-- What stands behind each status that a survey reports.
use seapath_webui.Common.{
  Text, Bool, true, false, Option, none, some, List, [], ◌∷◌, map, All, ◌≡◌, ◌≢◌, ◌⊎◌, refl, sym,
  ◌∙◌, Bool-cases, inl, inr,
}
use seapath_webui.Inventory.Model.{Inventory}
use seapath_webui.Inventory.Repository.{Answer, answered, failed, RemoteState}
use seapath_webui.Inventory.Replication.{
  Status, Target, Machine, same_commit, targets, read, compare_copy, unreachable_replica, survey,
}
use seapath_webui.Inventory.Replication.Laws.{same_commit_sound, same_commit_complete}

-- What git answered, where the machine is reported with the status by a survey.
abbrev pub Surveyed : Option Text → (Text → Bool) → Machine → Status → Type 0
Surveyed head contains machine Status.up_to_date =
    (state : RemoteState) × (machine.before ≡ answered state) × (state.commit ≡ head)
Surveyed head contains machine Status.behind =
    (state : RemoteState) × (machine.before ≡ answered state)
    × ((state.commit ≡ none)
        ⊎ ((commit : Text) × (state.commit ≡ some commit) × (contains commit ≡ true)))
Surveyed head contains machine Status.diverged =
    (state : RemoteState) × (commit : Text) × (machine.before ≡ answered state)
    × (state.commit ≡ some commit)
    × (contains commit ≡ false)
    × (state.commit ≢ head)
Surveyed head contains machine Status.updated = ⊥
Surveyed head contains machine Status.refused = ⊥
Surveyed head contains machine Status.not_served = ⊥
Surveyed head contains machine Status.unreachable =
    (message : Text) × (machine.before ≡ failed message)

module _ (lower : Text → Text) where
  compare_copy-Surveyed :
      (head : Option Text) (contains : Text → Bool) (machine : Machine) (state : RemoteState)
      (o : Option Text)
      → machine.before ≡ answered state
      → state.commit ≡ o
      → Surveyed head contains machine (compare_copy head contains o)
  unfolding compare_copy
  compare_copy-Surveyed none contains machine state none e f = (state, e, f)
  compare_copy-Surveyed (some h) contains machine state none e f = (state, e, inl f)
  compare_copy-Surveyed head contains machine state (some commit) e f =
      elim (Bool-cases (same_commit (some commit) head)) [
        | inl same ↦ rw same (state, e, f ∙ same_commit_sound (some commit) head same)
        | inr other ↦ elim (Bool-cases (contains commit)) [
          | inl held ↦ rw (other, held) (state, e, inr (commit, f, held))
          | inr away ↦
              rw (other, away)
                (
                  state,
                  commit,
                  e,
                  f,
                  away,
                  λ g. same_commit_complete (some commit) head other (sym f ∙ g),
                )
        ]
      ]

  read-Surveyed :
      (head : Option Text) (contains : Text → Bool) (target : Target) (machine : Machine)
      (b : Answer RemoteState)
      → machine.before ≡ b
      → Surveyed head contains machine ((read lower head contains target b).status)
  unfolding read unreachable_replica
  read-Surveyed head contains target machine (failed message) e = (message, e)
  read-Surveyed head contains target machine (answered state) e =
      compare_copy-Surveyed head contains machine state (state.commit) e refl

  read-host :
      (head : Option Text) (contains : Text → Bool) (target : Target) (b : Answer RemoteState)
      → (read lower head contains target b).host ≡ target.host
  unfolding read unreachable_replica
  read-host head contains target (failed message) = refl
  read-host head contains target (answered state) = refl

  -- A survey reports each target, in order, with a status that git's answer bears out: up to date where
  -- the machine serves this node's commit, behind where it serves none or one that this repository
  -- holds, diverged where it serves another one that this repository does not hold, unreachable where
  -- git failed.
  pub survey-Surveyed :
      (head : Option Text) (contains : Text → Bool) (machine : Target → Machine)
      (inventory : Option Inventory) (this_host : Option Text)
      → (map (λ r. r.host) (survey lower head contains machine inventory this_host)
          ≡ map (λ t. t.host) (targets inventory this_host))
        × All
            (λ t.
              Surveyed head contains
                (machine t)
                ((read lower head contains t ((machine t).before)).status))
            (targets inventory this_host)
  unfolding survey
  survey-Surveyed head contains machine inventory this_host =
      (hosts_of (targets inventory this_host), each (targets inventory this_host))
    where
      hosts_of :
          (ts : List Target)
          → map (λ r. r.host) (map (λ t. read lower head contains t ((machine t).before)) ts)
            ≡ map (λ t. t.host) ts
      hosts_of [] = refl
      hosts_of (t ∷ ts) = rw (read-host head contains t ((machine t).before), hosts_of ts) refl

      each :
          (ts : List Target)
          → All
              (λ t.
                Surveyed head contains
                  (machine t)
                  ((read lower head contains t ((machine t).before)).status))
              ts
      each [] = tt
      each (t ∷ ts) = (read-Surveyed head contains t (machine t) ((machine t).before) refl, each ts)
