-- ===== src/Inventory/Replication/Laws.antt =====
-- What stands behind each status that a replication reports.
use seapath_webui.Common.{
  Text, codes, any, has_part, arith, eq_iff, Bool, true, false, Option, none, some, List, [], ◌∷◌,
  map, ◌≡◌, ◌≢◌, ◌⊎◌, refl, ap, sym, subst, Bool-cases, inl, inr,
}
use seapath_webui.Inventory.Model.{Inventory}
use seapath_webui.Inventory.Repository.{Answer, answered, failed, RemoteState}
use seapath_webui.Inventory.Replication.{
  Status, Target, Replica, Machine, same_commit, is_there, targets, push_to, pushed, after_push,
  refused_or, refusal, missing_git, unreachable_replica, replicate,
}

pub same_commit_sound : (a b : Option Text) → same_commit a b ≡ true → a ≡ b
same_commit_sound none none h = refl
same_commit_sound none (some b) h = cc
same_commit_sound (some a) none h = cc
same_commit_sound (some a) (some b) h = ap some ((eq_iff a b).0 h)

pub same_commit_complete : (a b : Option Text) → same_commit a b ≡ false → a ≢ b
same_commit_complete a b h e = differs a (subst (λ c. same_commit a c ≡ false) (sym e) h)
  where
    differs : (c : Option Text) → same_commit c c ≡ false → ⊥
    differs none h = cc
    differs (some c) h = cc ((eq_iff c c).1 refl)

is_there_sound : (a b : Option Text) → is_there a b ≡ true → a ≡ b
is_there_sound none b h = cc
is_there_sound (some a) b h = same_commit_sound (some a) b h

-- What git says, in lower case, where a machine refused a push: it has no git, it holds commits of its
-- own, or it would not take this one.
abbrev pub refusal_phrases : List Text
refusal_phrases =
    codes "podman: not found"
    ∷ codes "podman: command not found"
    ∷ codes "no such container"
    ∷ codes "no container with name"
    ∷ codes "git: not found"
    ∷ codes "git: command not found"
    ∷ codes "non-fast-forward"
    ∷ codes "fetch first"
    ∷ codes "does not support push options"
    ∷ codes "untracked working tree file"
    ∷ codes "rejected]"
    ∷ []

-- Whether a text holds one of those phrases.
abbrev pub tells_refusal : Text → Bool
tells_refusal text = any (λ phrase. has_part phrase text) refusal_phrases

-- What git answered, where the machine is reported with the status after a replication.
abbrev pub Replicated : (Text → Text) → Option Text → Machine → Status → Type 0
Replicated lower head machine Status.up_to_date =
    (state : RemoteState) × (machine.before ≡ answered state) × (state.commit ≡ head)
Replicated lower head machine Status.behind = ⊥
Replicated lower head machine Status.diverged = ⊥
Replicated lower head machine Status.updated =
    (out : Text) × (served : RemoteState) × (machine.push ≡ answered out)
    × (machine.again ≡ answered served)
    × (served.commit ≡ head)
Replicated lower head machine Status.refused =
    (message : Text) × (machine.push ≡ failed message) × (tells_refusal (lower message) ≡ true)
Replicated lower head machine Status.not_served =
    (out : Text) × (served : RemoteState) × (machine.push ≡ answered out)
    × (machine.again ≡ answered served)
    × (served.commit ≢ head)
Replicated lower head machine Status.unreachable =
    (message : Text) × ((machine.before ≡ failed message)
      ⊎ (((machine.push ≡ failed message) × (tells_refusal (lower message) ≡ false))
          ⊎ (machine.again ≡ failed message)))

-- The replicas are of the targets, in order, each with a status that git's answers bear out.
abbrev pub Replicas :
    (Text → Text) → Option Text → (Target → Machine) → List Target → List Replica → Type 0
Replicas lower head machine [] [] = Unit {0}
Replicas lower head machine (t ∷ ts) (r ∷ rs) =
    ((r.host ≡ t.host) × (r.address ≡ t.address) × Replicated lower head (machine t) (r.status))
    × Replicas lower head machine ts rs
Replicas lower head machine _ _ = ⊥

module _ (lower : Text → Text) where
  abbrev reported : Option Text → Target → Machine → Replica
  reported head target machine =
      push_to lower head target (machine.before) (machine.push) (machine.again)

  refusal-tells :
      (target : Target) (message : Text)
      → ((refusal lower target message ≡ none) → tells_refusal (lower message) ≡ false)
        × ((detail : Text)
            → refusal lower target message ≡ some detail
            → tells_refusal (lower message) ≡ true)
  unfolding refusal missing_git any
  refusal-tells target message = (λ h. ground arith, λ detail h. ground arith)

  refused-Replicated :
      (head : Option Text) (target : Target) (machine : Machine) (commit : Option Text)
      (message : Text) (o : Option Text)
      → machine.push ≡ failed message
      → refusal lower target message ≡ o
      → Replicated lower head machine ((refused_or lower target commit message o).status)
  unfolding unreachable_replica
  refused-Replicated head target machine commit message none e said =
      (message, inr (inl (e, (refusal-tells target message).0 said)))
  refused-Replicated head target machine commit message (some detail) e said =
      (message, e, (refusal-tells target message).1 detail said)

  served-Replicated :
      (head : Option Text) (target : Target) (machine : Machine) (out : Text)
      (a : Answer RemoteState)
      → machine.push ≡ answered out
      → machine.again ≡ a
      → Replicated lower head machine ((after_push lower head target a).status)
  unfolding unreachable_replica
  served-Replicated head target machine out (failed message) e f = (message, inr (inr f))
  served-Replicated head target machine out (answered served) e f =
      elim (Bool-cases (same_commit (served.commit) head)) [
        | inl same ↦ rw same (out, served, e, f, same_commit_sound (served.commit) head same)
        | inr other ↦ rw other (out, served, e, f, same_commit_complete (served.commit) head other)
      ]

  pushed-Replicated :
      (head : Option Text) (target : Target) (machine : Machine) (commit : Option Text)
      (p : Answer Text)
      → machine.push ≡ p
      → Replicated lower head machine ((pushed lower head target commit p (machine.again)).status)
  pushed-Replicated head target machine commit (failed message) e =
      refused-Replicated head target machine commit message (refusal lower target message) e refl
  pushed-Replicated head target machine commit (answered out) e =
      served-Replicated head target machine out (machine.again) e refl

  before-Replicated :
      (head : Option Text) (target : Target) (machine : Machine) (b : Answer RemoteState)
      → machine.before ≡ b
      → Replicated lower head machine
          ((push_to lower head target b (machine.push) (machine.again)).status)
  unfolding push_to unreachable_replica
  before-Replicated head target machine (failed message) e = (message, inl e)
  before-Replicated head target machine (answered state) e =
      elim (Bool-cases (is_there (state.commit) head)) [
        | inl there ↦ rw there (state, e, is_there_sound (state.commit) head there)
        | inr away ↦
            rw away (pushed-Replicated head target machine (state.commit) (machine.push) refl)
      ]

  refused_or-host :
      (target : Target) (commit : Option Text) (message : Text) (o : Option Text)
      → (refused_or lower target commit message o).host ≡ target.host
  unfolding unreachable_replica
  refused_or-host target commit message none = refl
  refused_or-host target commit message (some detail) = refl

  after_push-host :
      (head : Option Text) (target : Target) (a : Answer RemoteState)
      → (after_push lower head target a).host ≡ target.host
  unfolding unreachable_replica
  after_push-host head target (failed message) = refl
  after_push-host head target (answered served) =
      elim (Bool-cases (same_commit (served.commit) head)) [
        | inl same ↦ rw same refl
        | inr other ↦ rw other refl
      ]

  pushed-host :
      (head : Option Text) (target : Target) (commit : Option Text) (p : Answer Text)
      (a : Answer RemoteState)
      → (pushed lower head target commit p a).host ≡ target.host
  pushed-host head target commit (failed message) a =
      refused_or-host target commit message (refusal lower target message)
  pushed-host head target commit (answered out) a = after_push-host head target a

  push_to-host :
      (head : Option Text) (target : Target) (b : Answer RemoteState) (p : Answer Text)
      (a : Answer RemoteState)
      → (push_to lower head target b p a).host ≡ target.host
  unfolding push_to unreachable_replica
  push_to-host head target (failed message) p a = refl
  push_to-host head target (answered state) p a = elim (Bool-cases (is_there (state.commit) head)) [
    | inl there ↦ rw there refl
    | inr away ↦ rw away (pushed-host head target (state.commit) p a)
  ]

  refused_or-address :
      (target : Target) (commit : Option Text) (message : Text) (o : Option Text)
      → (refused_or lower target commit message o).address ≡ target.address
  unfolding unreachable_replica
  refused_or-address target commit message none = refl
  refused_or-address target commit message (some detail) = refl

  after_push-address :
      (head : Option Text) (target : Target) (a : Answer RemoteState)
      → (after_push lower head target a).address ≡ target.address
  unfolding unreachable_replica
  after_push-address head target (failed message) = refl
  after_push-address head target (answered served) =
      elim (Bool-cases (same_commit (served.commit) head)) [
        | inl same ↦ rw same refl
        | inr other ↦ rw other refl
      ]

  pushed-address :
      (head : Option Text) (target : Target) (commit : Option Text) (p : Answer Text)
      (a : Answer RemoteState)
      → (pushed lower head target commit p a).address ≡ target.address
  pushed-address head target commit (failed message) a =
      refused_or-address target commit message (refusal lower target message)
  pushed-address head target commit (answered out) a = after_push-address head target a

  push_to-address :
      (head : Option Text) (target : Target) (b : Answer RemoteState) (p : Answer Text)
      (a : Answer RemoteState)
      → (push_to lower head target b p a).address ≡ target.address
  unfolding push_to unreachable_replica
  push_to-address head target (failed message) p a = refl
  push_to-address head target (answered state) p a =
      elim (Bool-cases (is_there (state.commit) head)) [
        | inl there ↦ rw there refl
        | inr away ↦ rw away (pushed-address head target (state.commit) p a)
      ]

  -- A replication reports the targets in order, each under its host and address, with a status that
  -- git's answers bear out, whatever they are: updated where the push was taken and the machine then
  -- serves this node's commit, not served where it was taken and the machine serves another, up to date
  -- where it served that commit before, refused where the push failed in words that tell a refusal,
  -- unreachable where it failed in other words, or where git failed before it or after it.
  pub replicate-Replicated :
      (head : Option Text) (machine : Target → Machine) (inventory : Option Inventory)
      (this_host : Option Text)
      → Replicas lower head machine
          (targets inventory this_host)
          (replicate lower head machine inventory this_host)
  unfolding replicate
  replicate-Replicated head machine inventory this_host = each (targets inventory this_host)
    where
      each :
          (ts : List Target)
          → Replicas lower head machine ts (map (λ t. reported head t (machine t)) ts)
      each [] = tt
      each (t ∷ ts) = (
        (
          push_to-host head t ((machine t).before) ((machine t).push) ((machine t).again),
          push_to-address head t ((machine t).before) ((machine t).push) ((machine t).again),
          before-Replicated head t (machine t) ((machine t).before) refl,
        ),
        each ts,
      )
