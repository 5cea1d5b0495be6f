-- ===== src/Trust/KnownHosts/Refines.antt =====
-- The record of accepted keys as a relation between addresses and keys, under any operations.
use seapath_webui.Common.{
  Text, Bool, false, ◌==◌, Option, List, [], ◌∷◌, if◌then◌else◌, ◌||◌, ◌≡◌, refl, ap, sym, ◌∙◌, All,
}
use seapath_webui.Common.Dict.{Dict}
use seapath_webui.Trust.KnownHosts.{
  KnownHosts, read_peers, accept_peers, forget_peer, forget_address,
}
use seapath_webui.Trust.KnownHosts.Local.{ensure_local, add_local}
use seapath_webui.Trust.KnownHosts.Record.{IsFormed, holds}
use seapath_webui.Trust.KnownHosts.Held.{
  offers, or-IsFormed, removed-IsFormed, holds-accept, holds-forget, accepted-local,
}

-- What can be done to the files.
pub data Act : Type 0 where
  accept : Dict (List Text) → Act
  forget : Text → Act
  forget_all : Text → Act
  ensure : List (Option Text) → List Text → Act
  add : List (Option Text) → List Text → Act

unfoldable pub act : Act → KnownHosts → KnownHosts
unfolding accept_peers forget_peer forget_address ensure_local add_local
act (accept entries) hosts = accept_peers entries hosts
act (forget address) hosts = (forget_peer address hosts).0
act (forget_all address) hosts = forget_address address hosts
act (ensure own names) hosts = (ensure_local own names hosts).0
act (add own names) hosts = (add_local own names hosts).0

unfoldable pub acts : List Act → KnownHosts → KnownHosts
unfolding act
acts [] hosts = hosts
acts (first ∷ rest) hosts = acts rest (act first hosts)

-- The relation of accepted keys after an operation: a union, a removal, or no change.
abbrev pub specified : Act → (Text → Text → Bool) → Text → Text → Bool
specified (accept entries) held address key = held address key || offers entries address key
specified (forget name) held address key = if name == address then false else held address key
specified (forget_all name) held address key = if name == address then false else held address key
specified (ensure own names) held address key = held address key
specified (add own names) held address key = held address key

abbrev pub specified_run : List Act → (Text → Text → Bool) → Text → Text → Bool
specified_run [] held = held
specified_run (first ∷ rest) held = specified_run rest (specified first held)

-- What is accepted can be written on lines.
abbrev pub IsFormedAct : Act → Type 0
IsFormedAct (accept entries) = IsFormed (offers entries)
IsFormedAct (forget address) = Unit
IsFormedAct (forget_all address) = Unit
IsFormedAct (ensure own names) = Unit
IsFormedAct (add own names) = Unit

holds-act :
    (first : Act) (hosts : KnownHosts) (address key : Text)
    → IsFormed (holds (read_peers hosts))
    → IsFormedAct first
    → holds (read_peers (act first hosts)) address key
      ≡ specified first (holds (read_peers hosts)) address key
unfolding act
holds-act (accept entries) hosts address key h formed =
    holds-accept entries hosts address key h formed
holds-act (forget name) hosts address key h formed = (holds-forget name hosts address key h).0
holds-act (forget_all name) hosts address key h formed = (holds-forget name hosts address key h).1
holds-act (ensure own names) hosts address key h formed =
    ap (λ d. holds d address key) ((accepted-local own names hosts).0)
holds-act (add own names) hosts address key h formed =
    ap (λ d. holds d address key) ((accepted-local own names hosts).1)

act-IsFormed :
    (first : Act) (hosts : KnownHosts)
    → IsFormed (holds (read_peers hosts))
    → IsFormedAct first
    → IsFormed (holds (read_peers (act first hosts)))
act-IsFormed (accept entries) hosts h formed =
    or-IsFormed (holds (read_peers hosts)) (offers entries) _
      (λ a k. holds-act (accept entries) hosts a k h formed) h formed
act-IsFormed (forget name) hosts h formed =
    removed-IsFormed name (holds (read_peers hosts)) _
      (λ a k. holds-act (forget name) hosts a k h formed) h
act-IsFormed (forget_all name) hosts h formed =
    removed-IsFormed name (holds (read_peers hosts)) _
      (λ a k. holds-act (forget_all name) hosts a k h formed) h
act-IsFormed (ensure own names) hosts h formed =
    λ a k e. h a k (sym (holds-act (ensure own names) hosts a k h formed) ∙ e)
act-IsFormed (add own names) hosts h formed =
    λ a k e. h a k (sym (holds-act (add own names) hosts a k h formed) ∙ e)

specified-cong :
    (first : Act) (p q : Text → Text → Bool)
    → ((address key : Text) → p address key ≡ q address key)
    → (address key : Text) → specified first p address key ≡ specified first q address key
specified-cong (accept entries) p q e a k = rw (e a k) refl
specified-cong (forget name) p q e a k = rw (e a k) refl
specified-cong (forget_all name) p q e a k = rw (e a k) refl
specified-cong (ensure own names) p q e a k = e a k
specified-cong (add own names) p q e a k = e a k

specified_run-cong :
    (rest : List Act) (p q : Text → Text → Bool)
    → ((address key : Text) → p address key ≡ q address key)
    → (address key : Text) → specified_run rest p address key ≡ specified_run rest q address key
specified_run-cong [] p q e = e
specified_run-cong (first ∷ rest) p q e =
    specified_run-cong rest (specified first p) (specified first q) (specified-cong first p q e)

-- Whatever is accepted, forgotten, provisioned and added, in any order, the keys read back from the
-- record of accepted keys are those of the abstract relation, to which an acceptance adds its keys,
-- from which either way of forgetting takes the address, and which the machine's own keys leave alone.
-- The keys recorded at first and those accepted are two words, their addresses one word that is no
-- comment, and writes succeed.
pub acts_refine :
    (operations : List Act) (hosts : KnownHosts)
    → IsFormed (holds (read_peers hosts))
    → All IsFormedAct operations
    → (address key : Text)
    → holds (read_peers (acts operations hosts)) address key
      ≡ specified_run operations (holds (read_peers hosts)) address key
unfolding acts
acts_refine [] hosts h formed address key = refl
acts_refine (first ∷ rest) hosts h formed address key =
    acts_refine rest (act first hosts) (act-IsFormed first hosts h (formed.0)) (formed.1) address
      key
    ∙ specified_run-cong rest (holds (read_peers (act first hosts)))
        (specified first (holds (read_peers hosts))) (λ a k. holds-act first hosts a k h (formed.0))
        address key
