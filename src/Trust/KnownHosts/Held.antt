-- ===== src/Trust/KnownHosts/Held.antt =====
-- What each operation does to the keys that are read back from the record of accepted keys.
use seapath_webui.Common.{
  Text, Bool, true, false, ◌==◌, eq_iff, is_empty, Option, some, List, [], ◌∷◌, if◌then◌else◌, ◌||◌,
  ◌&&◌, ◌≡◌, refl, ap, sym, subst, ◌∙◌, Bool-cases, and-eq-true, or-eq-true, inl, inr, arith,
  or_assoc, or_false,
}
use seapath_webui.Common.Dict.{Dict, remove, has, lookup-remove}
use seapath_webui.Common.Names.{mem}
use seapath_webui.Common.Lines.{splitlines}
use seapath_webui.Trust.KnownHosts.{
  KnownHosts, keys_at, read_peers, render, accept_key, accept_keys, accept_entries, accept_peers,
  forget_peer, forgotten, forget_address, drop_from_live, merge_into_live, read_local_host_keys,
  text_of,
}
use seapath_webui.Trust.KnownHosts.Local.{
  ensure_local, add_local, rewritten, is_content, local_entries, extend_entries, missing_from,
}
use seapath_webui.Trust.KnownHosts.Record.{
  IsFormed, holds, holds-insert, holds-render, lookup-none-holds,
}

-- What an operator accepts.
abbrev pub offers : Dict (List Text) → Text → Text → Bool
offers [] address key = false
offers ((name, host_keys) ∷ entries) address key =
    (name == address && mem key host_keys) || offers entries address key

holds-already :
    (name k : Text) (known : Dict (List Text)) (address key : Text)
    → mem k (keys_at name known) ≡ true
    → holds known address key ≡ (holds known address key || (name == address && k == key))
unfolding holds mem
holds-already name k known address key h = elim (Bool-cases (name == address && k == key)) [
  | inl e ↦
      let (p, q) = and-eq-true (name == address) (k == key) e in
      rw
        (subst (λ x. mem x (keys_at address known) ≡ true) ((eq_iff k key).0 q)
          (subst (λ n. mem k (keys_at n known) ≡ true) ((eq_iff name address).0 p) h))
        refl
  | inr e ↦ rw e (sym (or_false (mem key (keys_at address known))))
]

holds-accept_key :
    (name k : Text) (known : Dict (List Text)) (address key : Text)
    → holds (accept_key name k known) address key
      ≡ (holds known address key || (name == address && k == key))
unfolding accept_key
holds-accept_key name k known address key = elim (Bool-cases (mem k (keys_at name known))) [
  | inl e ↦ rw e (holds-already name k known address key e)
  | inr e ↦ rw e (holds-insert name k known address key)
]

holds-accept_keys :
    (name : Text) (host_keys : List Text) (known : Dict (List Text)) (address key : Text)
    → holds (accept_keys name host_keys known) address key
      ≡ (holds known address key || (name == address && mem key host_keys))
unfolding accept_keys mem
holds-accept_keys name [] known address key = ground arith
holds-accept_keys name (k ∷ host_keys) known address key =
    holds-accept_keys name host_keys (accept_key name k known) address key
    ∙ rw (holds-accept_key name k known address key) (ground arith)

pub holds-accept_entries :
    (entries known : Dict (List Text)) (address key : Text)
    → holds (accept_entries entries known) address key
      ≡ (holds known address key || offers entries address key)
unfolding accept_entries
holds-accept_entries [] known address key = sym (or_false (holds known address key))
holds-accept_entries ((name, host_keys) ∷ entries) known address key =
    holds-accept_entries entries (accept_keys name host_keys known) address key
    ∙ (ap (λ b. b || offers entries address key)
          (holds-accept_keys name host_keys known address key)
        ∙ or_assoc (holds known address key) (name == address && mem key host_keys)
            (offers entries address key))

holds-remove :
    (name : Text) (known : Dict (List Text)) (address key : Text)
    → holds (remove name known) address key
      ≡ (if name == address then false else holds known address key)
unfolding holds mem
holds-remove name known address key = elim (Bool-cases (name == address)) [
  | inl e ↦ rw (lookup-remove name address known, e) refl
  | inr e ↦ rw (lookup-remove name address known, e) refl
]

pub or-IsFormed :
    (p q r : Text → Text → Bool)
    → ((address key : Text) → r address key ≡ (p address key || q address key))
    → IsFormed p
    → IsFormed q
    → IsFormed r
or-IsFormed p q r e hp hq address key h =
    elim (or-eq-true (p address key) (q address key) (sym (e address key) ∙ h)) [
      | inl here ↦ hp address key here
      | inr here ↦ hq address key here
    ]

pub removed-IsFormed :
    (name : Text) (p r : Text → Text → Bool)
    → ((address key : Text) → r address key ≡ (if name == address then false else p address key))
    → IsFormed p
    → IsFormed r
removed-IsFormed name p r e hp address key h = elim (Bool-cases (name == address)) [
  | inl same ↦ cc (rw (e address key, same) at h)
  | inr other ↦ hp address key (rw (e address key, other) at h)
]

pub holds-accept :
    (entries : Dict (List Text)) (hosts : KnownHosts) (address key : Text)
    → IsFormed (holds (read_peers hosts))
    → IsFormed (offers entries)
    → holds (read_peers (accept_peers entries hosts)) address key
      ≡ (holds (read_peers hosts) address key || offers entries address key)
unfolding accept_peers merge_into_live
holds-accept entries hosts address key hp hq =
    let known = accept_entries entries (read_peers hosts) in
    holds-render (accept_peers entries hosts) known address key
      (or-IsFormed (holds (read_peers hosts)) (offers entries) (holds known)
        (holds-accept_entries entries (read_peers hosts)) hp hq)
      refl
    ∙ holds-accept_entries entries (read_peers hosts) address key

forget_peer-known :
    (name : Text) (hosts : KnownHosts)
    → has name (read_peers hosts) ≡ true
    → forget_peer name hosts ≡ (forgotten name hosts, true)
unfolding forget_peer
forget_peer-known name hosts e = rw e refl

forget_peer-unknown :
    (name : Text) (hosts : KnownHosts)
    → has name (read_peers hosts) ≡ false
    → forget_peer name hosts ≡ (hosts, false)
unfolding forget_peer
forget_peer-unknown name hosts e = rw e refl

holds-forgotten :
    (name : Text) (hosts : KnownHosts) (address key : Text)
    → IsFormed (holds (read_peers hosts))
    → holds (read_peers (forgotten name hosts)) address key
      ≡ (if name == address then false else holds (read_peers hosts) address key)
unfolding forgotten drop_from_live
holds-forgotten name hosts address key h =
    let left = remove name (read_peers hosts) in
    holds-render (forgotten name hosts) left address key
      (removed-IsFormed name (holds (read_peers hosts)) (holds left)
        (holds-remove name (read_peers hosts)) h)
      refl
    ∙ holds-remove name (read_peers hosts) address key

holds-unknown :
    (name : Text) (known : Dict (List Text)) (address key : Text)
    → has name known ≡ false
    → holds known address key ≡ (if name == address then false else holds known address key)
holds-unknown name known address key e = elim (Bool-cases (name == address)) [
  | inl same ↦ rw same (
      subst (λ a. holds known a key ≡ false) ((eq_iff name address).0 same)
        (lookup-none-holds known name key e))
  | inr other ↦ rw other refl
]

pub holds-forget :
    (name : Text) (hosts : KnownHosts) (address key : Text)
    → IsFormed (holds (read_peers hosts))
    → (holds (read_peers ((forget_peer name hosts).0)) address key
        ≡ (if name == address then false else holds (read_peers hosts) address key))
      × (holds (read_peers (forget_address name hosts)) address key
          ≡ (if name == address then false else holds (read_peers hosts) address key))
unfolding forget_address drop_from_live read_peers
holds-forget name hosts address key h = elim (Bool-cases (has name (read_peers hosts))) [
  | inl e ↦
      rw (forget_peer-known name hosts e)
        (holds-forgotten name hosts address key h, holds-forgotten name hosts address key h)
  | inr e ↦ rw (forget_peer-unknown name hosts e) (
    holds-unknown name (read_peers hosts) address key e,
    holds-unknown name (read_peers hosts) address key e,
  )
]

read_peers-accepted :
    (after hosts : KnownHosts)
    → after.accepted ≡ hosts.accepted
    → read_peers after ≡ read_peers hosts
unfolding read_peers
read_peers-accepted after hosts e = rw e refl

accepted-if :
    (test : Bool) (then_pair else_pair : KnownHosts × Bool) (o : Option Text)
    → then_pair.0.accepted ≡ o
    → else_pair.0.accepted ≡ o
    → (if test then then_pair else else_pair).0.accepted ≡ o
accepted-if true then_pair else_pair o p q = p
accepted-if false then_pair else_pair o p q = q

pub accepted-local :
    (own : List (Option Text)) (names : List Text) (hosts : KnownHosts)
    → (read_peers ((ensure_local own names hosts).0) ≡ read_peers hosts)
      × (read_peers ((add_local own names hosts).0) ≡ read_peers hosts)
unfolding ensure_local add_local merge_into_live
accepted-local own names hosts =
    let host_keys = read_local_host_keys own in
    let content = render (extend_entries (read_peers hosts) (local_entries host_keys names)) in
    let missing = missing_from host_keys (splitlines (text_of (hosts.live))) names [] in
    (
      read_peers-accepted ((ensure_local own names hosts).0) hosts (
          accepted-if (is_empty host_keys) (hosts, false) (rewritten content hosts) (hosts.accepted)
            refl
            (accepted-if (is_content content (hosts.live)) (hosts, false)
              (record hosts { live = some content }, true) (hosts.accepted) refl refl)),
      read_peers-accepted ((add_local own names hosts).0) hosts (
          accepted-if (is_empty host_keys || is_empty missing) (hosts, false)
            (merge_into_live missing hosts, true) (hosts.accepted) refl refl),
    )
