-- ===== src/Trust/KnownHosts/Live.antt =====
-- What the file ssh reads holds once keys are accepted, and once the machine's own are provisioned.
use seapath_webui.Common.{
  Text, Bool, true, false, not, ◌==◌, eq_refl, eq_iff, is_empty, Option, none, some, List, [], ◌∷◌,
  ◌++◌, map, filter, strip, ◌||◌, ◌&&◌, ◌≡◌, refl, ap, sym, ◌∙◌, All, All-append, All-filter_of_All,
  Bool-cases, inl, inr, arith, and-eq-true, or_false, or_assoc, or-eq-true,
}
use seapath_webui.Common.Dict.{Dict, lookup, insert, keys, lookup-insert}
use seapath_webui.Common.Names.{mem, mem-append, mem-filter, mem-sorted, sorted}
use seapath_webui.Common.Lines.{IsLine, splitlines, splitlines-unlines, splitlines-IsLine}
use seapath_webui.Trust.KnownHosts.{
  KnownHosts, keys_at, entry, text_of, header, lines_of, render, read_peers, accept_entries,
  accept_peers, add_missing, merged, merge_into_live, read_local_host_keys,
}
use seapath_webui.Trust.KnownHosts.Local.{
  ensure_local, rewritten, is_content, local_entries, extend_entries,
}
use seapath_webui.Trust.KnownHosts.Record.{
  IsFormed, holds, lines_of-IsLine, header-IsLine, mem-held,
}
use seapath_webui.Trust.KnownHosts.Held.{offers, or-IsFormed, holds-accept_entries}

mem-map-entry :
    (name key : Text) (host_keys : List Text)
    → mem key host_keys ≡ true
    → mem (entry name key) (map (entry name) host_keys) ≡ true
unfolding mem
mem-map-entry name key [] h = cc
mem-map-entry name key (k ∷ host_keys) h = elim (Bool-cases (k == key)) [
  | inl e ↦ rw ((eq_iff k key).0 e, eq_refl (entry name key)) refl
  | inr e ↦ ground (arith, mem-map-entry name key host_keys)
]

mem-lines_of :
    (entries : Dict (List Text)) (names : List Text) (address key : Text)
    → mem address names ≡ true
    → holds entries address key ≡ true
    → mem (entry address key) (lines_of names entries) ≡ true
unfolding mem lines_of holds
mem-lines_of entries [] address key m h = cc
mem-lines_of entries (name ∷ names) address key m h =
    mem-append (entry address key) (map (entry name) (sorted (keys_at name entries)))
      (lines_of names entries)
    ∙ (elim (Bool-cases (name == address)) [
      | inl e ↦
          rw
            (
              (eq_iff name address).0 e,
              mem-map-entry address key (sorted (keys_at address entries))
                  (mem-sorted key (keys_at address entries) ∙ h),
            )
            refl
      | inr e ↦ rw (mem-lines_of entries names address key (ground arith) h) (ground arith)
    ])

mem-held_lines :
    (entries : Dict (List Text)) (address key : Text)
    → holds entries address key ≡ true
    → mem (entry address key) (lines_of (sorted (keys entries)) entries) ≡ true
mem-held_lines entries address key h =
    mem-lines_of entries (sorted (keys entries)) address key
      ((and-eq-true (mem address (sorted (keys entries))) (holds entries address key)
        (mem-held entries address key ∙ h)).0)
      h

mem-add_missing :
    (more lines : List Text) (x : Text)
    → mem x (add_missing more lines) ≡ (mem x lines || mem x more)
unfolding add_missing mem
mem-add_missing [] lines x = ground arith
mem-add_missing (line ∷ more) lines x = elim (Bool-cases (mem line lines)) [
  | inl e ↦
      rw (e, mem-add_missing more lines x)
        (elim (Bool-cases (line == x)) [
          | inl same ↦ rw (same, sym (ap (λ t. mem t lines) ((eq_iff line x).0 same)) ∙ e) refl
          | inr other ↦ rw other refl
        ])
  | inr e ↦
      rw (e, mem-add_missing more (lines ++ line ∷ []) x, mem-append x lines (line ∷ []))
        (ground arith)
]

add_missing-IsLine :
    (more lines : List Text)
    → All IsLine more
    → All IsLine lines
    → All IsLine (add_missing more lines)
unfolding add_missing
add_missing-IsLine [] lines hm hl = hl
add_missing-IsLine (line ∷ more) lines (one, hm) hl = elim (Bool-cases (mem line lines)) [
  | inl e ↦ rw e (add_missing-IsLine more lines hm hl)
  | inr e ↦ rw e (
      add_missing-IsLine more (lines ++ line ∷ []) hm
        (All-append IsLine lines (line ∷ []) hl (one, tt)))
]

-- A line of the file ssh reads.
abbrev pub is_live : Text → KnownHosts → Bool
is_live line hosts = mem line (splitlines (text_of (hosts.live)))

live-merged :
    (peers : Dict (List Text)) (hosts : KnownHosts) (line : Text)
    → IsFormed (holds peers)
    → is_live line (merge_into_live peers hosts) ≡ (
        mem line (filter (λ l. not (is_empty (strip l))) (splitlines (text_of (hosts.live))))
        || mem line (lines_of (sorted (keys peers)) peers))
unfolding merge_into_live merged
live-merged peers hosts line h =
    let kept = filter (λ l. not (is_empty (strip l))) (splitlines (text_of (hosts.live))) in
    let more = lines_of (sorted (keys peers)) peers in
    rw
      (splitlines-unlines (add_missing more kept) (
        add_missing-IsLine more kept (lines_of-IsLine peers (sorted (keys peers)) h) (
          All-filter_of_All IsLine (λ l. not (is_empty (strip l)))
            (splitlines (text_of (hosts.live))) (splitlines-IsLine (text_of (hosts.live))))))
      (mem-add_missing more kept line)

known-IsFormed :
    (entries : Dict (List Text)) (hosts : KnownHosts)
    → IsFormed (holds (read_peers hosts))
    → IsFormed (offers entries)
    → IsFormed (holds (accept_entries entries (read_peers hosts)))
known-IsFormed entries hosts =
    or-IsFormed (holds (read_peers hosts)) (offers entries)
      (holds (accept_entries entries (read_peers hosts)))
      (holds-accept_entries entries (read_peers hosts))

-- A key that an operator accepts, or had accepted before, is in the file that ssh reads as soon as it
-- is recorded, and no line that was there and is not blank is lost. The keys recorded at first and
-- those accepted are two words, their addresses one word that is no comment.
pub accept_peers-is_live :
    (entries : Dict (List Text)) (hosts : KnownHosts) (address key line : Text)
    → IsFormed (holds (read_peers hosts))
    → IsFormed (offers entries)
    → ((holds (read_peers hosts) address key || offers entries address key) ≡ true
        → is_live (entry address key) (accept_peers entries hosts) ≡ true)
      × (is_live line hosts ≡ true
          → is_empty (strip line) ≡ false
          → is_live line (accept_peers entries hosts) ≡ true)
unfolding accept_peers
accept_peers-is_live entries hosts address key line hp hq =
    let known = accept_entries entries (read_peers hosts) in
    let formed = known-IsFormed entries hosts hp hq in
    (
      λ h.
          live-merged known (record hosts { accepted = some (render known) }) (entry address key)
            formed
          ∙ rw
              (mem-held_lines known address key
                (holds-accept_entries entries (read_peers hosts) address key ∙ h))
              (ground arith),
      λ h e.
          live-merged known (record hosts { accepted = some (render known) }) line formed
          ∙ rw
              (
                mem-filter (λ l. not (is_empty (strip l))) line (splitlines (text_of (hosts.live))),
                h,
                e,
              )
              refl,
    )

holds-offers :
    (entries : Dict (List Text)) (address key : Text)
    → holds entries address key ≡ true
    → offers entries address key ≡ true
unfolding holds mem lookup
holds-offers [] address key h = cc
holds-offers ((name, host_keys) ∷ entries) address key h = elim (Bool-cases (name == address)) [
  | inl e ↦ rw (e, rw e at h) refl
  | inr e ↦ rw (e, holds-offers entries address key (rw e at h)) refl
]

holds-insert_append :
    (name : Text) (more : List Text) (entries : Dict (List Text)) (address k : Text)
    → holds (insert name (keys_at name entries ++ more) entries) address k
      ≡ (holds entries address k || (name == address && mem k more))
unfolding holds mem
holds-insert_append name more entries address k = elim (Bool-cases (name == address)) [
  | inl e ↦
      rw
        (
          lookup-insert name address (keys_at name entries ++ more) entries,
          e,
          mem-append k (keys_at name entries) more,
          (eq_iff name address).0 e,
        )
        refl
  | inr e ↦ rw (lookup-insert name address (keys_at name entries ++ more) entries, e) (ground arith)
]

holds-extend_entries :
    (peers entries : Dict (List Text)) (address key : Text)
    → holds (extend_entries peers entries) address key
      ≡ (holds entries address key || offers peers address key)
unfolding extend_entries
holds-extend_entries [] entries address key = sym (or_false (holds entries address key))
holds-extend_entries ((name, peer_keys) ∷ peers) entries address key =
    holds-extend_entries peers (insert name (keys_at name entries ++ peer_keys) entries) address key
    ∙ (ap (λ b. b || offers peers address key)
          (holds-insert_append name peer_keys entries address key)
        ∙ or_assoc (holds entries address key) (name == address && mem key peer_keys)
            (offers peers address key))

text_of-is_content :
    (content : Text) (o : Option Text) → is_content content o ≡ true → text_of o ≡ content
text_of-is_content content none h = cc
text_of-is_content content (some held) h = (eq_iff held content).0 h

text_of-rewritten :
    (content : Text) (hosts : KnownHosts) → text_of ((rewritten content hosts).0.live) ≡ content
text_of-rewritten content hosts = elim (Bool-cases (is_content content (hosts.live))) [
  | inl e ↦ rw e (text_of-is_content content (hosts.live) e)
  | inr e ↦ rw e refl
]

live-rendered :
    (entries : Dict (List Text)) (address key : Text)
    → IsFormed (holds entries)
    → holds entries address key ≡ true
    → mem (entry address key) (splitlines (render entries)) ≡ true
unfolding render
live-rendered entries address key formed h =
    let lines = lines_of (sorted (keys entries)) entries in
    ap (mem (entry address key)) (
      splitlines-unlines (header ++ lines) (
        All-append IsLine header lines header-IsLine
          (lines_of-IsLine entries (sorted (keys entries)) formed)))
    ∙ (mem-append (entry address key) header lines
        ∙ rw (mem-held_lines entries address key h) (ground arith))

-- The machine's own keys, and every key that an operator has accepted, are in the file that ssh reads
-- after each start at which the machine has a host key. The keys are two words, the names and addresses
-- one word that is no comment.
pub ensure_local-is_live :
    (own : List (Option Text)) (names : List Text) (hosts : KnownHosts) (address key : Text)
    → is_empty (read_local_host_keys own) ≡ false
    → IsFormed (holds (local_entries (read_local_host_keys own) names))
    → IsFormed (offers (read_peers hosts))
    → (holds (local_entries (read_local_host_keys own) names) address key
        || holds (read_peers hosts) address key)
      ≡ true
    → is_live (entry address key) ((ensure_local own names hosts).0) ≡ true
unfolding ensure_local
ensure_local-is_live own names hosts address key some_key hl hp h =
    let local = local_entries (read_local_host_keys own) names in
    let entries = extend_entries (read_peers hosts) local in
    let formed =
      or-IsFormed (holds local) (offers (read_peers hosts)) (holds entries)
        (holds-extend_entries (read_peers hosts) local) hl hp in
    let held : holds entries address key ≡ true =
      holds-extend_entries (read_peers hosts) local address key
      ∙ elim (or-eq-true (holds local address key) (holds (read_peers hosts) address key) h) [
        | inl e ↦ rw e refl
        | inr e ↦ rw (holds-offers (read_peers hosts) address key e) (ground arith)
      ] in
    rw some_key (
      ap (λ t. mem (entry address key) (splitlines t)) (text_of-rewritten (render entries) hosts)
      ∙ live-rendered entries address key formed held)
