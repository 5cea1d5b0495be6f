-- ===== src/Trust/KnownHosts/Record.antt =====
-- What is read of the record of accepted keys after it is written.
use seapath_webui.Common.{
  Text, Bool, true, false, ◌==◌, eq_refl, eq_iff, starts_with, Option, none, some, List, [], ◌∷◌,
  ◌++◌, map, ◌||◌, ◌&&◌, ◌≡◌, refl, ap, sym, subst, ◌∙◌, All, All-append, any, Bool-cases, inl, inr,
  arith, is_space, or_assoc, or_false,
}
use seapath_webui.Common.Dict.{Dict, insert, lookup, lookup-insert, lookup-has_not, has, keys}
use seapath_webui.Common.Names.{mem, mem-append, mem-sorted, sorted}
use seapath_webui.Common.Lines.{
  splitlines, splitlines-unlines, splitlines-IsLine, unlines, fields, fields-append_blank,
  fields-word, IsLine, IsWord, is_break, space-break, blank,
}
use seapath_webui.Trust.KnownHosts.{
  KnownHosts, keys_at, entry, render, read_peers, read_lines, add_peer, peer_of, header, lines_of,
  hash_sign,
}

-- A name that a line of the file can start with, and a key of two words.
abbrev pub IsName : Text → Type 0
IsName name = IsWord name × (starts_with name hash_sign ≡ false)

abbrev pub IsKey : Text → Type 0
IsKey key = (kind : Text) × (body : Text) × (key ≡ kind ++ blank ∷ body) × IsWord kind × IsWord body

-- Whether the key is recorded for the address.
unfoldable pub holds : Dict (List Text) → Text → Text → Bool
unfolding mem lookup
holds entries address key = mem key (keys_at address entries)

-- Each address and key that is held can be written on a line.
abbrev pub IsFormed : (Text → Text → Bool) → Type 0
IsFormed held = (address key : Text) → held address key ≡ true → IsName address × IsKey key

word-IsLine : (s : Text) → All (λ c. is_space c ≡ false) s → IsLine s
word-IsLine [] h = tt
word-IsLine (c ∷ s) (plain, h) = (space-break c plain, word-IsLine s h)

spaced-IsLine : (s t : Text) → IsLine s → IsLine t → IsLine (s ++ blank ∷ t)
unfolding is_break
spaced-IsLine s t hs ht = All-append (λ c. is_break c ≡ false) s (blank ∷ t) hs (refl, ht)

entry-IsLine : (name key : Text) → IsName name → IsKey key → IsLine (entry name key)
entry-IsLine name key (word, plain) (kind, body, e, hk, hb) =
    subst (λ k. IsLine (entry name k)) (sym e)
      (spaced-IsLine name (kind ++ blank ∷ body) (word-IsLine name (word.1))
        (spaced-IsLine kind body (word-IsLine kind (hk.1)) (word-IsLine body (hb.1))))

starts_with-append : (name s : Text) → IsName name → starts_with (name ++ s) hash_sign ≡ false
unfolding starts_with
starts_with-append [] s h = cc (h.0.0)
starts_with-append (c ∷ name) s h = h.1

fields-entry :
    (name kind body : Text)
    → IsWord name
    → IsWord kind
    → IsWord body
    → fields (entry name (kind ++ blank ∷ body)) ≡ name ∷ kind ∷ body ∷ []
fields-entry name kind body hn hk hb =
    rw
      (
        fields-append_blank name (kind ++ blank ∷ body),
        fields-append_blank kind body,
        fields-word name hn,
        fields-word kind hk,
        fields-word body hb,
      )
      refl

peer_of-entry :
    (name key : Text) → IsName name → IsKey key → peer_of (entry name key) ≡ some (name, key)
unfolding peer_of
peer_of-entry name key h (kind, body, e, hk, hb) =
    subst (λ k. peer_of (entry name k) ≡ some (name, k)) (sym e)
      (rw
        (
          starts_with-append name (blank ∷ (kind ++ blank ∷ body)) h,
          fields-entry name kind body (h.0) hk hb,
        )
        refl)

any-append :
    (test : Text → Bool) (xs ys : List Text) → any test (xs ++ ys) ≡ (any test xs || any test ys)
unfolding any
any-append test [] ys = refl
any-append test (x ∷ xs) ys = ground (arith, any-append test xs ys)

abbrev gives : Text → Text → Option (Text × Text) → Bool
gives address key none = false
gives address key (some (name, k)) = name == address && k == key

pub holds-insert :
    (name key : Text) (entries : Dict (List Text)) (address k : Text)
    → holds (insert name (keys_at name entries ++ key ∷ []) entries) address k
      ≡ (holds entries address k || (name == address && key == k))
unfolding holds mem
holds-insert name key entries address k = elim (Bool-cases (name == address)) [
  | inl e ↦
      rw
        (
          lookup-insert name address (keys_at name entries ++ key ∷ []) entries,
          e,
          mem-append k (keys_at name entries) (key ∷ []),
          (eq_iff name address).0 e,
        )
        (ground arith)
  | inr e ↦
      rw (lookup-insert name address (keys_at name entries ++ key ∷ []) entries, e) (ground arith)
]

holds-add_peer :
    (o : Option (Text × Text)) (entries : Dict (List Text)) (address key : Text)
    → holds (add_peer o entries) address key ≡ (holds entries address key || gives address key o)
unfolding add_peer
holds-add_peer none entries address key = sym (or_false (holds entries address key))
holds-add_peer (some (name, k)) entries address key = holds-insert name k entries address key

holds-read_lines :
    (lines : List Text) (entries : Dict (List Text)) (address key : Text)
    → holds (read_lines lines entries) address key
      ≡ (holds entries address key || any (λ l. gives address key (peer_of l)) lines)
unfolding read_lines any
holds-read_lines [] entries address key = sym (or_false (holds entries address key))
holds-read_lines (line ∷ lines) entries address key =
    holds-read_lines lines (add_peer (peer_of line) entries) address key
    ∙ (ap (λ b. b || any (λ l. gives address key (peer_of l)) lines)
          (holds-add_peer (peer_of line) entries address key)
        ∙ or_assoc (holds entries address key) (gives address key (peer_of line)) _)

any-entries :
    (address key name : Text) (host_keys : List Text)
    → ((k : Text) → mem k host_keys ≡ true → IsName name × IsKey k)
    → any (λ l. gives address key (peer_of l)) (map (entry name) host_keys)
      ≡ (name == address && mem key host_keys)
unfolding any mem
any-entries address key name [] h = ground arith
any-entries address key name (k ∷ host_keys) h =
    let (hn, hk) = h k (rw (eq_refl k) refl) in
    rw
      (
        peer_of-entry name k hn hk,
        any-entries address key name host_keys (λ j m. h j (ground arith)),
      )
      (ground arith)

any-lines_of :
    (entries : Dict (List Text)) (names : List Text) (address key : Text)
    → IsFormed (holds entries)
    → any (λ l. gives address key (peer_of l)) (lines_of names entries)
      ≡ (mem address names && holds entries address key)
unfolding lines_of any mem holds
any-lines_of entries [] address key h = refl
any-lines_of entries (name ∷ names) address key h =
    any-append _ (map (entry name) (sorted (keys_at name entries))) (lines_of names entries)
    ∙ rw
        (
          any-entries address key name (sorted (keys_at name entries))
              (λ k m. h name k (sym (mem-sorted k (keys_at name entries)) ∙ m)),
          mem-sorted key (keys_at name entries),
          any-lines_of entries names address key h,
        )
        (elim (Bool-cases (name == address)) [
          | inl e ↦ rw ((eq_iff name address).0 e, eq_refl address) (ground arith)
          | inr e ↦ rw e refl
        ])

mem-keys : (a : Text) (entries : Dict (List Text)) → mem a (keys entries) ≡ has a entries
unfolding mem keys has
mem-keys a [] = refl
mem-keys a ((k, v) ∷ entries) = ground (arith, mem-keys a entries)

pub lookup-none-holds :
    (entries : Dict (List Text)) (address key : Text)
    → has address entries ≡ false
    → holds entries address key ≡ false
unfolding holds mem
lookup-none-holds entries address key h = rw (lookup-has_not address entries h) refl

pub mem-held :
    (entries : Dict (List Text)) (address key : Text)
    → (mem address (sorted (keys entries)) && holds entries address key) ≡ holds entries address key
mem-held entries address key = elim (Bool-cases (has address entries)) [
  | inl e ↦ rw (mem-sorted address (keys entries), mem-keys address entries, e) refl
  | inr e ↦
      rw
        (
          mem-sorted address (keys entries),
          mem-keys address entries,
          e,
          lookup-none-holds entries address key e,
        )
        refl
]

entries-IsLine :
    (name : Text) (host_keys : List Text)
    → ((k : Text) → mem k host_keys ≡ true → IsName name × IsKey k)
    → All IsLine (map (entry name) host_keys)
unfolding mem
entries-IsLine name [] h = tt
entries-IsLine name (k ∷ host_keys) h =
    let (hn, hk) = h k (rw (eq_refl k) refl) in
    (entry-IsLine name k hn hk, entries-IsLine name host_keys (λ j m. h j (ground arith)))

pub lines_of-IsLine :
    (entries : Dict (List Text)) (names : List Text)
    → IsFormed (holds entries)
    → All IsLine (lines_of names entries)
unfolding lines_of holds
lines_of-IsLine entries [] h = tt
lines_of-IsLine entries (name ∷ names) h =
    All-append IsLine (map (entry name) (sorted (keys_at name entries))) (lines_of names entries)
      (entries-IsLine name (sorted (keys_at name entries))
        (λ k m. h name k (sym (mem-sorted k (keys_at name entries)) ∙ m)))
      (lines_of-IsLine entries names h)

header-splitlines : splitlines (unlines header) ≡ header
unfolding header splitlines unlines
header-splitlines = refl

pub header-IsLine : All IsLine header
header-IsLine = subst (All IsLine) header-splitlines (splitlines-IsLine (unlines header))

header-any : (address key : Text) → any (λ l. gives address key (peer_of l)) header ≡ false
unfolding header any peer_of starts_with
header-any address key = refl

holds-empty : (address key : Text) → holds [] address key ≡ false
unfolding holds mem lookup
holds-empty address key = refl

holds-written :
    (entries : Dict (List Text)) (address key : Text)
    → IsFormed (holds entries)
    → holds (read_lines (header ++ lines_of (sorted (keys entries)) entries) []) address key
      ≡ holds entries address key
holds-written entries address key h =
    let lines = lines_of (sorted (keys entries)) entries in
    holds-read_lines (header ++ lines) [] address key
    ∙ (ap (λ b. b || any (λ l. gives address key (peer_of l)) (header ++ lines))
          (holds-empty address key)
        ∙ (any-append (λ l. gives address key (peer_of l)) header lines
            ∙ (ap (λ b. b || any (λ l. gives address key (peer_of l)) lines)
                  (header-any address key)
                ∙ (any-lines_of entries (sorted (keys entries)) address key h
                    ∙ mem-held entries address key))))

-- What is rendered is read back, as a set of keys for each address.
pub holds-render :
    (hosts : KnownHosts) (entries : Dict (List Text)) (address key : Text)
    → IsFormed (holds entries)
    → hosts.accepted ≡ some (render entries)
    → holds (read_peers hosts) address key ≡ holds entries address key
unfolding read_peers render
holds-render hosts entries address key h e =
    let lines = lines_of (sorted (keys entries)) entries in
    let here =
      All-append IsLine header lines header-IsLine
        (lines_of-IsLine entries (sorted (keys entries)) h) in
    rw (e, splitlines-unlines (header ++ lines) here) (holds-written entries address key h)
