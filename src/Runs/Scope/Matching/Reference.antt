-- ===== src/Runs/Scope/Matching/Reference.antt =====
-- Which hosts a pattern names.
use seapath_webui.Common.{
  Text, is_empty, filter, any, all, nat_eq, Bool, true, false, not, ◌&&◌, ◌||◌, List, [], ◌∷◌, ◌≡◌,
  refl, ap, sym, ◌∙◌, inl, inr, if◌then◌else◌, arith, Bool-cases,
}
use seapath_webui.Common.Names.{mem, union, inter, diff, mem-union, mem-inter, mem-diff}
use seapath_webui.Inventory.Resolve.{Table, root, members}
use seapath_webui.Runs.Scope.Matching.{
  Named, hosts, unread, bad_number, hosts_of, is_union, exclamation, ampersand, tokens_of, and_then,
  united, restricted, restricted_by, first_selected, match_pattern,
}

-- Whether a host is among those that a token names.
abbrev holds_in : Text → Named → Bool
holds_in a (hosts names) = mem a names
holds_in a other = false

abbrev pub is_named : Table → Text → Text → Bool
is_named table a token = holds_in a (hosts_of table token)

-- What a token with an operator asks of a host; one without asks nothing.
abbrev pub passes_token : Table → Text → Text → Bool
passes_token table a [] = true
passes_token table a (c ∷ s) =
    if nat_eq c exclamation
    then not (is_named table a s)
    else if nat_eq c ampersand
    then is_named table a s
    else true

and_then-eq-hosts :
    (n : Named) (f : List Text → Named) (r : List Text)
    → and_then n f ≡ hosts r
    → (names : List Text) × (n ≡ hosts names) × (f names ≡ hosts r)
and_then-eq-hosts (hosts names) f r h = (names, refl, h)
and_then-eq-hosts unread f r h = cc
and_then-eq-hosts bad_number f r h = cc

hosts-injective : (a b : List Text) → hosts a ≡ hosts b → a ≡ b
hosts-injective a b h = cc

mem-united :
    (table : Table) (tokens selected r : List Text) (a : Text)
    → united table tokens selected ≡ hosts r
    → mem a r ≡ (mem a selected || any (is_named table a) tokens)
unfolding united any
mem-united table [] selected r a h = sym (ap (mem a) (hosts-injective selected r h)) ∙ ground arith
mem-united table (token ∷ tokens) selected r a h =
    let (names, named, rest) = and_then-eq-hosts (hosts_of table token) _ r h in
    let here : is_named table a token ≡ mem a names = ap (holds_in a) named in
    rw (mem-united table tokens (union selected names) r a rest, mem-union a selected names, here)
      (ground arith)

named_left :
    (table : Table) (s : Text) (f : List Text → List Text) (r : List Text) (a : Text)
    → and_then (hosts_of table s) (λ names. hosts (f names)) ≡ hosts r
    → (names : List Text) × (is_named table a s ≡ mem a names) × (f names ≡ r)
named_left table s f r a h =
    let (names, named, rest) = and_then-eq-hosts (hosts_of table s) _ r h in
    (names, ap (holds_in a) named, hosts-injective (f names) r rest)

mem-restricted_by :
    (table : Table) (token : Text) (selected r : List Text) (a : Text)
    → restricted_by table token selected ≡ hosts r
    → mem a r ≡ (mem a selected && passes_token table a token)
unfolding restricted_by is_union
mem-restricted_by table [] selected r a h =
    sym (ap (mem a) (hosts-injective selected r h)) ∙ ground arith
mem-restricted_by table (c ∷ s) selected r a h = elim (Bool-cases (nat_eq c exclamation)) [
  | inl excludes ↦
      let (names, named, left) = named_left table s (diff selected) r a (rw excludes at h) in
      rw (excludes, named) (ap (mem a) (sym left) ∙ mem-diff a selected names)
  | inr keeps ↦ elim (Bool-cases (nat_eq c ampersand)) [
    | inl meets ↦
        let (names, named, left) =
          named_left table s (inter selected) r a (rw (keeps, meets) at h) in
        rw (keeps, meets, named) (ap (mem a) (sym left) ∙ mem-inter a selected names)
    | inr adds ↦
        rw (keeps, adds)
          (sym (ap (mem a) (hosts-injective selected r (rw (keeps, adds) at h))) ∙ ground arith)
  ]
]

mem-restricted :
    (table : Table) (tokens selected r : List Text) (a : Text)
    → restricted table tokens selected ≡ hosts r
    → mem a r ≡ (mem a selected && all (passes_token table a) tokens)
unfolding restricted all
mem-restricted table [] selected r a h =
    sym (ap (mem a) (hosts-injective selected r h)) ∙ ground arith
mem-restricted table (token ∷ tokens) selected r a h =
    let (left, first, rest) = and_then-eq-hosts (restricted_by table token selected) _ r h in
    rw
      (
        mem-restricted table tokens left r a rest,
        mem-restricted_by table token selected left a first,
      )
      (ground arith)

mem-first_selected :
    (table : Table) (unions : List Text) (a : Text)
    → mem a (first_selected table unions) ≡ (is_empty unions && mem a (members table root))
unfolding first_selected mem
mem-first_selected table [] a = refl
mem-first_selected table (token ∷ unions) a = refl

-- Where a pattern is read, a host is among those that it names exactly when some token without an
-- operator names it, or the pattern has no such token and the host is one of the inventory, and no token
-- with `!` names it, and every token with `&` does: the order of the tokens does not matter.
pub mem-match_pattern :
    (table : Table) (pattern : Text) (r : List Text) (a : Text)
    → match_pattern table pattern ≡ hosts r
    → let tokens = tokens_of pattern in
      let unions = filter is_union tokens in
      mem a r ≡ (
        (is_empty unions && mem a (members table root) || any (is_named table a) unions)
        && all (passes_token table a) tokens)
unfolding match_pattern
mem-match_pattern table pattern r a h =
    let tokens = tokens_of pattern in
    let unions = filter is_union tokens in
    let (selected, first, second) =
      and_then-eq-hosts (united table unions (first_selected table unions)) _ r h in
    rw
      (
        mem-restricted table tokens selected r a second,
        mem-united table unions (first_selected table unions) selected a first,
        mem-first_selected table unions a,
      )
      refl
