-- ===== src/Runs/Scope/Matching.antt =====
-- app/runs/scope.py: the hosts that a playbook's `hosts:` lines name (`_matching`, `_match`, `_hosts_of`,
-- `_names_guests`), with the two regular expressions that they use. Sets are lists, read by membership.
pub mod Reference
use seapath_webui.Common.{
  ℕ, zero, suc, ◌+◌, ◌-◌, min, leb, ltb, Text, codes, ◌==◌, is_empty, has_char, partition, strip,
  nat_eq, length, take, drop, filter, any, all, map, Bool, true, false, not, ◌&&◌, ◌||◌, Option,
  none, some, List, [], ◌∷◌, ◌++◌, if◌then◌else◌,
}
use seapath_webui.Common.Dict.{has}
use seapath_webui.Common.Int.{ℤ, pos, negsuc}
use seapath_webui.Common.Names.{mem, union, inter, diff}
use seapath_webui.Common.Numerals.{digit_among, digit_zeros, int_of_text}
use seapath_webui.Inventory.Resolve.{Table, root, members}
use seapath_webui.Runs.Models.{RunScope}
use seapath_webui.Runs.Scope.{guest_group, Scope, Checked, plan}
use seapath_webui.Runs.Scope.Choices.{ordered}

-- What a pattern names: hosts, or that it is not read, or the ValueError of `int`.
pub data Named : Type 0 where
  hosts : List Text → Named
  unread bad_number : Named

abbrev pub colon : ℕ
colon = 58

abbrev opening : ℕ
opening = 91

abbrev closing : ℕ
closing = 93

-- `[^\[\]]*\]`: whether the first bracket that follows closes a subscript.
unfoldable pub closes : Text → Bool
closes [] = false
closes (c ∷ s) =
    let rest = closes s in
    if nat_eq c closing then true else if nat_eq c opening then false else rest

abbrev pub cons_first : ℕ → List Text → List Text
cons_first c [] = (c ∷ []) ∷ []
cons_first c (t ∷ ts) = (c ∷ t) ∷ ts

-- _SEPARATOR.split(pattern)
unfoldable pub separated : Text → List Text
unfolding closes
separated [] = [] ∷ []
separated (c ∷ s) =
    let rest = separated s in
    if nat_eq c colon && not (closes s) then [] ∷ rest else cons_first c rest

unfoldable pub is_digit : ℕ → Bool
is_digit c = elim (digit_among digit_zeros c) [ none ↦ false | some d ↦ true ]

unfoldable pub without_minus : Text → Text
without_minus [] = []
without_minus (c ∷ s) = if nat_eq c b'-' then s else c ∷ s

-- -?\d+ and -?\d*
unfoldable pub is_start : Text → Bool
unfolding is_digit without_minus
is_start s = not (is_empty (without_minus s)) && all is_digit (without_minus s)

unfoldable pub is_end : Text → Bool
unfolding is_digit without_minus
is_end s = all is_digit (without_minus s)

pub record Subscript : Type 0 where
  pub name : Text
  pub start : Text
  pub end : Option Text

inside_of : Text → Text → Option (Text × Text) → Option Subscript
unfolding is_start is_end
inside_of name inside none =
    if is_start inside then some (record { name = name; start = inside; end = none }) else none
inside_of name inside (some (start, end)) =
    if is_start start && is_end end
    then some (record { name = name; start = start; end = some end })
    else none

closed_at : Text → Option (Text × Text) → Option Subscript
unfolding inside_of
closed_at name none = none
closed_at name (some (inside, [])) = inside_of name inside (partition colon inside)
closed_at name (some (inside, c ∷ after)) = none

opened_at : Option (Text × Text) → Option Subscript
unfolding closed_at
opened_at none = none
opened_at (some (name, rest)) =
    if is_empty name || has_char closing name then none else closed_at name (partition closing rest)

-- _SUBSCRIPT.match(token)
unfoldable pub subscript_of : Text → Option Subscript
unfolding opened_at
subscript_of token = opened_at (partition opening token)

-- Where an end of a slice lies in a list of that length.
unfoldable pub slice_place : ℕ → ℤ → ℕ
slice_place size (pos n) = min n size
slice_place size (negsuc n) = size - suc n

unfoldable pub succ : ℤ → ℤ
succ (pos n) = pos (suc n)
succ (negsuc zero) = pos 0
succ (negsuc (suc n)) = negsuc n

unfoldable pub from_place : List Text → ℕ → List Text
from_place names place = take 1 (drop place names)

-- {names[start]} where that is a place of the list, and nothing elsewhere
unfoldable pub at_index : List Text → ℤ → List Text
unfolding from_place
at_index names (pos n) = from_place names n
at_index names (negsuc n) =
    if leb (suc n) (length names) then from_place names (length names - suc n) else []

-- names[start:stop]
unfoldable pub slice : List Text → ℤ → Option ℤ → List Text
unfolding slice_place
slice names start none = drop (slice_place (length names) start) names
slice names start (some stop) =
    take (slice_place (length names) stop - slice_place (length names) start)
      (drop (slice_place (length names) start) names)

sliced : List Text → ℤ → Option ℤ → Named
unfolding slice succ
sliced names start none = bad_number
sliced names start (some end) = hosts (slice names start (some (succ end)))

indexed : List Text → Option ℤ → Option Text → Named
unfolding at_index slice sliced
indexed names none end = bad_number
indexed names (some start) none = hosts (at_index names start)
indexed names (some start) (some []) = hosts (slice names start none)
indexed names (some start) (some (c ∷ end)) = sliced names start (int_of_text (c ∷ end))

subscripted : Subscript → Option (List Text) → Named
unfolding indexed
subscripted subscript none = unread
subscripted subscript (some names) = indexed names (int_of_text subscript.start) subscript.end

unfoldable pub plain_hosts : Table → Text → List Text
plain_hosts table token =
    if has token table
    then members table token
    else if mem token (members table root)
    then token ∷ []
    else []

token_hosts : Table → Text → Option Subscript → Named
unfolding plain_hosts subscripted
token_hosts table token none = hosts (plain_hosts table token)
token_hosts table token (some subscript) = subscripted subscript (ordered table subscript.name)

-- any(character in token for character in _UNREADABLE)
unfoldable pub is_unreadable : Text → Bool
is_unreadable token =
    any (λ c. nat_eq c b'*' || nat_eq c b'~' || nat_eq c b',' || nat_eq c b'?') token

-- _hosts_of
unfoldable pub hosts_of : Table → Text → Named
unfolding is_unreadable subscript_of token_hosts
hosts_of table token =
    if is_unreadable token then unread else token_hosts table token (subscript_of token)

abbrev pub exclamation : ℕ
exclamation = 33

abbrev pub ampersand : ℕ
ampersand = 38

-- t[0] not in "!&"
unfoldable pub is_union : Text → Bool
is_union [] = true
is_union (c ∷ s) = not (nat_eq c exclamation || nat_eq c ampersand)

-- [token.strip() for token in _SEPARATOR.split(pattern) if token.strip()]
unfoldable pub tokens_of : Text → List Text
unfolding separated
tokens_of pattern = filter (λ token. not (is_empty token)) (map strip (separated pattern))

abbrev pub and_then : Named → (List Text → Named) → Named
and_then (hosts names) f = f names
and_then unread f = unread
and_then bad_number f = bad_number

-- The first loop of `_match`.
unfoldable pub united : Table → List Text → List Text → Named
united table [] selected = hosts selected
united table (token ∷ tokens) selected =
    and_then (hosts_of table token) (λ names. united table tokens (union selected names))

-- What a token with an operator leaves of the selected hosts.
unfoldable pub restricted_by : Table → Text → List Text → Named
unfolding is_union
restricted_by table [] selected = hosts selected
restricted_by table (c ∷ s) selected =
    if is_union (c ∷ s)
    then hosts selected
    else and_then (hosts_of table s) (λ names.
      hosts (if nat_eq c exclamation then diff selected names else inter selected names))

-- The second loop of `_match`.
unfoldable pub restricted : Table → List Text → List Text → Named
unfolding restricted_by
restricted table [] selected = hosts selected
restricted table (token ∷ tokens) selected =
    and_then (restricted_by table token selected) (λ left. restricted table tokens left)

unfoldable pub first_selected : Table → List Text → List Text
first_selected table unions = if is_empty unions then members table root else []

-- _match
unfoldable pub match_pattern : Table → Text → Named
unfolding tokens_of united restricted first_selected
match_pattern table pattern =
    let tokens = tokens_of pattern in
    and_then (united table (filter is_union tokens) (first_selected table (filter is_union tokens)))
      (λ selected. restricted table tokens selected)

unfoldable pub matching_from : Table → List Text → List Text → Named
unfolding match_pattern
matching_from table [] found = hosts found
matching_from table (pattern ∷ patterns) found =
    and_then (match_pattern table pattern)
      (λ names. matching_from table patterns (union found names))

-- _matching
unfoldable pub matching : Table → List Text → Named
unfolding matching_from
matching table patterns = matching_from table patterns []

unfoldable pub strip_operators : Text → Text
strip_operators [] = []
strip_operators (c ∷ s) =
    let rest = strip_operators s in
    if nat_eq c exclamation || nat_eq c ampersand then rest else c ∷ s

-- _names_guests
unfoldable pub names_guests : List Text → Bool
unfolding separated strip_operators
names_guests targets =
    any (λ target. any (λ token. strip_operators (strip token) == guest_group) (separated target))
      targets

-- `plan`, from the playbook's lines: `none` is the ValueError.
unfoldable pub plan_named : Table → List Text → RunScope → Named → Option (Checked Scope)
plan_named table targets asked (hosts played) =
    some (plan (names_guests targets) (some played) table asked)
plan_named table targets asked unread = some (plan (names_guests targets) none table asked)
plan_named table targets asked bad_number = none

unfoldable pub plan_targets : Table → List Text → RunScope → Option (Checked Scope)
unfolding matching plan_named
plan_targets table targets asked = plan_named table targets asked (matching table targets)
