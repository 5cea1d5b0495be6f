-- ===== src/Runs/Service/Advice.antt =====
-- app/runs/service.py: what a record says of a run that opened no connection or ended before any machine:
-- `_connection_advice`, and `_first_error` with the colour codes that it strips.
use mathlib.Core.List.{reverse}
use seapath_webui.Common.{
  ℕ, zero, suc, Text, codes, leb, nat_eq, length, starts_with, strip, is_empty, filter, find, Bool,
  false, not, ◌&&◌, ◌||◌, Option, none, some, List, [], ◌∷◌, if◌then◌else◌,
}
use seapath_webui.Common.Dict.{has}
use seapath_webui.Common.Lines.{splitlines}
use seapath_webui.Inventory.Model.{Inventory}

pub data Advice : Type 0 where
  of_guests of_machines : Advice

is_guest : Option Inventory → Text → Bool
is_guest none name = false
is_guest (some inventory) name = has name (inventory.guests)

unfoldable pub connection_advice : Option Inventory → List Text → Advice
unfolding is_guest filter has
connection_advice inventory unreachable =
    let guests = filter (is_guest inventory) unreachable in
    if not (is_empty guests) && nat_eq (length guests) (length unreachable)
    then of_guests
    else of_machines

more : Option ℕ → Option ℕ
more none = none
more (some n) = some (suc n)

-- How many characters of [0-9;]*m the text starts with.
unfoldable pub codes_length : Text → Option ℕ
unfolding more
codes_length [] = none
codes_length (c ∷ s) =
    let longer = more (codes_length s) in
    if nat_eq c b'm'
    then some 1
    else if (leb b'0' c && leb c b'9') || nat_eq c b';'
    then longer
    else none

-- How many characters of a colour code follow its escape: none where there is no code.
unfoldable pub after_escape : Text → Option ℕ
unfolding codes_length
after_escape [] = none
after_escape (c ∷ s) = if nat_eq c b'[' then more (codes_length s) else none

unfoldable pub strip_from : ℕ → Text → Text
unfolding after_escape
strip_from skipped [] = []
strip_from (suc skipped) (c ∷ s) = strip_from skipped s
strip_from zero (c ∷ s) =
    let plain = strip_from zero s in
    if nat_eq c 27
    then elim (after_escape s) [ none ↦ c ∷ plain | some n ↦ strip_from n s ]
    else c ∷ plain

-- _ANSI.sub("", log)
abbrev strip_colours : Text → Text
strip_colours log = strip_from zero log

is_cause : Text → Bool
is_cause line =
    starts_with (strip line) (codes "ERROR!") || starts_with (strip line) (codes "fatal:")

is_said : Text → Bool
is_said line = not (is_empty (strip line))

abbrev pub no_reason : Text
no_reason = codes "The log below has the reason."

abbrev stripped_or : Option Text → Text → Text
stripped_or none other = other
stripped_or (some line) other = strip line

-- The line in the log that names the cause: the first error, or else the last line that says something.
unfoldable pub first_error : Text → Text
unfolding strip_from splitlines find is_cause is_said strip starts_with
first_error log =
    let lines = splitlines (strip_colours log) in
    stripped_or (find is_cause lines) (stripped_or (find is_said (reverse lines)) no_reason)
