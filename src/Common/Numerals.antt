-- ===== src/Common/Numerals.antt =====
-- Python's `int` of a `str`, in base ten.
use Prim.Native.Nat.{ℕ, zero, suc, ◌+◌, ◌-◌, ◌*◌}
use mathlib.Core.Bool.{Bool, true, false, not, ◌&&◌}
use mathlib.Core.Option.{Option, none, some}
use mathlib.Core.List.{List, [], ◌∷◌}
use seapath_webui.Common.Tests.{leb, ltb, nat_eq, if◌then◌else◌}
use seapath_webui.Common.Lists.{is_empty}
use seapath_webui.Common.Texts.{Text}
use seapath_webui.Common.Words.{is_space}
use seapath_webui.Common.Int.{ℤ, pos, negsuc}

-- The decimal digits zero of Unicode: each is followed by the other nine.
abbrev pub digit_zeros : List ℕ
digit_zeros =
    48 ∷ 1632 ∷ 1776 ∷ 1984 ∷ 2406 ∷ 2534 ∷ 2662 ∷ 2790 ∷ 2918 ∷ 3046 ∷ 3174 ∷ 3302 ∷ 3430 ∷ 3558
    ∷ 3664 ∷ 3792 ∷ 3872 ∷ 4160 ∷ 4240 ∷ 6112 ∷ 6160 ∷ 6470 ∷ 6608 ∷ 6784 ∷ 6800 ∷ 6992 ∷ 7088
    ∷ 7232 ∷ 7248 ∷ 42528 ∷ 43216 ∷ 43264 ∷ 43472 ∷ 43504 ∷ 43600 ∷ 44016 ∷ 65296 ∷ 66720 ∷ 68912
    ∷ 69734 ∷ 69872 ∷ 69942 ∷ 70096 ∷ 70384 ∷ 70736 ∷ 70864 ∷ 71248 ∷ 71360 ∷ 71472 ∷ 71904 ∷ 72016
    ∷ 72784 ∷ 73040 ∷ 73120 ∷ 92768 ∷ 92864 ∷ 93008 ∷ 120782 ∷ 120792 ∷ 120802 ∷ 120812 ∷ 120822
    ∷ 123200 ∷ 123632 ∷ 125264 ∷ 130032 ∷ []

unfoldable pub digit_among : List ℕ → ℕ → Option ℕ
digit_among [] c = none
digit_among (z ∷ zs) c =
    let rest = digit_among zs c in if leb z c && ltb c (z + 10) then some (c - z) else rest

abbrev pub underscore : ℕ
underscore = 95

-- What a character is in a numeral.
pub data Mark : Type 0 where
  digit : ℕ → Mark
  separator stranger : Mark

abbrev pub marked_digit : Option ℕ → Mark
marked_digit none = stranger
marked_digit (some d) = digit d

unfoldable pub mark_of : ℕ → Mark
unfolding digit_among
mark_of c = if nat_eq c underscore then separator else marked_digit (digit_among digit_zeros c)

-- The value of digits, and how many they are, after others of value `value`: an underscore stands
-- between two digits only. `after` is whether a digit comes before.
unfoldable pub digits_from : Bool → ℕ → ℕ → Text → Option (ℕ × ℕ)
unfolding mark_of
digits_from true value count [] = some (value, count)
digits_from false value count [] = none
digits_from after value count (c ∷ s) = elim (mark_of c) [
  | digit d ↦ digits_from true (value * 10 + d) (count + 1) s
  | separator ↦ elim after [ true ↦ digits_from false value count s | false ↦ none ]
  | stranger ↦ none
]

-- More digits than this are refused.
abbrev pub most_digits : ℕ
most_digits = 4300

unfoldable pub within_most : Option (ℕ × ℕ) → Option ℕ
within_most none = none
within_most (some (value, count)) = if leb count most_digits then some value else none

abbrev pub as_positive : Option ℕ → Option ℤ
as_positive none = none
as_positive (some n) = some (pos n)

abbrev pub minus : ℕ → ℤ
minus zero = pos zero
minus (suc n) = negsuc n

abbrev pub as_negative : Option ℕ → Option ℤ
as_negative none = none
as_negative (some n) = some (minus n)

unfoldable pub unsigned : Text → Option ℕ
unfolding digits_from within_most
unsigned s = within_most (digits_from false 0 0 s)

unfoldable pub signed : Text → Option ℤ
unfolding unsigned
signed [] = none
signed (c ∷ s) =
    if nat_eq c b'+'
    then as_positive (unsigned s)
    else if nat_eq c b'-'
    then as_negative (unsigned s)
    else as_positive (unsigned (c ∷ s))

-- The white space around a numeral: not the four separators of ASCII, which `str.strip` does remove.
unfoldable pub is_blank : ℕ → Bool
unfolding is_space
is_blank c = is_space c && not (leb 28 c && leb c 31)

unfoldable pub trim_start : Text → Text
unfolding is_blank
trim_start [] = []
trim_start (c ∷ s) = let rest = trim_start s in if is_blank c then rest else c ∷ s

unfoldable pub trim_end : Text → Text
unfolding is_blank
trim_end [] = []
trim_end (c ∷ s) = let rest = trim_end s in if is_empty rest && is_blank c then [] else c ∷ rest

-- int(s), `none` where it raises a ValueError
unfoldable pub int_of_text : Text → Option ℤ
unfolding signed trim_start trim_end
int_of_text s = signed (trim_end (trim_start s))
