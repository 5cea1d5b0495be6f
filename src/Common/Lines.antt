-- ===== src/Common/Lines.antt =====
-- Python's `str.splitlines` and `str.split`, and what writing lines gives back.
use Prim.Native.Nat.{ℕ}
use mathlib.Core.Path.{◌≡◌, refl, ap, sym, ◌∙◌}
use mathlib.Core.Logic.{inl, inr}
use mathlib.Core.Bool.{Bool, true, false, not, ◌&&◌, ◌||◌}
use mathlib.Core.List.{List, [], ◌∷◌, ◌++◌}
use native.Mathlib.Omega.{arith}
use seapath_webui.Common.Tests.{leb, nat_eq, if◌then◌else◌, Bool-cases, and-eq-true}
use seapath_webui.Common.Lists.{is_empty, all, All, append_assoc, append_nil}
use seapath_webui.Common.Texts.{Text, ◌==◌, eq_refl, eq_sound}
use seapath_webui.Common.Words.{is_space}

abbrev pub newline : ℕ
newline = 10

abbrev pub blank : ℕ
blank = 32

abbrev pub carriage_return : ℕ
carriage_return = 13

-- The characters at which a line ends.
unfoldable pub is_break : ℕ → Bool
is_break c =
    (leb 10 c && leb c 13)
    || (leb 28 c && leb c 30)
    || nat_eq c 133
    || nat_eq c 8232
    || nat_eq c 8233

abbrev pub cons_line : ℕ → List Text → List Text
cons_line c [] = (c ∷ []) ∷ []
cons_line c (line ∷ lines) = (c ∷ line) ∷ lines

-- The lines of a text, which end where `ends` says. `after_return` is whether a carriage return stands
-- before: it makes one break with a line feed.
unfoldable pub lines_from : (ℕ → Bool) → Bool → Text → List Text
lines_from ends after_return [] = []
lines_from ends after_return (c ∷ s) =
    let joined = lines_from ends false s in
    let broken = lines_from ends (nat_eq c carriage_return) s in
    if after_return && nat_eq c newline
    then joined
    else (if ends c then [] ∷ broken else cons_line c joined)

-- s.splitlines()
unfoldable pub splitlines : Text → List Text
unfolding lines_from is_break
splitlines s = lines_from is_break false s

-- A file that is read line by line, its line ends being those of any system.
unfoldable pub file_lines : Text → List Text
unfolding lines_from
file_lines s = lines_from (λ c. nat_eq c newline || nat_eq c carriage_return) false s

-- "".join(f"{line}\n" for line in lines)
unfoldable pub unlines : List Text → Text
unlines [] = []
unlines (line ∷ lines) = line ++ newline ∷ unlines lines

-- A text that is one line.
abbrev pub IsLine : Text → Type 0
IsLine s = All (λ c. is_break c ≡ false) s

pub space-break : (c : ℕ) → is_space c ≡ false → is_break c ≡ false
unfolding is_space is_break
space-break c h = ground arith

lines_from-line :
    (ends : ℕ → Bool) (line : Text) (after_return : Bool) (s : Text)
    → ends newline ≡ true
    → after_return ≡ false
    → All (λ c. ends c ≡ false) line
    → lines_from ends after_return (line ++ newline ∷ s) ≡ line ∷ lines_from ends false s
unfolding lines_from
lines_from-line ends [] true s f e h = cc
lines_from-line ends [] false s f e h = rw f refl
lines_from-line ends (c ∷ line) true s f e h = cc
lines_from-line ends (c ∷ line) false s f e (plain, h) =
    rw (plain, lines_from-line ends line false s f refl h) refl

-- Lines that are written are read back, before whatever follows them.
pub lines_from-unlines :
    (ends : ℕ → Bool) (lines : List Text) (s : Text)
    → ends newline ≡ true
    → All (λ line. All (λ c. ends c ≡ false) line) lines
    → lines_from ends false (unlines lines ++ s) ≡ lines ++ lines_from ends false s
unfolding unlines
lines_from-unlines ends [] s f h = refl
lines_from-unlines ends (line ∷ lines) s f (one, h) =
    ap (lines_from ends false) (append_assoc line (newline ∷ unlines lines) s)
    ∙ (lines_from-line ends line false (unlines lines ++ s) f refl one
        ∙ ap (λ l. line ∷ l) (lines_from-unlines ends lines s f h))

pub splitlines-unlines : (lines : List Text) → All IsLine lines → splitlines (unlines lines) ≡ lines
unfolding splitlines lines_from is_break
splitlines-unlines lines h =
    ap splitlines (sym (append_nil (unlines lines)))
    ∙ (lines_from-unlines is_break lines [] refl h ∙ append_nil lines)

-- A text without a line end is one line, or none where it is empty.
pub lines_from-one :
    (ends : ℕ → Bool) (s : Text)
    → All (λ c. ends c ≡ false) s
    → lines_from ends false s ≡ (if is_empty s then [] else s ∷ [])
unfolding lines_from
lines_from-one ends [] h = refl
lines_from-one ends (c ∷ []) (plain, h) = rw plain refl
lines_from-one ends (c ∷ d ∷ s) (plain, h) = rw (plain, lines_from-one ends (d ∷ s) h) refl

cons_line-IsLine :
    (c : ℕ) (lines : List Text)
    → is_break c ≡ false
    → All IsLine lines
    → All IsLine (cons_line c lines)
cons_line-IsLine c [] plain h = ((plain, tt), tt)
cons_line-IsLine c (line ∷ lines) plain (one, h) = ((plain, one), h)

lines_from-IsLine :
    (after_return : Bool) (s : Text) → All IsLine (lines_from is_break after_return s)
unfolding lines_from
lines_from-IsLine after_return [] = tt
lines_from-IsLine after_return (c ∷ s) = elim (Bool-cases (after_return && nat_eq c newline)) [
  | inl joins ↦ rw joins (lines_from-IsLine false s)
  | inr apart ↦ elim (Bool-cases (is_break c)) [
    | inl breaks ↦ rw (apart, breaks) (tt, lines_from-IsLine (nat_eq c carriage_return) s)
    | inr plain ↦ rw (apart, plain) (cons_line-IsLine c _ plain (lines_from-IsLine false s))
  ]
]

pub splitlines-IsLine : (s : Text) → All IsLine (splitlines s)
unfolding splitlines
splitlines-IsLine s = lines_from-IsLine false s

abbrev pub starts_blank : Text → Bool
starts_blank [] = true
starts_blank (c ∷ s) = is_space c

abbrev pub joined_word : Bool → ℕ → List Text → List Text
joined_word true c words = (c ∷ []) ∷ words
joined_word false c words = cons_line c words

-- s.split()
unfoldable pub fields : Text → List Text
unfolding is_space
fields [] = []
fields (c ∷ s) =
    let rest = fields s in if is_space c then rest else joined_word (starts_blank s) c rest

-- A word, which `split` leaves whole.
abbrev pub IsWord : Text → Type 0
IsWord s = (is_empty s ≡ false) × All (λ c. is_space c ≡ false) s

pub fields-word : (w : Text) → IsWord w → fields w ≡ w ∷ []
unfolding fields
fields-word [] h = cc h.0
fields-word (c ∷ []) (some_char, one) = rw one.0 refl
fields-word (c ∷ d ∷ w) (some_char, one) =
    rw (one.0, fields-word (d ∷ w) (refl, one.1), one.1.0) refl

not-eq-true : (b : Bool) → not b ≡ true → b ≡ false
not-eq-true true h = cc
not-eq-true false h = refl

all-not :
    (test : ℕ → Bool) (s : Text) → all (λ c. not (test c)) s ≡ true → All (λ c. test c ≡ false) s
unfolding all
all-not test [] h = tt
all-not test (c ∷ s) h =
    let (one, rest) = and-eq-true (not (test c)) (all (λ d. not (test d)) s) h in
    (not-eq-true (test c) one, all-not test s rest)

-- The tests that a word passes.
abbrev pub is_word : Text → Bool
is_word w = not (is_empty w) && all (λ c. not (is_space c)) w

pub is_word_sound : (w : Text) → is_word w ≡ true → IsWord w
is_word_sound w h =
    let (some_char, plain) = and-eq-true (not (is_empty w)) (all (λ c. not (is_space c)) w) h in
    (not-eq-true (is_empty w) some_char, all-not is_space w plain)

joined_word-append :
    (s t : Text) (c : ℕ) (ws : List Text) (h : starts_blank s ≡ false → is_empty ws ≡ false)
    → joined_word (starts_blank (s ++ blank ∷ t)) c (ws ++ fields t)
      ≡ joined_word (starts_blank s) c ws ++ fields t
unfolding is_space
joined_word-append [] t c ws h = refl
joined_word-append (d ∷ s) t c [] h = elim (Bool-cases (is_space d)) [
  | inl space ↦ rw space refl
  | inr plain ↦ cc (h plain)
]
joined_word-append (d ∷ s) t c (w ∷ ws) h = elim (Bool-cases (is_space d)) [
  | inl space ↦ rw space refl
  | inr plain ↦ rw plain refl
]

cons_line-is_empty : (b : Bool) (c : ℕ) (ws : List Text) → is_empty (joined_word b c ws) ≡ false
cons_line-is_empty true c ws = refl
cons_line-is_empty false c [] = refl
cons_line-is_empty false c (w ∷ ws) = refl

fields-is_empty : (s : Text) → starts_blank s ≡ false → is_empty (fields s) ≡ false
unfolding fields
fields-is_empty [] h = cc
fields-is_empty (c ∷ s) h = rw h (cons_line-is_empty (starts_blank s) c (fields s))

-- A blank stands between two texts that are split apart.
pub fields-append_blank : (s t : Text) → fields (s ++ blank ∷ t) ≡ fields s ++ fields t
unfolding fields
fields-append_blank [] t = refl
fields-append_blank (c ∷ s) t = elim (Bool-cases (is_space c)) [
  | inl space ↦ rw space (fields-append_blank s t)
  | inr plain ↦
      rw (plain, fields-append_blank s t) (joined_word-append s t c (fields s) (fields-is_empty s))
]

pub fields-word_append : (w s : Text) → IsWord w → fields (w ++ blank ∷ s) ≡ w ∷ fields s
fields-word_append w s h = rw (fields-append_blank w s, fields-word w h) refl

-- sep.join(parts)
unfoldable pub join : Text → List Text → Text
join sep [] = []
join sep (part ∷ []) = part
join sep (part ∷ next ∷ parts) = part ++ (sep ++ join sep (next ∷ parts))

unfoldable pub texts_eq : List Text → List Text → Bool
unfolding ◌==◌
texts_eq [] [] = true
texts_eq [] (t ∷ ts) = false
texts_eq (s ∷ ss) [] = false
texts_eq (s ∷ ss) (t ∷ ts) = s == t && texts_eq ss ts

pub texts_eq_refl : (ss : List Text) → texts_eq ss ss ≡ true
unfolding texts_eq
texts_eq_refl [] = refl
texts_eq_refl (s ∷ ss) = rw (eq_refl s, texts_eq_refl ss) refl

pub texts_eq_sound : (ss ts : List Text) → texts_eq ss ts ≡ true → ss ≡ ts
unfolding texts_eq
texts_eq_sound [] [] h = refl
texts_eq_sound [] (t ∷ ts) h = cc
texts_eq_sound (s ∷ ss) [] h = cc
texts_eq_sound (s ∷ ss) (t ∷ ts) h =
    let (p, q) = and-eq-true (s == t) (texts_eq ss ts) h in
    cc (eq_sound s t p, texts_eq_sound ss ts q)

-- "\n".join(lines) + ("\n" if lines else "")
pub join-unlines :
    (lines : List Text)
    → join (newline ∷ []) lines ++ (if is_empty lines then [] else newline ∷ []) ≡ unlines lines
unfolding join unlines
join-unlines [] = refl
join-unlines (line ∷ []) = refl
join-unlines (line ∷ next ∷ lines) =
    append_assoc line (newline ∷ join (newline ∷ []) (next ∷ lines)) (newline ∷ [])
    ∙ ap (λ t. line ++ newline ∷ t) (join-unlines (next ∷ lines))
