-- ===== src/Common/Words.antt =====
-- Python's `str` methods on white space, and the search for a part of a text.
use Prim.Native.Nat.{ℕ}
use mathlib.Core.Path.{◌≡◌, refl}
use mathlib.Core.Bool.{Bool, false, ◌&&◌, ◌||◌}
use mathlib.Core.List.{[], ◌∷◌, ◌++◌}
use native.Mathlib.Omega.{arith}
use seapath_webui.Common.Tests.{leb, nat_eq, if◌then◌else◌}
use seapath_webui.Common.Lists.{is_empty, All}
use seapath_webui.Common.Texts.{Text, starts_with}

-- The characters that `str.isspace` takes for white space.
unfoldable pub is_space : ℕ → Bool
is_space c =
    (leb 9 c && leb c 13)
    || (leb 28 c && leb c 32)
    || nat_eq c 133
    || nat_eq c 160
    || nat_eq c 5760
    || (leb 8192 c && leb c 8202)
    || nat_eq c 8232
    || nat_eq c 8233
    || nat_eq c 8239
    || nat_eq c 8287
    || nat_eq c 12288

unfoldable pub lstrip : Text → Text
unfolding is_space
lstrip [] = []
lstrip (c ∷ s) = let rest = lstrip s in if is_space c then rest else c ∷ s

unfoldable pub rstrip : Text → Text
unfolding is_space
rstrip [] = []
rstrip (c ∷ s) = let rest = rstrip s in if is_empty rest && is_space c then [] else c ∷ rest

unfoldable pub strip : Text → Text
unfolding lstrip rstrip
strip s = rstrip (lstrip s)

-- t in s
unfoldable pub has_part : Text → Text → Bool
unfolding starts_with
has_part t [] = is_empty t
has_part t (c ∷ s) = starts_with (c ∷ s) t || has_part t s

lstrip_idem : (s : Text) → lstrip (lstrip s) ≡ lstrip s
unfolding lstrip
lstrip_idem [] = refl
lstrip_idem (c ∷ s) = ground (arith, lstrip_idem s)

rstrip_idem : (s : Text) → rstrip (rstrip s) ≡ rstrip s
unfolding rstrip
rstrip_idem [] = refl
rstrip_idem (c ∷ s) = ground (arith, rstrip_idem s)

lstrip-rstrip : (s : Text) → lstrip (rstrip s) ≡ rstrip (lstrip s)
unfolding lstrip rstrip
lstrip-rstrip [] = refl
lstrip-rstrip (c ∷ s) = ground (arith, lstrip-rstrip s)

pub strip_idem : (s : Text) → strip (strip s) ≡ strip s
unfolding strip
strip_idem s = rw (lstrip-rstrip (lstrip s), lstrip_idem s, rstrip_idem (lstrip s)) refl

lstrip-plain : (c : ℕ) (s : Text) → is_space c ≡ false → lstrip (c ∷ s) ≡ c ∷ s
unfolding lstrip
lstrip-plain c s plain = rw plain refl

is_empty-append : (s w : Text) → is_empty w ≡ false → is_empty (s ++ w) ≡ false
is_empty-append [] w h = h
is_empty-append (c ∷ s) w h = refl

rstrip-append : (s w : Text) → is_empty w ≡ false → rstrip w ≡ w → rstrip (s ++ w) ≡ s ++ w
unfolding rstrip
rstrip-append [] w h e = e
rstrip-append (c ∷ s) w h e = rw (rstrip-append s w h e, is_empty-append s w h) refl

rstrip-word : (w : Text) → All (λ c. is_space c ≡ false) w → rstrip w ≡ w
unfolding rstrip
rstrip-word [] h = refl
rstrip-word (c ∷ w) (plain, h) = ground (arith, plain, rstrip-word w h)

-- Nothing is stripped of a text that neither starts nor ends with white space.
pub strip_plain :
    (c : ℕ) (s w : Text)
    → is_space c ≡ false
    → is_empty w ≡ false
    → All (λ d. is_space d ≡ false) w
    → strip (c ∷ s ++ w) ≡ c ∷ s ++ w
unfolding strip
strip_plain c s w plain h word =
    rw (lstrip-plain c (s ++ w) plain) (rstrip-append (c ∷ s) w h (rstrip-word w word))

pub strip_word : (w : Text) → All (λ c. is_space c ≡ false) w → strip w ≡ w
unfolding strip lstrip
strip_word [] h = refl
strip_word (c ∷ w) h = rw (h.0) (rstrip-word (c ∷ w) h)
