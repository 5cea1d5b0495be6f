-- ===== src/Common/Texts.antt =====
-- Python's `str` as the list of its code points: equality, the lexicographic order, and the methods
-- that the program calls.
use Prim.Native.Nat.{ℕ}
use Prim.Native.Char.{code}
use Prim.Native.String.{String}
use mathlib.Core.Path.{◌≡◌, refl}
use mathlib.Core.Logic.{◌↔◌, inl, inr}
use mathlib.Core.Bool.{Bool, true, false, ◌&&◌, ◌||◌}
use mathlib.Core.Option.{Option, none, some}
use mathlib.Core.List.{List, [], ◌∷◌, ◌++◌}
use native.Mathlib.Omega.{arith}
use seapath_webui.Common.Tests.{ltb, nat_eq, nat_eq_iff, if◌then◌else◌, and-eq-true, Bool-cases}
use seapath_webui.Common.Lists.{all}

abbrev pub Text : Type 0
Text = List ℕ

-- A literal of the source.
abbrev pub codes : String → Text
codes String.[] = []
codes (String.◌∷◌ c s) = code c ∷ codes s

infix 50 ◌==◌
unfoldable pub ◌==◌ : Text → Text → Bool
[] == [] = true
[] == (y ∷ t) = false
(x ∷ s) == [] = false
(x ∷ s) == (y ∷ t) = nat_eq x y && s == t

pub eq_refl : (s : Text) → (s == s) ≡ true
unfolding ◌==◌
eq_refl [] = refl
eq_refl (x ∷ s) = ground (arith, eq_refl s)

pub eq_sound : (s t : Text) → (s == t) ≡ true → s ≡ t
unfolding ◌==◌
eq_sound [] [] h = refl
eq_sound [] (y ∷ t) h = cc
eq_sound (x ∷ s) [] h = cc
eq_sound (x ∷ s) (y ∷ t) h =
    let (p, q) = and-eq-true (nat_eq x y) (s == t) h in cc ((nat_eq_iff x y).0 p, eq_sound s t q)

pub eq_iff : (s t : Text) → ((s == t) ≡ true) ↔ (s ≡ t)
eq_iff s t = (eq_sound s t, λ e. rw e (eq_refl t))

-- s <= t
unfoldable pub text_le : Text → Text → Bool
text_le [] t = true
text_le (x ∷ s) [] = false
text_le (x ∷ s) (y ∷ t) = ltb x y || nat_eq x y && text_le s t

pub text_le_refl : (s : Text) → text_le s s ≡ true
unfolding text_le
text_le_refl [] = refl
text_le_refl (x ∷ s) = ground (arith, text_le_refl s)

pub text_le_total : (s t : Text) → text_le s t ≡ false → text_le t s ≡ true
unfolding text_le
text_le_total [] t h = cc
text_le_total (x ∷ s) [] h = refl
text_le_total (x ∷ s) (y ∷ t) h = ground (arith, text_le_total s t)

-- s.startswith(t)
unfoldable pub starts_with : Text → Text → Bool
starts_with s [] = true
starts_with [] (y ∷ t) = false
starts_with (x ∷ s) (y ∷ t) = nat_eq x y && starts_with s t

-- c in s, for one character
unfoldable pub has_char : ℕ → Text → Bool
has_char c [] = false
has_char c (x ∷ s) = nat_eq x c || has_char c s

unfoldable pub is_ascii : Text → Bool
unfolding all
is_ascii s = all (λ c. ltb c 128) s

abbrev cons_head : ℕ → Option (Text × Text) → Option (Text × Text)
cons_head x none = none
cons_head x (some (a, b)) = some (x ∷ a, b)

-- s.partition(c) for one character: `none` where the separator is absent.
unfoldable pub partition : ℕ → Text → Option (Text × Text)
partition c [] = none
partition c (x ∷ s) =
    let rest = cons_head x (partition c s) in if nat_eq x c then some ([], s) else rest

pub partition_append :
    (c : ℕ) (s t : Text) → has_char c s ≡ false → partition c (s ++ c ∷ t) ≡ some (s, t)
unfolding partition has_char
partition_append c [] t h = ground arith
partition_append c (x ∷ s) t h = ground (arith, partition_append c s t)

cons_head-eq-some :
    (x : ℕ) (o : Option (Text × Text)) {a b : Text}
    → cons_head x o ≡ some (a, b)
    → (a' : Text) × (o ≡ some (a', b)) × (a ≡ x ∷ a')
cons_head-eq-some x none h = cc
cons_head-eq-some x (some (a', b')) h = (a', cc, cc)

pub partition_sound : (c : ℕ) (s a b : Text) → partition c s ≡ some (a, b) → s ≡ a ++ c ∷ b
unfolding partition
partition_sound c [] a b h = cc
partition_sound c (x ∷ s) a b h = elim (Bool-cases (nat_eq x c)) [
  | inl e ↦ ground (arith, nat_eq_iff x c)
  | inr n ↦
      let (a', found, starts) = cons_head-eq-some x (partition c s) (rw n at h) in
      cc (partition_sound c s a' b found)
]

pub text_le_trans : (s t u : Text) → text_le s t ≡ true → text_le t u ≡ true → text_le s u ≡ true
unfolding text_le
text_le_trans [] t u p q = refl
text_le_trans (x ∷ s) [] u p q = cc
text_le_trans (x ∷ s) (y ∷ t) [] p q = cc
text_le_trans (x ∷ s) (y ∷ t) (z ∷ u) p q = ground (arith, text_le_trans s t u)
