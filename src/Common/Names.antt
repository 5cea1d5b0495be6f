-- ===== src/Common/Names.antt =====
-- Python's sets of names as lists, read by membership, and `sorted`.

use mathlib.Core.Path.{◌≡◌, refl, subst}
use mathlib.Core.Logic.{inl, inr}
use mathlib.Core.Bool.{Bool, true, false, not, ◌&&◌, ◌||◌}
use mathlib.Core.List.{List, [], ◌∷◌, ◌++◌}
use native.Mathlib.Omega.{arith}
use seapath_webui.Common.Tests.{if◌then◌else◌, Bool-cases, and-eq-true}
use seapath_webui.Common.Lists.{filter}
use seapath_webui.Common.Texts.{Text, ◌==◌, eq_iff, text_le, text_le_total}

-- a in s
unfoldable pub mem : Text → List Text → Bool
mem a [] = false
mem a (x ∷ s) = x == a || mem a s

-- s | t
unfoldable pub union : List Text → List Text → List Text
unfolding filter
union s t = s ++ filter (λ x. not (mem x s)) t

-- s & t
unfoldable pub inter : List Text → List Text → List Text
unfolding filter
inter s t = filter (λ x. mem x t) s

-- s - t
unfoldable pub diff : List Text → List Text → List Text
unfolding filter
diff s t = filter (λ x. not (mem x t)) s

-- set(xs)
unfoldable pub to_set : List Text → List Text
to_set [] = []
to_set (x ∷ s) = let rest = to_set s in if mem x s then rest else x ∷ rest

insert_sorted : Text → List Text → List Text
insert_sorted x [] = x ∷ []
insert_sorted x (y ∷ s) =
    let rest = insert_sorted x s in if text_le x y then x ∷ y ∷ s else y ∷ rest

-- sorted(xs)
unfoldable pub sorted : List Text → List Text
unfolding insert_sorted
sorted [] = []
sorted (x ∷ s) = insert_sorted x (sorted s)

pub mem-append : (a : Text) (s t : List Text) → mem a (s ++ t) ≡ (mem a s || mem a t)
unfolding mem
mem-append a [] t = refl
mem-append a (x ∷ s) t = ground (arith, mem-append a s t)

pub mem-filter :
    (test : Text → Bool) (a : Text) (s : List Text) → mem a (filter test s) ≡ (mem a s && test a)
unfolding mem filter
mem-filter test a [] = refl
mem-filter test a (x ∷ s) = elim (Bool-cases (x == a)) [
  | inl e ↦ rw ((eq_iff x a).0 e) (ground (arith, mem-filter test a s, (eq_iff a a).1 refl))
  | inr n ↦ ground (arith, mem-filter test a s)
]

pub mem-union : (a : Text) (s t : List Text) → mem a (union s t) ≡ (mem a s || mem a t)
unfolding union
mem-union a s t = rw (mem-append a s _) (ground (arith, mem-filter (λ x. not (mem x s)) a t))

pub mem-inter : (a : Text) (s t : List Text) → mem a (inter s t) ≡ (mem a s && mem a t)
unfolding inter
mem-inter a s t = mem-filter (λ x. mem x t) a s

pub mem-diff : (a : Text) (s t : List Text) → mem a (diff s t) ≡ (mem a s && not (mem a t))
unfolding diff
mem-diff a s t = mem-filter (λ x. not (mem x t)) a s

pub mem-to_set : (a : Text) (s : List Text) → mem a (to_set s) ≡ mem a s
unfolding mem to_set
mem-to_set a [] = refl
mem-to_set a (x ∷ s) = ground (arith, mem-to_set a s, eq_iff x a)

mem-insert_sorted : (a x : Text) (s : List Text) → mem a (insert_sorted x s) ≡ (x == a || mem a s)
unfolding mem insert_sorted
mem-insert_sorted a x [] = refl
mem-insert_sorted a x (y ∷ s) = ground (arith, mem-insert_sorted a x s)

pub mem-sorted : (a : Text) (s : List Text) → mem a (sorted s) ≡ mem a s
unfolding mem sorted
mem-sorted a [] = refl
mem-sorted a (x ∷ s) = rw (mem-insert_sorted a x (sorted s), mem-sorted a s)

pub ruleset mem_laws = (mem-append, mem-union, mem-inter, mem-diff, mem-to_set, mem-sorted)

-- Each name stands before the next in the lexicographic order.
abbrev pub IsSorted : List Text → Type 0
IsSorted [] = Unit
IsSorted (x ∷ []) = Unit
IsSorted (x ∷ y ∷ s) = (text_le x y ≡ true) × IsSorted (y ∷ s)

insert_sorted-IsSorted : (x : Text) (s : List Text) → IsSorted s → IsSorted (insert_sorted x s)
unfolding insert_sorted
insert_sorted-IsSorted x [] h = tt
insert_sorted-IsSorted x (y ∷ []) h = ground (arith, text_le_total x y)
insert_sorted-IsSorted x (y ∷ z ∷ s) h =
    ground (arith, text_le_total x y, text_le_total x z, insert_sorted-IsSorted x (z ∷ s) h.1)

pub sorted-IsSorted : (s : List Text) → IsSorted (sorted s)
unfolding sorted
sorted-IsSorted [] = tt
sorted-IsSorted (x ∷ s) = insert_sorted-IsSorted x (sorted s) (sorted-IsSorted s)

-- `s` holds nothing that is outside `t`.
unfoldable pub subset : List Text → List Text → Bool
subset [] t = true
subset (x ∷ s) t = mem x t && subset s t

pub subset_sound :
    (s t : List Text) (a : Text) → subset s t ≡ true → mem a s ≡ true → mem a t ≡ true
unfolding mem subset
subset_sound [] t a h m = cc
subset_sound (x ∷ s) t a h m = elim (Bool-cases (x == a)) [
  | inl e ↦ subst (λ y. mem y t ≡ true) ((eq_iff x a).0 e) (and-eq-true (mem x t) (subset s t) h).0
  | inr n ↦ subset_sound s t a (ground arith) (ground arith)
]
