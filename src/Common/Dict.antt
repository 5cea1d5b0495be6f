-- ===== src/Common/Dict.antt =====
-- Python's `dict` with text keys, in insertion order.
use mathlib.Core.Path.{◌≡◌, refl}
use mathlib.Core.Bool.{Bool, true, false}
use mathlib.Core.Option.{Option, none, some}
use mathlib.Core.List.{List, [], ◌∷◌}
use native.Mathlib.Omega.{arith}
use seapath_webui.Common.Tests.{if◌then◌else◌}
use seapath_webui.Common.Texts.{Text, ◌==◌, eq_iff}

abbrev pub Dict {ℓ} : Type ℓ → Type ℓ
Dict V = List (Text × V)

module _ {ℓ} {V : Type ℓ} where
  -- d.get(k)
  unfoldable pub lookup : Text → Dict V → Option V
  lookup k [] = none
  lookup k ((j, v) ∷ d) = let rest = lookup k d in if j == k then some v else rest

  -- k in d
  unfoldable pub has : Text → Dict V → Bool
  has k [] = false
  has k ((j, v) ∷ d) = let rest = has k d in if j == k then true else rest

  -- d[k] = v: in place where the key is there, at the end where it is new
  unfoldable pub insert : Text → V → Dict V → Dict V
  insert k v [] = (k, v) ∷ []
  insert k v ((j, w) ∷ d) = let rest = insert k v d in if j == k then (j, v) ∷ d else (j, w) ∷ rest

  -- d.pop(k, None)
  unfoldable pub remove : Text → Dict V → Dict V
  remove k [] = []
  remove k ((j, w) ∷ d) = let rest = remove k d in if j == k then rest else (j, w) ∷ rest

  -- list(d)
  unfoldable pub keys : Dict V → List Text
  keys [] = []
  keys ((k, v) ∷ d) = k ∷ keys d

  pub lookup-insert :
      (k j : Text) (v : V) (d : Dict V)
      → lookup j (insert k v d) ≡ (if k == j then some v else lookup j d)
  unfolding lookup insert
  lookup-insert k j v [] = refl
  lookup-insert k j v ((i, w) ∷ d) =
      ground (arith, eq_iff k j, eq_iff i k, eq_iff i j, lookup-insert k j v d)

  pub lookup-remove :
      (k j : Text) (d : Dict V) → lookup j (remove k d) ≡ (if k == j then none else lookup j d)
  unfolding lookup remove
  lookup-remove k j [] = ground arith
  lookup-remove k j ((i, w) ∷ d) =
      ground (arith, eq_iff k j, eq_iff i k, eq_iff i j, lookup-remove k j d)

  pub has-insert :
      (k j : Text) (v : V) (d : Dict V) → has j (insert k v d) ≡ (if k == j then true else has j d)
  unfolding has insert
  has-insert k j v [] = refl
  has-insert k j v ((i, w) ∷ d) =
      ground (arith, eq_iff k j, eq_iff i k, eq_iff i j, has-insert k j v d)

  pub has-remove :
      (k j : Text) (d : Dict V) → has j (remove k d) ≡ (if k == j then false else has j d)
  unfolding has remove
  has-remove k j [] = ground arith
  has-remove k j ((i, w) ∷ d) = ground (arith, eq_iff k j, eq_iff i k, eq_iff i j, has-remove k j d)

  pub has-lookup : (k : Text) (d : Dict V) (v : V) → lookup k d ≡ some v → has k d ≡ true
  unfolding has lookup
  has-lookup k [] v h = cc
  has-lookup k ((i, w) ∷ d) v h = ground (arith, has-lookup k d v)

  pub lookup-has_not : (k : Text) (d : Dict V) → has k d ≡ false → lookup k d ≡ none
  unfolding has lookup
  lookup-has_not k [] h = refl
  lookup-has_not k ((i, w) ∷ d) h = ground (arith, lookup-has_not k d)

pub ruleset dict_laws = (lookup-insert, lookup-remove, has-insert, has-remove)
