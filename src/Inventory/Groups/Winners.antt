-- ===== src/Inventory/Groups/Winners.antt =====
-- Which of a host's groups gives it the value of a variable.
use seapath_webui.Common.{
  ℕ, Text, ◌==◌, text_le_total, text_le_trans, Bool, true, false, Option, none, some, List, [], ◌∷◌,
  ◌++◌, map, All, if◌then◌else◌, ◌≡◌, refl, ap, sym, subst, ◌∙◌, ◌⊎◌, Bool-cases, Option-cases, inl,
  inr, arith,
}
use seapath_webui.Common.Dict.{Dict, lookup, insert, lookup-insert}
use seapath_webui.Inventory.Groups.{Groups, Variables, Yaml, update}
use seapath_webui.Inventory.Groups.Depths.{
  Named, depths, rank_le, insert_ranked, ranked, holding, containing, update_all, group_part,
  host_part, variables_of,
}

abbrev pub or_value {ℓ} : {A : Type ℓ} → Option A → Option A → Option A
or_value none other = other
or_value (some a) other = some a

-- The last value that a dictionary's items give a name.
abbrev pub given : Text → Variables → Option Yaml
given k [] = none
given k ((j, v) ∷ d) = or_value (given k d) (if j == k then some v else none)

or_value_assoc {ℓ} :
    {A : Type ℓ} (a b c : Option A) → or_value (or_value a b) c ≡ or_value a (or_value b c)
or_value_assoc none b c = refl
or_value_assoc (some x) b c = refl

or_value-if :
    (test : Bool) (v : Yaml) (o : Option Yaml)
    → (if test then some v else o) ≡ or_value (if test then some v else none) o
or_value-if true v o = refl
or_value-if false v o = refl

lookup-update :
    (k : Text) (d e : Variables) → lookup k (update d e) ≡ or_value (given k e) (lookup k d)
unfolding update
lookup-update k d [] = refl
lookup-update k d ((j, v) ∷ e) =
    lookup-update k (insert j v d) e
    ∙ (ap (or_value (given k e)) (lookup-insert j k v d ∙ or_value-if (j == k) v (lookup k d))
        ∙ sym (or_value_assoc (given k e) (if j == k then some v else none) (lookup k d)))

-- The value that the last of the dictionaries with one gives.
abbrev pub last_given : Text → List Variables → Option Yaml
last_given k [] = none
last_given k (d ∷ ds) = or_value (last_given k ds) (given k d)

lookup-update_all :
    (k : Text) (d : Variables) (ds : List Variables)
    → lookup k (update_all d ds) ≡ or_value (last_given k ds) (lookup k d)
unfolding update_all
lookup-update_all k d [] = refl
lookup-update_all k d (e ∷ ds) =
    lookup-update_all k (update d e) ds
    ∙ (ap (or_value (last_given k ds)) (lookup-update k d e)
        ∙ sym (or_value_assoc (last_given k ds) (given k e) (lookup k d)))

or_value-none : (o : Option Yaml) → or_value o none ≡ o
or_value-none none = refl
or_value-none (some v) = refl

lookup-variables_of :
    (k host : Text) (held : List Named)
    → lookup k (variables_of host held)
      ≡ or_value (last_given k (map (host_part host) held)) (last_given k (map group_part held))
unfolding variables_of lookup
lookup-variables_of k host held =
    lookup-update_all k (update_all [] (map group_part held)) (map (host_part host) held)
    ∙ ap (or_value (last_given k (map (host_part host) held))) (
        lookup-update_all k [] (map group_part held)
        ∙ or_value-none (last_given k (map group_part held)))

-- Of the groups, one gives the value, each before it ranks no higher and none after it gives one.
abbrev pub Wins : Dict ℕ → Text → Yaml → (Named → Variables) → List Named → Type 0
Wins ordering k value part held =
    (before : List Named) × (winner : Named) × (after : List Named) × (held
      ≡ before ++ winner ∷ after)
    × (given k (part winner) ≡ some value)
    × All (λ g. rank_le ordering g winner ≡ true) before
    × All (λ g. given k (part g) ≡ none) after

rank_le_trans :
    (ordering : Dict ℕ) (x y z : Named)
    → rank_le ordering x y ≡ true
    → rank_le ordering y z ≡ true
    → rank_le ordering x z ≡ true
unfolding rank_le
rank_le_trans ordering (a, f) (b, g) (c, h) p q = ground (arith, text_le_trans a b c)

rank_le_total :
    (ordering : Dict ℕ) (x y : Named) → rank_le ordering x y ≡ false → rank_le ordering y x ≡ true
unfolding rank_le
rank_le_total ordering (a, f) (b, g) h = ground (arith, text_le_total a b)

abbrev IsRanked : Dict ℕ → List Named → Type 0
IsRanked ordering [] = Unit
IsRanked ordering (x ∷ rest) = All (λ y. rank_le ordering x y ≡ true) rest × IsRanked ordering rest

All-insert_ranked :
    (P : Named → Type 0) (ordering : Dict ℕ) (x : Named) (rest : List Named)
    → P x
    → All P rest
    → All P (insert_ranked ordering x rest)
unfolding insert_ranked
All-insert_ranked P ordering x [] h hs = (h, tt)
All-insert_ranked P ordering x (y ∷ rest) h hs = elim (Bool-cases (rank_le ordering x y)) [
  | inl e ↦ rw e (h, hs)
  | inr e ↦ rw e (hs.0, All-insert_ranked P ordering x rest h (hs.1))
]

All-trans :
    (ordering : Dict ℕ) (x y : Named) (rest : List Named)
    → rank_le ordering x y ≡ true
    → All (λ z. rank_le ordering y z ≡ true) rest
    → All (λ z. rank_le ordering x z ≡ true) rest
All-trans ordering x y [] h hs = tt
All-trans ordering x y (z ∷ rest) h hs =
    (rank_le_trans ordering x y z h (hs.0), All-trans ordering x y rest h (hs.1))

insert_ranked-IsRanked :
    (ordering : Dict ℕ) (x : Named) (rest : List Named)
    → IsRanked ordering rest
    → IsRanked ordering (insert_ranked ordering x rest)
unfolding insert_ranked
insert_ranked-IsRanked ordering x [] h = (tt, tt)
insert_ranked-IsRanked ordering x (y ∷ rest) h = elim (Bool-cases (rank_le ordering x y)) [
  | inl e ↦ rw e ((e, All-trans ordering x y rest e (h.0)), h)
  | inr e ↦ rw e (
    All-insert_ranked (λ z. rank_le ordering y z ≡ true) ordering x rest
        (rank_le_total ordering x y e) (h.0),
    insert_ranked-IsRanked ordering x rest (h.1),
  )
]

ranked-IsRanked : (ordering : Dict ℕ) (held : List Named) → IsRanked ordering (ranked ordering held)
unfolding ranked
ranked-IsRanked ordering [] = tt
ranked-IsRanked ordering (x ∷ rest) =
    insert_ranked-IsRanked ordering x (ranked ordering rest) (ranked-IsRanked ordering rest)

none-given :
    (k : Text) (part : Named → Variables) (held : List Named)
    → last_given k (map part held) ≡ none
    → All (λ g. given k (part g) ≡ none) held
none-given k part [] h = tt
none-given k part (x ∷ rest) h = elim (Option-cases (last_given k (map part rest))) [
  | inl e ↦ (rw e at h, none-given k part rest e)
  | inr (v, e) ↦ cc (rw e at h)
]

All-head :
    (ordering : Dict ℕ) (x winner : Named) (before after : List Named)
    → All (λ y. rank_le ordering x y ≡ true) (before ++ winner ∷ after)
    → rank_le ordering x winner ≡ true
All-head ordering x winner [] after h = h.0
All-head ordering x winner (y ∷ before) after h = All-head ordering x winner before after (h.1)

last_given-Wins :
    (ordering : Dict ℕ) (k : Text) (value : Yaml) (part : Named → Variables) (held : List Named)
    → IsRanked ordering held
    → last_given k (map part held) ≡ some value
    → Wins ordering k value part held
last_given-Wins ordering k value part [] ranks h = cc
last_given-Wins ordering k value part (x ∷ rest) ranks h =
    elim (Option-cases (last_given k (map part rest))) [
      | inl e ↦ ([], x, rest, refl, (rw e at h), tt, none-given k part rest e)
      | inr (v, e) ↦
          let (before, winner, after, splits, gives, lower, none_after) =
            last_given-Wins ordering k value part rest (ranks.1) (e ∙ (rw e at h)) in
          (
            x ∷ before,
            winner,
            after,
            ap (λ l. x ∷ l) splits,
            gives,
            (
              All-head ordering x winner before after
                  (subst (All (λ y. rank_le ordering x y ≡ true)) splits (ranks.0)),
              lower,
            ),
            none_after,
          )
    ]

-- The value of a variable of a host is that of a group that holds the host: of the last group, in the
-- order of depth and then of name, whose entry for the host gives the variable, or, where no entry for
-- the host does, of the last one whose own variables give it. The groups before it come no later in
-- that order, and none of those after it gives the variable in the same way.
pub variables_of-Wins :
    (table : Groups) (host k : Text) (value : Yaml)
    → lookup k (variables_of host (containing table host)) ≡ some value
    → Wins (depths table) k value (host_part host) (containing table host)
      ⊎ (All (λ g. given k (host_part host g) ≡ none) (containing table host)
          × Wins (depths table) k value group_part (containing table host))
unfolding containing
variables_of-Wins table host k value h =
    let held = containing table host in
    let ranks : IsRanked (depths table) held =
      ranked-IsRanked (depths table) (holding table host) in
    let sum = sym (lookup-variables_of k host held) ∙ h in
    elim (Option-cases (last_given k (map (host_part host) held))) [
      | inl e ↦ inr (
        none-given k (host_part host) held e,
        last_given-Wins (depths table) k value group_part held ranks (rw e at sum),
      )
      | inr (v, e) ↦
          inl
            (last_given-Wins (depths table) k value (host_part host) held ranks (e ∙ (rw e at sum)))
    ]
