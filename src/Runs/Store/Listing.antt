-- ===== src/Runs/Store/Listing.antt =====
-- What `RunStore.list` answers: the newest records that can be read.
use mathlib.Core.List.{reverse, reverse-append}
use seapath_webui.Common.{
  ℕ, zero, suc, ◌+◌, Text, ◌==◌, eq_iff, eq_refl, length, length-append_one, append_one, append_nil,
  take, true, Option, some, List, [], ◌∷◌, ◌++◌, map, ◌≡◌, ◌∙◌, ap, refl, sym, arith, Bool-cases,
  inl, inr, Option-cases,
}
use seapath_webui.Common.Dict.{Dict, keys, has}
use seapath_webui.Common.Names.{mem, mem-append, mem-sorted, sorted}
use seapath_webui.Runs.Models.{RunRecord}
use seapath_webui.Runs.Store.{Store, load, newest, list, list_names, with_record}

-- The records under some names, unreadable ones left out.
unfoldable pub readable : Store → List Text → List RunRecord
unfolding with_record
readable store [] = []
readable store (name ∷ names) = with_record [] (load name store) ++ readable store names

list_names-take :
    (n m : ℕ) (store : Store) (names : List Text) (records : List RunRecord)
    → length records + suc m ≡ n
    → list_names n store names records ≡ records ++ take (suc m) (readable store names)
unfolding list_names readable
list_names-take n m store [] records h = sym (append_nil records)
list_names-take n zero store (name ∷ names) records h = elim (Option-cases (load name store)) [
  | inl unread ↦ rw unread (ground (arith, list_names-take n zero store names records h))
  | inr (run, there) ↦ rw there (ground (arith, length-append_one records run))
]
list_names-take n (suc m) store (name ∷ names) records h = elim (Option-cases (load name store)) [
  | inl unread ↦ rw unread (ground (arith, list_names-take n (suc m) store names records h))
  | inr (run, there) ↦
      let longer = length-append_one records run in
      rw there (
        ground (
          arith,
          longer,
          list_names-take n m store names (records ++ run ∷ []) (omega (arith, longer)),
          append_one records (take (suc m) (readable store names)) run,
        ))
]

-- `list` answers the newest readable records, as many as the limit asks for, and passes over a
-- directory that holds no readable record.
pub list-take :
    (n : ℕ) (store : Store) → list (suc n) store ≡ take (suc n) (readable store (newest store))
unfolding list
list-take n store = list_names-take (suc n) n store (newest store) [] (omega arith)

-- A store whose records stand in the directory of their identifier.
abbrev pub IsNamed : Store → Type 0
IsNamed store = (k : Text) (run : RunRecord) → load k store ≡ some run → run.id ≡ k

pub mem-reverse : (a : Text) (s : List Text) → mem a (reverse s) ≡ mem a s
unfolding mem
mem-reverse a [] = refl
mem-reverse a (x ∷ s) =
    ap (mem a) (reverse-append (x ∷ []) s)
    ∙ mem-append a (reverse s) (x ∷ [])
    ∙ ground (arith, mem-reverse a s)

mem-keys : (k : Text) (d : Dict (Option RunRecord)) → mem k (keys d) ≡ has k d
unfolding mem keys has
mem-keys k [] = refl
mem-keys k ((j, v) ∷ d) = ground (arith, mem-keys k d)

pub mem-newest : (store : Store) (k : Text) → mem k (newest store) ≡ has k store.runs
unfolding newest
mem-newest store k =
    mem-reverse k (sorted (keys store.runs))
    ∙ mem-sorted k (keys store.runs)
    ∙ mem-keys k store.runs

pub mem-readable :
    (store : Store) (k : Text) (run : RunRecord) (names : List Text)
    → load k store ≡ some run
    → run.id ≡ k
    → mem k names ≡ true
    → mem k (map (λ r. r.id) (readable store names)) ≡ true
unfolding readable mem
mem-readable store k run [] here named m = cc
mem-readable store k run (name ∷ names) here named m = elim (Bool-cases (name == k)) [
  | inl same ↦ rw ((eq_iff name k).0 same) (rw (here, named) (ground (arith, eq_refl k)))
  | inr other ↦
      let later = mem-readable store k run names here named (rw other at m) in
      elim (Option-cases (load name store)) [
        | inl unread ↦ rw unread later
        | inr (first, there) ↦ rw there (ground arith)
      ]
]
