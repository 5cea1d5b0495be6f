-- ===== src/Hosts/Cpus.antt =====
-- app/hosts/local.py: lists of CPUs in the kernel's notation. `none` is the OverflowError or MemoryError
-- of a range longer than any list can be. The memory is taken to suffice for the others.
use seapath_webui.Common.{
  ℕ, zero, suc, ◌+◌, ◌-◌, Text, is_empty, strip, partition, ltb, nat_eq, Option, none, some, List,
  [], ◌∷◌, ◌++◌, if◌then◌else◌,
}
use seapath_webui.Common.Int.{ℤ, pos, negsuc}
use seapath_webui.Common.Numerals.{int_of_text}

abbrev pub comma : ℕ
comma = 44

abbrev pub dash : ℕ
dash = 45

abbrev cons_first : ℕ → List Text → List Text
cons_first x [] = (x ∷ []) ∷ []
cons_first x (t ∷ ts) = (x ∷ t) ∷ ts

-- s.split(c) for one character
unfoldable pub split : ℕ → Text → List Text
split c [] = [] ∷ []
split c (x ∷ s) = let rest = split c s in if nat_eq x c then [] ∷ rest else cons_first x rest

-- `count` numbers from `first` on
unfoldable pub count_up : ℕ → ℕ → List ℕ
count_up zero first = []
count_up (suc count) first = first ∷ count_up count (suc first)

-- What `int` gives of a text without a dash is not negative.
unfoldable pub one_cpu : Option ℤ → List ℕ
one_cpu none = []
one_cpu (some (pos n)) = n ∷ []
one_cpu (some (negsuc n)) = []

-- The most that a list can hold, of 8 bytes each: `sys.maxsize // 8`.
abbrev pub most_listed : ℕ
most_listed = 1152921504606846975

-- cpus.extend(range(start, end + 1)), where both are numbers
unfoldable pub range_of : Option ℤ → Option ℤ → Option (List ℕ)
unfolding count_up
range_of (some (pos start)) (some (pos end)) =
    if ltb most_listed (end + 1 - start) then none else some (count_up (end + 1 - start) start)
range_of start end = some []

unfoldable pub cpus_between : Text → Option (Text × Text) → Option (List ℕ)
unfolding one_cpu range_of
cpus_between chunk none = some (one_cpu (int_of_text chunk))
cpus_between chunk (some (start, end)) = range_of (int_of_text start) (int_of_text end)

-- What the loop takes from one chunk.
unfoldable pub cpus_of : Text → Option (List ℕ)
unfolding cpus_between
cpus_of chunk =
    if is_empty (strip chunk)
    then some []
    else cpus_between (strip chunk) (partition dash (strip chunk))

abbrev pub both_listed : Option (List ℕ) → Option (List ℕ) → Option (List ℕ)
both_listed none rest = none
both_listed (some cpus) none = none
both_listed (some cpus) (some rest) = some (cpus ++ rest)

unfoldable pub gathered : List Text → Option (List ℕ)
gathered [] = some []
gathered (chunk ∷ chunks) = both_listed (cpus_of chunk) (gathered chunks)

unfoldable pub insert_cpu : ℕ → List ℕ → List ℕ
insert_cpu n [] = n ∷ []
insert_cpu n (m ∷ cpus) =
    let rest = insert_cpu n cpus in
    if ltb n m then n ∷ m ∷ cpus else if nat_eq n m then m ∷ cpus else m ∷ rest

-- sorted(set(cpus))
unfoldable pub sorted_cpus : List ℕ → List ℕ
unfolding insert_cpu
sorted_cpus [] = []
sorted_cpus (n ∷ cpus) = insert_cpu n (sorted_cpus cpus)

abbrev pub set_sorted : Option (List ℕ) → Option (List ℕ)
set_sorted none = none
set_sorted (some cpus) = some (sorted_cpus cpus)

unfoldable pub parse_cpu_list : Option Text → Option (List ℕ)
unfolding gathered split sorted_cpus
parse_cpu_list none = some []
parse_cpu_list (some raw) =
    if is_empty raw then some [] else set_sorted (gathered (split comma raw))
