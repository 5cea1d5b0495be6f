-- ===== src/Inventory/Groups/Depths.antt =====
-- app/inventory/resolve.py: how deep a group sits, and the variables that a host gets of its groups.
use seapath_webui.Common.{
  ℕ, zero, suc, ◌+◌, ltb, leb, nat_eq, max, Text, ◌==◌, text_le, length, Bool, true, false, not,
  ◌&&◌, ◌||◌, Option, none, some, List, [], ◌∷◌, ◌++◌, map, filter, if◌then◌else◌,
}
use seapath_webui.Common.Dict.{Dict, lookup, has, insert}
use seapath_webui.Common.Names.{mem, sorted}
use seapath_webui.Inventory.Resolve.{root, members}
use seapath_webui.Inventory.Groups.{
  Groups, GroupBody, Variables, Yaml, Pairs, update, outline, groups,
}

-- The depths, and whether the pass so far changed one.
pub record Relaxed : Type 0 where
  pub depths : Dict ℕ
  pub changed : Bool

abbrev number : Option ℕ → ℕ
number none = 0
number (some n) = n

abbrev pub depth_at : Text → Dict ℕ → ℕ
depth_at name depths = number (lookup name depths)

unfoldable pub relax_child : Text → Text → Relaxed → Relaxed
unfolding insert lookup has
relax_child parent child state =
    if has child (state.depths)
      && leb (depth_at child (state.depths)) (depth_at parent (state.depths))
    then record {
      depths = insert child (depth_at parent (state.depths) + 1) (state.depths);
      changed = true;
    }
    else state

unfoldable pub relax_children : Text → List Text → Relaxed → Relaxed
unfolding relax_child
relax_children parent [] state = state
relax_children parent (child ∷ rest) state =
    relax_children parent rest (relax_child parent child state)

unfoldable pub relax_pass : Groups → Relaxed → Relaxed
unfolding relax_children
relax_pass [] state = state
relax_pass ((name, group) ∷ rest) state =
    relax_pass rest (relax_children name (group.children) state)

unfoldable pub relax : ℕ → Groups → Dict ℕ → Dict ℕ
unfolding relax_pass
relax zero table depths = depths
relax (suc rounds) table depths =
    let state = relax_pass table (record { depths = depths; changed = false }) in
    let again = relax rounds table (state.depths) in if state.changed then again else state.depths

unfoldable pub start_depths : Groups → Dict ℕ
start_depths [] = []
start_depths ((name, group) ∷ rest) = (name, if name == root then 0 else 1) ∷ start_depths rest

unfoldable pub parented : Groups → List Text
parented [] = []
parented ((name, group) ∷ rest) = group.children ++ parented rest

unfoldable pub at_least_one : List Text → Dict ℕ → Dict ℕ
unfolding mem
at_least_one adopted [] = []
at_least_one adopted ((name, depth) ∷ rest) =
    (name, if not (name == root) && not (mem name adopted) then max depth 1 else depth)
    ∷ at_least_one adopted rest

-- Distance from `all`, taking the longest path when there are several.
unfoldable pub depths : Groups → Dict ℕ
unfolding relax start_depths parented at_least_one
depths table = at_least_one (parented table) (relax (length table) table (start_depths table))

abbrev pub Named : Type 0
Named = Text × GroupBody

-- Shallower, or as deep with a name that does not come after.
unfoldable pub rank_le : Dict ℕ → Named → Named → Bool
unfolding lookup text_le
rank_le ordering (a, g) (b, h) =
    ltb (depth_at a ordering) (depth_at b ordering)
    || nat_eq (depth_at a ordering) (depth_at b ordering) && text_le a b

unfoldable pub insert_ranked : Dict ℕ → Named → List Named → List Named
unfolding rank_le
insert_ranked ordering x [] = x ∷ []
insert_ranked ordering x (y ∷ rest) =
    let later = insert_ranked ordering x rest in
    if rank_le ordering x y then x ∷ y ∷ rest else y ∷ later

unfoldable pub ranked : Dict ℕ → List Named → List Named
unfolding insert_ranked
ranked ordering [] = []
ranked ordering (x ∷ rest) = insert_ranked ordering x (ranked ordering rest)

-- The groups that hold a host.
unfoldable pub holding : Groups → Text → List Named
unfolding filter mem outline members
holding table host = filter (λ g. mem host (members (outline table) (g.0))) table

-- The groups that hold a host, from the shallowest to the deepest.
unfoldable pub containing : Groups → Text → List Named
unfolding ranked holding depths
containing table host = ranked (depths table) (holding table host)

unfoldable pub update_all : Variables → List Variables → Variables
unfolding update
update_all held [] = held
update_all held (variables ∷ rest) = update_all (update held variables) rest

abbrev or_none : Option Variables → Variables
or_none none = []
or_none (some variables) = variables

abbrev pub group_part : Named → Variables
group_part g = g.1.variables

abbrev pub host_part : Text → Named → Variables
host_part host g = or_none (lookup host (g.1.hosts))

unfoldable pub variables_of : Text → List Named → Variables
unfolding update_all lookup
variables_of host held =
    update_all (update_all [] (map group_part held)) (map (host_part host) held)

unfoldable pub resolved : Groups → List Text → Dict Variables
unfolding containing variables_of
resolved table [] = []
resolved table (host ∷ rest) =
    (host, variables_of host (containing table host)) ∷ resolved table rest

-- The effective variables of every host, in Ansible's own order.
unfoldable pub resolve : (Yaml → Text) → Pairs → Dict Variables
unfolding groups resolved sorted members outline
resolve shown document =
    let table = groups shown document in resolved table (sorted (members (outline table) root))
