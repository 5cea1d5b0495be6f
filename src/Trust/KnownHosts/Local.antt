-- ===== src/Trust/KnownHosts/Local.antt =====
-- app/trust/known_hosts.py: the machine's own host keys in the file ssh reads, and the names the file
-- holds a key for.
use seapath_webui.Common.{
  ℕ, Text, Bool, true, false, not, ◌==◌, starts_with, Option, none, some, List, [], ◌∷◌, ◌++◌,
  filter, is_empty, codes, nat_eq, if◌then◌else◌, ◌||◌, ◌&&◌,
}
use seapath_webui.Common.Dict.{Dict, insert, lookup}
use seapath_webui.Common.Names.{mem, to_set}
use seapath_webui.Common.Lines.{splitlines, fields}
use seapath_webui.Hosts.Cpus.{split}
use seapath_webui.Trust.KnownHosts.{
  KnownHosts, keys_at, entry, text_of, read_local_host_keys, render, read_peers, merge_into_live,
  hash_sign,
}

-- {name: list(keys) for name in names if name}
unfoldable pub local_entries : List Text → List Text → Dict (List Text)
unfolding insert
local_entries host_keys names = from names []
  where
    from : List Text → Dict (List Text) → Dict (List Text)
    from [] entries = entries
    from (name ∷ names) entries =
        from names (if is_empty name then entries else insert name host_keys entries)

unfoldable pub extend_entries : Dict (List Text) → Dict (List Text) → Dict (List Text)
unfolding insert lookup
extend_entries [] entries = entries
extend_entries ((address, peer_keys) ∷ peers) entries =
    extend_entries peers (insert address (keys_at address entries ++ peer_keys) entries)

abbrev pub is_content : Text → Option Text → Bool
is_content content none = false
is_content content (some held) = held == content

abbrev pub rewritten : Text → KnownHosts → KnownHosts × Bool
rewritten content hosts =
    if is_content content (hosts.live)
    then (hosts, false)
    else (record hosts { live = some content }, true)

-- Whether the file changed. `own` is the contents of the machine's key files.
unfoldable pub ensure_local : List (Option Text) → List Text → KnownHosts → KnownHosts × Bool
unfolding read_local_host_keys local_entries extend_entries read_peers render
ensure_local own names hosts =
    let host_keys = read_local_host_keys own in
    if is_empty host_keys
    then (hosts, false)
    else rewritten (render (extend_entries (read_peers hosts) (local_entries host_keys names)))
        hosts

unfoldable pub pending : List Text → Text → List Text → List Text
unfolding filter mem
pending host_keys name existing = filter (λ key. not (mem (entry name key) existing)) host_keys

unfoldable pub missing_from :
    List Text → List Text → List Text → Dict (List Text) → Dict (List Text)
unfolding pending insert
missing_from host_keys existing [] missing = missing
missing_from host_keys existing (name ∷ names) missing = missing_from host_keys existing names (
    let absent = pending host_keys name existing in
    if is_empty name || is_empty absent then missing else insert name absent missing)

-- Add this machine's host keys under names the file does not hold yet.
unfoldable pub add_local : List (Option Text) → List Text → KnownHosts → KnownHosts × Bool
unfolding read_local_host_keys splitlines missing_from merge_into_live
add_local own names hosts =
    let host_keys = read_local_host_keys own in
    let missing = missing_from host_keys (splitlines (text_of (hosts.live))) names [] in
    if is_empty host_keys || is_empty missing
    then (hosts, false)
    else (merge_into_live missing hosts, true)

abbrev cons_host : ℕ → Option (Text × Text) → Option (Text × Text)
cons_host c none = none
cons_host c (some (host, port)) = some (c ∷ host, port)

-- s.partition("]:"), `none` where the separator is absent
unfoldable pub bracket_port : Text → Option (Text × Text)
bracket_port [] = none
bracket_port (c ∷ []) = none
bracket_port (c ∷ d ∷ s) =
    let rest = cons_host c (bracket_port (d ∷ s)) in
    if nat_eq c 93 && nat_eq d 58 then some ([], s) else rest

abbrev on_port : Option (Text × Text) → List Text
on_port none = []
on_port (some (host, port)) = if port == codes "22" then host ∷ [] else []

-- A name on another port than 22 is left out.
unfoldable pub plain_name : Text → List Text
unfolding bracket_port
plain_name [] = [] ∷ []
plain_name (c ∷ name) =
    let found = on_port (bracket_port name) in if nat_eq c 91 then found else (c ∷ name) ∷ []

unfoldable pub plain_names : List Text → List Text
unfolding plain_name
plain_names [] = []
plain_names (name ∷ names) = plain_name name ++ plain_names names

abbrev unmarked : List Text → List Text
unmarked [] = []
unmarked (part ∷ parts) = if starts_with part (codes "@") then parts else part ∷ parts

abbrev names_in : List Text → List Text
names_in [] = []
names_in (part ∷ []) = []
names_in (part ∷ kind ∷ []) = []
names_in (part ∷ kind ∷ body ∷ rest) =
    if starts_with part hash_sign || starts_with part (codes "|")
    then []
    else plain_names (split 44 part)

unfoldable pub names_of_lines : List Text → List Text
unfolding plain_names split fields starts_with
names_of_lines [] = []
names_of_lines (line ∷ lines) = names_in (unmarked (fields line)) ++ names_of_lines lines

-- Every name and address the file ssh reads holds a key for.
unfoldable pub recorded_names : KnownHosts → List Text
unfolding names_of_lines splitlines to_set
recorded_names hosts = to_set (names_of_lines (splitlines (text_of (hosts.live))))
