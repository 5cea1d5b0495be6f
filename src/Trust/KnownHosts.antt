-- ===== src/Trust/KnownHosts.antt =====
-- app/trust/known_hosts.py: the host keys that a node knows. The state is the content of two files, the
-- one that ssh reads and the record of the keys that an operator accepted, each `none` where it is not
-- there; that one is there and cannot be read, or a write that fails, is left aside. A key is
-- `<type> <blob>`; the machine's own key files are the list of their contents.
pub mod Local
pub mod Record
pub mod Held
pub mod Refines
pub mod Live
use seapath_webui.Common.{
  Text, Bool, true, false, not, ◌&&◌, ◌||◌, ◌==◌, starts_with, Option, none, some, List, [], ◌∷◌,
  ◌++◌, map, filter, is_empty, codes, if◌then◌else◌, strip, partition,
}
use seapath_webui.Common.Dict.{Dict, lookup, has, insert, remove, keys}
use seapath_webui.Common.Names.{mem, sorted}
use seapath_webui.Common.Lines.{splitlines, unlines, fields, blank}

pub record KnownHosts : Type 0 where
  pub live : Option Text
  pub accepted : Option Text

abbrev pub hash_sign : Text
hash_sign = codes "#"

abbrev pub text_of : Option Text → Text
text_of none = []
text_of (some content) = content

-- "<type> <blob>" of the first two words
abbrev host_key : List Text → List Text
host_key [] = []
host_key (kind ∷ []) = []
host_key (kind ∷ body ∷ rest) = (kind ++ blank ∷ body) ∷ []

-- The machine's public host keys, without a comment.
unfoldable pub read_local_host_keys : List (Option Text) → List Text
unfolding strip fields
read_local_host_keys [] = []
read_local_host_keys (none ∷ files) = read_local_host_keys files
read_local_host_keys (some content ∷ files) =
    host_key (fields (strip content)) ++ read_local_host_keys files

-- entries.get(name, [])
abbrev or_empty : Option (List Text) → List Text
or_empty none = []
or_empty (some host_keys) = host_keys

abbrev pub keys_at : Text → Dict (List Text) → List Text
keys_at name entries = or_empty (lookup name entries)

abbrev pub entry : Text → Text → Text
entry name key = name ++ blank ∷ key

unfoldable pub lines_of : List Text → Dict (List Text) → List Text
unfolding sorted lookup
lines_of [] entries = []
lines_of (name ∷ names) entries =
    map (entry name) (sorted (keys_at name entries)) ++ lines_of names entries

unfoldable pub header : List Text
header =
    codes "# Generated by seapath-webui from the host's own public host keys."
    ∷ codes "# Read from the filesystem, never from the network."
    ∷ []

-- `known_hosts` content: one line per name and per key, sorted.
unfoldable pub render : Dict (List Text) → Text
unfolding header lines_of sorted keys unlines
render entries = unlines (header ++ lines_of (sorted (keys entries)) entries)

abbrev pub three : List Text → Option (Text × Text)
three [] = none
three (name ∷ []) = none
three (name ∷ kind ∷ []) = none
three (name ∷ kind ∷ body ∷ rest) = some (name, kind ++ blank ∷ body)

-- The address and the key of a line of the record.
unfoldable pub peer_of : Text → Option (Text × Text)
unfolding fields starts_with
peer_of line = if starts_with line hash_sign then none else three (fields line)

unfoldable pub add_peer : Option (Text × Text) → Dict (List Text) → Dict (List Text)
unfolding insert lookup
add_peer none entries = entries
add_peer (some (name, key)) entries = insert name (keys_at name entries ++ key ∷ []) entries

unfoldable pub read_lines : List Text → Dict (List Text) → Dict (List Text)
unfolding peer_of add_peer
read_lines [] entries = entries
read_lines (line ∷ lines) entries = read_lines lines (add_peer (peer_of line) entries)

-- The peer host keys an operator has accepted, by address.
unfoldable pub read_peers : KnownHosts → Dict (List Text)
unfolding read_lines splitlines
read_peers hosts = read_lines (splitlines (text_of (hosts.accepted))) []

unfoldable pub accept_key : Text → Text → Dict (List Text) → Dict (List Text)
unfolding insert lookup mem
accept_key address key known =
    let old = keys_at address known in
    if mem key old then known else insert address (old ++ key ∷ []) known

unfoldable pub accept_keys : Text → List Text → Dict (List Text) → Dict (List Text)
unfolding accept_key
accept_keys address [] known = known
accept_keys address (key ∷ host_keys) known =
    accept_keys address host_keys (accept_key address key known)

unfoldable pub accept_entries : Dict (List Text) → Dict (List Text) → Dict (List Text)
unfolding accept_keys
accept_entries [] known = known
accept_entries ((address, host_keys) ∷ entries) known =
    accept_entries entries (accept_keys address host_keys known)

unfoldable pub add_missing : List Text → List Text → List Text
unfolding mem
add_missing [] lines = lines
add_missing (line ∷ more) lines =
    add_missing more (if mem line lines then lines else lines ++ line ∷ [])

-- The lines of the file ssh reads, with the peers' added.
unfoldable pub merged : Text → Dict (List Text) → List Text
unfolding add_missing lines_of sorted keys splitlines strip filter
merged existing peers =
    add_missing (lines_of (sorted (keys peers)) peers)
      (filter (λ line. not (is_empty (strip line))) (splitlines existing))

unfoldable pub merge_into_live : Dict (List Text) → KnownHosts → KnownHosts
unfolding merged unlines
merge_into_live peers hosts = record hosts {
  live = some (unlines (merged (text_of (hosts.live)) peers));
}

unfoldable pub accept_peers : Dict (List Text) → KnownHosts → KnownHosts
unfolding accept_entries read_peers render merge_into_live
accept_peers entries hosts =
    let known = accept_entries entries (read_peers hosts) in
    merge_into_live known (record hosts { accepted = some (render known) })

-- A line whose first word is the address.
abbrev first_is : Text → List Text → Bool
first_is address [] = false
first_is address (name ∷ rest) = name == address

unfoldable pub stays : Text → Text → Bool
unfolding fields starts_with
stays address line = not (first_is address (fields line)) || starts_with line hash_sign

unfoldable pub drop_in : Text → Option Text → Option Text
unfolding stays filter splitlines unlines
drop_in address none = none
drop_in address (some content) = some (unlines (filter (stays address) (splitlines content)))

unfoldable pub drop_from_live : Text → KnownHosts → KnownHosts
unfolding drop_in
drop_from_live address hosts = record hosts { live = drop_in address (hosts.live) }

unfoldable pub forgotten : Text → KnownHosts → KnownHosts
unfolding read_peers remove render drop_from_live
forgotten address hosts =
    drop_from_live address
      (record hosts { accepted = some (render (remove address (read_peers hosts))) })

-- Whether the address was known.
unfoldable pub forget_peer : Text → KnownHosts → KnownHosts × Bool
unfolding read_peers has forgotten
forget_peer address hosts =
    if has address (read_peers hosts) then (forgotten address hosts, true) else (hosts, false)

-- Both drop the address's lines from the file ssh reads.
unfoldable pub forget_address : Text → KnownHosts → KnownHosts
unfolding forget_peer drop_from_live
forget_address address hosts =
    let (after, was_known) = forget_peer address hosts in
    if was_known then after else drop_from_live address hosts
