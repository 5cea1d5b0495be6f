-- ===== src/Inventory/Repository.antt =====
-- app/inventory/repository.py: the commit that a repository is at, as its files say it, what a machine
-- answers of the repository it serves, and the git commands of a replication. What git answers is an
-- argument.
pub mod Answers
use seapath_webui.Common.{
  ℕ, Text, codes, ◌==◌, length, leb, nat_eq, all, drop, is_empty, starts_with, strip, partition,
  Bool, true, false, not, ◌&&◌, ◌||◌, Option, none, some, List, [], ◌∷◌, ◌++◌, if◌then◌else◌,
}
use seapath_webui.Common.Int.{ℤ, is_zero}
use seapath_webui.Common.Lines.{splitlines}

abbrev pub default_ref : Text
default_ref = codes "refs/heads/main"

-- How a git command ended; `failure` is what the program says of an exit without a word.
pub data Completed : Type 0 where
  exited : (code : ℤ) → (out : Text) → (error : Text) → Completed
  timed_out : Completed

-- The output, or the message of the RepositoryError.
pub data Answer {ℓ} (A : Type ℓ) : Type ℓ where
  answered : A → Answer A
  failed : Text → Answer A

abbrev or_text : Text → Text → Text
or_text [] other = other
or_text (c ∷ s) other = c ∷ s

-- `_run`: what git said, or what the program says in its place.
unfoldable pub run : Text → Text → Completed → Answer Text
unfolding is_zero strip
run silence timeout timed_out = failed timeout
run silence timeout (exited code out error) =
    if is_zero code then answered out else failed (or_text (strip (or_text error out)) silence)

is_hex : ℕ → Bool
is_hex c = (leb 48 c && leb c 57) || (leb 97 c && leb c 102)

-- Whether this is a commit hash.
unfoldable pub is_hash : Text → Bool
unfolding is_hex all
is_hash value = (nat_eq (length value) 40 || nat_eq (length value) 64) && all is_hex value

abbrev after_blank : Option (Text × Text) → Text × Text
after_blank none = ([], [])
after_blank (some pair) = pair

unfoldable pub packed_in : Text → List Text → Option Text
unfolding partition strip is_hash starts_with ◌==◌
packed_in ref [] = none
packed_in ref (line ∷ lines) =
    let rest = packed_in ref lines in
    let (hash, name) = after_blank (partition 32 line) in
    if starts_with line (codes "#") || starts_with line (codes "^")
    then rest
    else if strip name == ref && is_hash hash
    then some hash
    else rest

unfoldable pub packed : Option Text → Text → Option Text
unfolding packed_in splitlines
packed none ref = none
packed (some content) ref = packed_in ref (splitlines content)

-- What `.git` holds: HEAD, the branches' own files, `packed-refs`.
pub record GitFiles : Type 0 where
  pub head_file : Option Text
  pub loose : Text → Option Text
  pub packed_refs : Option Text

abbrev stripped : Option Text → Text
stripped none = []
stripped (some content) = strip content

unfoldable pub head_of_ref : GitFiles → Text → Option Text
unfolding packed is_hash strip
head_of_ref files ref =
    let held = stripped (files.loose ref) in
    if is_hash held then some held else packed (files.packed_refs) ref

unfoldable pub head_in : GitFiles → Text → Option Text
unfolding head_of_ref is_hash strip starts_with
head_in files head =
    if is_hash head
    then some head
    else if not (starts_with head (codes "ref: "))
    then none
    else head_of_ref files (strip (drop 5 head))

-- The hash that `.git` holds, or none when this cannot be worked out.
unfoldable pub head_from_files : GitFiles → Option Text
unfolding head_in strip
head_from_files files = elim (files.head_file) [
  | none ↦ none
  | some content ↦ head_in files (strip content)
]

abbrev parsed : Answer Text → Option Text
parsed (answered out) = some (strip out)
parsed (failed message) = none

abbrev or_else : Option Text → Option Text → Option Text
or_else none other = other
or_else (some commit) other = some commit

-- The current commit: `rev_parse` is what git says where the files do not.
unfoldable pub head : GitFiles → Answer Text → Option Text
unfolding head_from_files strip
head files rev_parse = or_else (head_from_files files) (parsed rev_parse)

-- What one machine answers about the repository it serves.
pub record RemoteState : Type 0 where
  pub branch : Option Text
  pub commit : Option Text

abbrev head_line : Option (Text × Text) → RemoteState → RemoteState
head_line none state = state
head_line (some (value, name)) state =
    if not (strip name == codes "HEAD")
    then state
    else if starts_with value (codes "ref: ")
    then record state { branch = some (strip (drop 5 value)) }
    else record state { commit = some (strip value) }

unfoldable pub remote_lines : List Text → RemoteState → RemoteState
unfolding partition strip starts_with ◌==◌
remote_lines [] state = state
remote_lines (line ∷ lines) state = remote_lines lines (head_line (partition 9 line) state)

unfoldable pub parse_remote_state : Text → RemoteState
unfolding remote_lines splitlines
parse_remote_state output =
    remote_lines (splitlines output) (record { branch = none; commit = none })

abbrev option_of : Text → Option Text → List Text
option_of flag none = []
option_of flag (some value) = (flag ++ value) ∷ []

unfoldable pub remote_state_argv : Text → Option Text → List Text
remote_state_argv url upload_pack =
    (codes "git" ∷ codes "ls-remote" ∷ codes "--symref" ∷ [])
    ++ (option_of (codes "--upload-pack=") upload_pack ++ (url ∷ codes "HEAD" ∷ []))

unfoldable pub push_argv : Text → Option Text → Text → Bool → List Text
push_argv url receive_pack target force =
    (codes "git" ∷ codes "push" ∷ [])
    ++ ((if force then codes "--force" ∷ codes "--push-option=seapath-webui:force" ∷ [] else [])
        ++ (option_of (codes "--receive-pack=") receive_pack
            ++ (url ∷ (codes "HEAD:" ++ target) ∷ [])))
