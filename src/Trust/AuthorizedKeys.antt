-- ===== src/Trust/AuthorizedKeys.antt =====
-- app/trust/authorized_keys.py: the lines of this service in the `authorized_keys` file of an account
-- that others write to as well. The disk is the file, its directory and the temporary file a write
-- goes through; a fault is the system call of a write that fails.
pub mod Comments
pub mod Reading
pub mod Installs
pub mod Removals
use seapath_webui.Common.{
  ℕ, Text, Bool, true, false, not, ◌&&◌, ◌||◌, ◌==◌, starts_with, Option, none, some, List, [], ◌∷◌,
  ◌++◌, length, filter, last, is_empty, any, codes, ltb, if◌then◌else◌, strip, ◌>>=◌,
}
use seapath_webui.Common.Lines.{splitlines, fields, join, texts_eq, newline, blank}

-- Every line this service owns ends with a comment starting with this prefix.
abbrev pub comment_prefix : Text
comment_prefix = codes "seapath-webui:"

abbrev hash_sign : Text
hash_sign = codes "#"

pub record AuthorizedKey : Type 0 where
  pub comment : Text
  pub public_key : Text
  pub from_addresses : List Text
  pub allow_pty : Bool

abbrev from_option : List Text → List Text
from_option [] = []
from_option (a ∷ addresses) =
    (codes "from=\"" ++ (join (codes ",") (a ∷ addresses) ++ codes "\"")) ∷ []

unfoldable pub options : AuthorizedKey → List Text
options key =
    from_option (key.from_addresses)
    ++ (codes "restrict" ∷ (if key.allow_pty then codes "pty" ∷ [] else []))

-- The line exactly as it is written to the file.
unfoldable pub render : AuthorizedKey → Text
unfolding options
render key = (join (codes ",") (options key) ++ blank ∷ key.public_key) ++ blank ∷ key.comment

abbrev owned : Option Text → Option Text
owned none = none
owned (some candidate) = if starts_with candidate comment_prefix then some candidate else none

unfoldable pub comment_in : Text → Option Text
unfolding fields starts_with
comment_in stripped =
    if is_empty stripped || starts_with stripped hash_sign
    then none
    else owned (last (fields stripped))

-- The trailing comment of a line, when it is one of ours.
unfoldable pub comment_of : Text → Option Text
unfolding comment_in strip
comment_of line = comment_in (strip line)

-- `{fields[-3]} {fields[-2]}`
abbrev blob : List Text → Option Text
blob [] = none
blob (a ∷ []) = none
blob (a ∷ b ∷ []) = none
blob (a ∷ b ∷ c ∷ []) = some (a ++ blank ∷ b)
blob (a ∷ b ∷ c ∷ d ∷ rest) = blob (b ∷ c ∷ d ∷ rest)

unfoldable pub key_blob_of : Text → Option Text
unfolding fields strip
key_blob_of line =
    let parts = fields (strip line) in if ltb (length parts) 4 then none else blob parts

abbrev pub same : Option Text → Text → Bool
same none t = false
same (some s) t = s == t

pub record Owner : Type 0 where
  pub uid : ℕ
  pub gid : ℕ

pub record File : Type 0 where
  pub content : Text
  -- The permission bits.
  pub mode : ℕ
  pub owner : Owner

-- `directory` is the owner of the `.ssh` directory, where there is one; `process` is the owner of
-- the files this process creates, and `may_give` whether it may change an owner.
-- `readable` is whether the file can be read, which holds of one this process has just written.
pub record Disk : Type 0 where
  pub target : Option File
  pub temporary : Option File
  pub directory : Option Owner
  pub readable : Bool
  pub may_give : Bool
  pub process : Owner

unfoldable pub lines_of : Option File → Option Owner → Bool → Option (List Text)
unfolding splitlines
lines_of none none readable = none
lines_of none (some owner) readable = some []
lines_of (some file) directory readable =
    if readable then some (splitlines (file.content)) else none

-- The lines of the file, or MissingAccount.
unfoldable pub read : Disk → Option (List Text)
unfolding lines_of
read disk = lines_of (disk.target) (disk.directory) (disk.readable)

-- What fails in a write: opening the temporary file, filling it, its mode and owner, or the rename.
pub data Fault : Type 0 where
  opening filling owning renaming : Fault

unfoldable pub payload : List Text → Text
payload lines = join (newline ∷ []) lines ++ (if is_empty lines then [] else newline ∷ [])

-- The system calls of `_write`, with the text that is written.
pub data Call : Type 0 where
  open_temporary own rename : Call
  fill : Text → Call

unfoldable pub calls : List Text → List Call
unfolding payload
calls lines = open_temporary ∷ fill (payload lines) ∷ own ∷ rename ∷ []

-- O_CREAT | O_TRUNC: a file that is there keeps its mode and its owner.
abbrev truncated : Owner → Option File → File
truncated process none = record { content = []; mode = 384; owner = process }
truncated process (some file) = record file { content = [] }

abbrev filled : Text → Option File → Option File
filled content none = none
filled content (some file) = some (record file { content = content })

-- `_restore_owner`: a process that may not give a file away leaves its owner.
abbrev restored : Bool → ℕ → Owner → Option File → Option File
restored may_give mode owner none = none
restored may_give mode owner (some file) =
    some (record file { mode = mode; owner = if may_give then owner else file.owner })

-- The mode and the owner of the file that is replaced, or those of a first one.
abbrev like : Bool → Option File → Option Owner → Option File → Option File
like may_give (some original) directory temporary =
    restored may_give original.mode original.owner temporary
like may_give none (some owner) temporary = restored may_give 384 owner temporary
like may_give none none temporary = temporary

abbrev moved : Option File → Disk → Disk
moved none disk = disk
moved (some file) disk = record disk { target = some file; temporary = none; readable = true }

-- What a system call that succeeds makes of the disk.
unfoldable pub perform : Call → Disk → Disk
perform open_temporary disk = record disk {
  temporary = some (truncated disk.process disk.temporary);
}
perform (fill content) disk = record disk { temporary = filled content disk.temporary }
perform own disk = record disk {
  temporary = like disk.may_give disk.target disk.directory disk.temporary;
}
perform rename disk = moved disk.temporary disk

-- What a process that dies after some of the calls leaves.
unfoldable pub performed : List Call → Disk → Disk
unfolding perform
performed [] disk = disk
performed (call ∷ rest) disk = performed rest (perform call disk)

abbrev fails : Option Fault → Call → Bool
fails none call = false
fails (some Fault.opening) open_temporary = true
fails (some Fault.filling) (fill content) = true
fails (some Fault.owning) own = true
fails (some Fault.renaming) rename = true
fails fault call = false

-- The disk after the calls in order, up to the one that fails, and whether none did.
unfoldable pub attempt : Option Fault → List Call → Disk → Disk × Bool
unfolding perform
attempt fault [] disk = (disk, true)
attempt fault (call ∷ rest) disk =
    let (after, done) = attempt fault rest (perform call disk) in
    if fails fault call then (disk, false) else (after, done)

-- The `except` of `_write`: the temporary file goes.
abbrev tidied : Disk × Bool → Disk × Bool
tidied (disk, true) = (disk, true)
tidied (disk, false) = (record disk { temporary = none }, false)

-- The opening is outside the `try`.
abbrev opened : Disk → Disk × Bool → List Call → Option Fault → Disk × Bool
opened before (disk, false) rest fault = (before, false)
opened before (disk, true) rest fault = tidied (attempt fault rest disk)

-- The disk after `_write`, and whether it returned: any other end is the OSError it raises.
unfoldable pub write : Option Fault → Disk → List Text → Disk × Bool
unfolding calls attempt
write fault disk lines =
    opened disk (attempt fault (open_temporary ∷ []) disk)
      (fill (payload lines) ∷ own ∷ rename ∷ []) fault

pub data Outcome : Type 0 where
  missing_account : Outcome
  write_failed : Outcome
  changed : Bool → Outcome

abbrev written : Disk × Bool → Disk × Outcome
written (disk, true) = (disk, changed true)
written (disk, false) = (disk, write_failed)

unfoldable pub spared : AuthorizedKey → Text → Option Text → Bool
unfolding key_blob_of
spared key line none = true
spared key line (some comment) =
    if comment == key.comment then false else not (same (key_blob_of line) (key.public_key))

-- A line that an installation leaves: not ours, or one of ours for another relation and another key.
unfoldable pub spares : AuthorizedKey → Text → Bool
unfolding comment_of spared
spares key line = spared key line (comment_of line)

unfoldable pub with_key : AuthorizedKey → List Text → List Text
unfolding render spares filter
with_key key lines = filter (spares key) lines ++ render key ∷ []

abbrev pub replaced : Option Fault → Disk → List Text → List Text → Disk × Outcome
replaced fault disk new old =
    if texts_eq new old then (disk, changed false) else written (write fault disk new)

unfoldable pub install_in :
    Option Fault → AuthorizedKey → Disk → Option (List Text) → Disk × Outcome
unfolding with_key texts_eq write
install_in fault key disk none = (disk, missing_account)
install_in fault key disk (some lines) = replaced fault disk (with_key key lines) lines

unfoldable pub install : Option Fault → AuthorizedKey → Disk → Disk × Outcome
unfolding read install_in
install fault key disk = install_in fault key disk (read disk)

unfoldable pub without : Text → List Text → List Text
unfolding filter comment_of
without comment lines = filter (λ line. not (same (comment_of line) comment)) lines

unfoldable pub remove_in : Option Fault → Text → Disk → Option (List Text) → Disk × Outcome
unfolding without texts_eq write
remove_in fault comment disk none = (disk, missing_account)
remove_in fault comment disk (some lines) = replaced fault disk (without comment lines) lines

unfoldable pub remove : Option Fault → Text → Disk → Disk × Outcome
unfolding read remove_in
remove fault comment disk = remove_in fault comment disk (read disk)

abbrev pub listed : Option Text → List Text → List Text
listed none rest = rest
listed (some comment) rest =
    if not (is_empty comment) && starts_with comment comment_prefix then comment ∷ rest else rest

unfoldable pub comments : List Text → List Text
unfolding comment_of starts_with
comments [] = []
comments (line ∷ lines) = listed (comment_of line) (comments lines)

-- The comments of the lines this service owns, in file order, or MissingAccount.
unfoldable pub installed : Disk → Option (List Text)
unfolding read comments
installed disk = read disk >>= λ lines. some (comments lines)
