-- ===== src/Trust/AuthorizedKeys/Reading.antt =====
-- What is read of an `authorized_keys` file after a write of lines.
use seapath_webui.Common.{
  Text, Bool, true, false, Option, none, some, List, All, ◌≡◌, refl, ap, sym, subst, ◌∙◌,
  Bool-cases, inl, inr,
}
use seapath_webui.Common.Lines.{
  unlines, join-unlines, splitlines-unlines, splitlines-IsLine, texts_eq, texts_eq_refl,
  texts_eq_sound, IsLine,
}
use seapath_webui.Trust.AuthorizedKeys.{
  Disk, File, Owner, Fault, changed, replaced, read, lines_of, payload, attempt, perform, performed,
  calls, write,
}

-- What is read, written and read again.
payload-unlines : (lines : List Text) → payload lines ≡ unlines lines
unfolding payload
payload-unlines lines = join-unlines lines

-- A write with no fault ends with the lines in the file.
write-content :
    (disk : Disk) (lines : List Text)
    → (file : File) × ((write none disk lines).0.target ≡ some file)
      × ((write none disk lines).0.readable ≡ true)
      × (file.content ≡ payload lines)
unfolding write attempt perform
write-content disk lines = in_place disk.target disk.directory refl refl
  where
    in_place :
        (target : Option File) (directory : Option Owner)
        → disk.target ≡ target
        → disk.directory ≡ directory
        → (file : File) × ((write none disk lines).0.target ≡ some file)
          × ((write none disk lines).0.readable ≡ true)
          × (file.content ≡ payload lines)
    in_place (some original) directory e d =
        unfold write attempt perform in rw e (_, refl, refl, refl)
    in_place none (some owner) e d = unfold write attempt perform in rw (e, d) (_, refl, refl, refl)
    in_place none none e d = unfold write attempt perform in rw (e, d) (_, refl, refl, refl)

-- The same of the calls alone.
pub performed-content :
    (disk : Disk) (lines : List Text)
    → (file : File) × ((performed (calls lines) disk).target ≡ some file)
      × (file.content ≡ payload lines)
unfolding write attempt performed calls
performed-content disk lines =
    let (file, here, _, content) = write-content disk lines in (file, here, content)

read-write :
    (disk : Disk) (lines : List Text)
    → All IsLine lines
    → read ((write none disk lines).0) ≡ some lines
unfolding read
read-write disk lines h =
    let (file, here, readable, content) = write-content disk lines in
    rw (here, readable)
      (unfold lines_of in rw (content, payload-unlines lines, splitlines-unlines lines h) refl)

injective : {a b : List Text} → some a ≡ some b → a ≡ b
injective h = cc

lines_of-IsLine :
    (target : Option File) (directory : Option Owner) (readable : Bool) (lines : List Text)
    → lines_of target directory readable ≡ some lines
    → All IsLine lines
unfolding lines_of
lines_of-IsLine none none readable lines h = cc
lines_of-IsLine none (some owner) readable lines h = subst (All IsLine) (injective h) tt
lines_of-IsLine (some file) directory true lines h =
    subst (All IsLine) (injective h) (splitlines-IsLine (file.content))
lines_of-IsLine (some file) directory false lines h = cc

pub read-IsLine : (disk : Disk) (lines : List Text) → read disk ≡ some lines → All IsLine lines
unfolding read
read-IsLine disk lines = lines_of-IsLine (disk.target) (disk.directory) (disk.readable) lines

-- What a replacement leaves is what is read afterwards.
pub read-replaced :
    (disk : Disk) (new old : List Text)
    → read disk ≡ some old
    → All IsLine new
    → read ((replaced none disk new old).0) ≡ some new
unfolding write attempt
read-replaced disk new old h line = elim (Bool-cases (texts_eq new old)) [
  | inl e ↦ rw e (h ∙ ap some (sym (texts_eq_sound new old e)))
  | inr e ↦ rw e (read-write disk new line)
]

pub replaced-same :
    (fault : Option Fault) (disk : Disk) (new old : List Text)
    → new ≡ old
    → replaced fault disk new old ≡ (disk, changed false)
replaced-same fault disk new old e = rw (e, texts_eq_refl old) refl
