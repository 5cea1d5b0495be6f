-- ===== src/Trust/AuthorizedKeys/Removals.antt =====
-- What a removal, or a write that fails, leaves of an `authorized_keys` file.
use seapath_webui.Common.{
  ◌⊎◌, ℕ, zero, suc, take, All, ◌++◌, Text, Bool, true, false, not, eq_refl, Option, none, some,
  List, [], ◌∷◌, length, length-filter, filter, filter-filter, filter-filter_none, any,
  All-filter_of_All, ◌≡◌, ◌≢◌, ◌≤◌, refl, ap, ◌∙◌, Bool-cases, inl, inr, arith,
}
use seapath_webui.Common.Lines.{texts_eq, texts_eq_sound, IsLine}
use seapath_webui.Trust.AuthorizedKeys.{
  Call, open_temporary, fill, own, rename, calls, perform, performed, fails, attempt, tidied, File,
  payload, AuthorizedKey, Disk, Fault, Outcome, changed, comment_of, replaced, install_in, with_key,
  read, write, install, remove_in, without, written, remove, same,
}
use seapath_webui.Trust.AuthorizedKeys.Comments.{unowned, foreign, carries}
use seapath_webui.Trust.AuthorizedKeys.Reading.{performed-content, read-IsLine, read-replaced}

not-carries : (comment line : Text) → foreign line ≡ true → not (carries comment line) ≡ true
not-carries comment line = unowned-same (comment_of line)
  where
    unowned-same : (o : Option Text) → unowned o ≡ true → not (same o comment) ≡ true
    unowned-same none h = refl
    unowned-same (some c) h = cc

-- A filter that drops no element, and only such a filter, gives the same lines.
texts_eq-filter :
    (test : Text → Bool) (lines : List Text)
    → texts_eq (filter (λ line. not (test line)) lines) lines ≡ not (any test lines)
unfolding texts_eq filter any
texts_eq-filter test [] = refl
texts_eq-filter test (line ∷ lines) = elim (Bool-cases (test line)) [
  | inl e ↦ rw e (
      texts_eq_shorter (filter (λ l. not (test l)) lines) line lines
        (length-filter (λ l. not (test l)) lines))
  | inr e ↦ rw (e, eq_refl line) (texts_eq-filter test lines)
]
  where
    texts_eq_shorter :
        (ss : List Text) (t : Text) (ts : List Text)
        → length ss ≤ length ts
        → texts_eq ss (t ∷ ts) ≡ false
    texts_eq_shorter ss t ts h = elim (Bool-cases (texts_eq ss (t ∷ ts))) [
      | inl e ↦ absurd (omega (arith, h, ap length (texts_eq_sound ss (t ∷ ts) e)))
      | inr e ↦ e
    ]

changed-replaced :
    (disk : Disk) (new old : List Text)
    → (replaced none disk new old).1 ≡ changed (not (texts_eq new old))
unfolding write attempt
changed-replaced disk new old = elim (Bool-cases (texts_eq new old)) [
  | inl e ↦ rw e refl
  | inr e ↦ rw e refl
]

-- Removing a comment from a file that can be read, with a write that succeeds, leaves every line
-- that this service does not own, in order, and no line with that comment, and says whether there
-- was one.
pub remove_gone :
    (comment : Text) (disk : Disk) (lines : List Text)
    → read disk ≡ some lines
    → (left : List Text) × (read ((remove none comment disk).0) ≡ some left)
      × (filter foreign left ≡ filter foreign lines)
      × (filter (carries comment) left ≡ [])
      × ((remove none comment disk).1 ≡ changed (any (carries comment) lines))
unfolding remove remove_in without
remove_gone comment disk lines h = (
  without comment lines,
  ap (λ o. read ((remove_in none comment disk o).0)) h
      ∙ read-replaced disk (without comment lines) lines h (
          All-filter_of_All IsLine (λ line. not (carries comment line)) lines
            (read-IsLine disk lines h)),
  filter-filter foreign (λ line. not (carries comment line)) lines (not-carries comment),
  filter-filter_none (carries comment) (λ line. not (carries comment line)) lines
      (λ line h. ground arith),
  ap (λ o. (remove_in none comment disk o).1) h
      ∙ (changed-replaced disk (without comment lines) lines
          ∙ rw (texts_eq-filter (carries comment) lines) (ap changed (ground arith))),
)

-- What a write, given up at any of its calls, leaves of the file: as it was, or with all the lines.
abbrev pub Whole : List Text → Disk → Disk → Type 0
Whole lines before after =
    (after.target ≡ before.target)
    ⊎ ((file : File) × (after.target ≡ some file) × (file.content ≡ payload lines))

-- A call other than the rename leaves the file.
spares_target : Call → Bool
spares_target rename = false
spares_target call = true

perform-target :
    (call : Call) (disk : Disk)
    → spares_target call ≡ true
    → (perform call disk).target ≡ disk.target
unfolding perform spares_target
perform-target open_temporary disk h = refl
perform-target (fill content) disk h = refl
perform-target own disk h = refl
perform-target rename disk h = cc

performed-target :
    (rest : List Call) (disk : Disk)
    → All (λ call. spares_target call ≡ true) rest
    → (performed rest disk).target ≡ disk.target
unfolding performed
performed-target [] disk h = refl
performed-target (call ∷ rest) disk (here, others) =
    performed-target rest (perform call disk) others ∙ perform-target call disk here

-- The attempt stops at the call that fails.
attempt-stopped :
    (fault : Option Fault) (before : List Call) (call : Call) (after : List Call) (disk : Disk)
    → All (λ c. spares_target c ≡ true) before
    → fails fault call ≡ true
    → ((attempt fault (before ++ call ∷ after) disk).0.target ≡ disk.target)
      × ((attempt fault (before ++ call ∷ after) disk).1 ≡ false)
unfolding attempt
attempt-stopped fault [] call after disk spared failing = rw failing (refl, refl)
attempt-stopped fault (first ∷ before) call after disk (here, others) failing =
    let (kept, refused) =
      attempt-stopped fault before call after (perform first disk) others failing in
    elim (Bool-cases (fails fault first)) [
      | inl now ↦ rw now (refl, refl)
      | inr later ↦ rw later (kept ∙ perform-target first disk here, refused)
    ]

tidied-target :
    (o : Disk × Bool) (target : Option File)
    → (o.0.target ≡ target) × (o.1 ≡ false)
    → ((tidied o).0.target ≡ target) × ((tidied o).1 ≡ false)
tidied-target (disk, true) target (kept, refused) = absurd (cc refused)
tidied-target (disk, false) target h = h

tidied-stopped :
    (fault : Option Fault) (before : List Call) (call : Call) (after : List Call) (disk : Disk)
    → All (λ c. spares_target c ≡ true) before
    → fails fault call ≡ true
    → ((tidied (attempt fault (before ++ call ∷ after) disk)).0.target ≡ disk.target)
      × ((tidied (attempt fault (before ++ call ∷ after) disk)).1 ≡ false)
tidied-stopped fault before call after disk spared failing =
    tidied-target (attempt fault (before ++ call ∷ after) disk) disk.target
      (attempt-stopped fault before call after disk spared failing)

write-fault :
    (fault : Fault) (disk : Disk) (lines : List Text)
    → ((write (some fault) disk lines).0.target ≡ disk.target)
      × ((write (some fault) disk lines).1 ≡ false)
unfolding write attempt perform
write-fault Fault.opening disk lines = (refl, refl)
write-fault Fault.filling disk lines =
    tidied-stopped (some Fault.filling) [] (fill (payload lines)) (own ∷ rename ∷ [])
      (perform open_temporary disk) tt refl
write-fault Fault.owning disk lines =
    tidied-stopped (some Fault.owning) (fill (payload lines) ∷ []) own (rename ∷ [])
      (perform open_temporary disk) (unfold spares_target in (refl, tt)) refl
write-fault Fault.renaming disk lines =
    tidied-stopped (some Fault.renaming) (fill (payload lines) ∷ own ∷ []) rename []
      (perform open_temporary disk) (unfold spares_target in (refl, (refl, tt))) refl

written-fault :
    (fault : Fault) (disk : Disk) (lines : List Text)
    → ((written (write (some fault) disk lines)).0.target ≡ disk.target)
      × ((written (write (some fault) disk lines)).1 ≡ Outcome.write_failed)
written-fault fault disk lines =
    given_up (write (some fault) disk lines) (write-fault fault disk lines)
  where
    given_up :
        (o : Disk × Bool)
        → (o.0.target ≡ disk.target) × (o.1 ≡ false)
        → ((written o).0.target ≡ disk.target) × ((written o).1 ≡ Outcome.write_failed)
    given_up (after, true) (kept, refused) = absurd (cc refused)
    given_up (after, false) (kept, refused) = (kept, refl)

-- A process that dies after some of the calls of a write.
performed-Whole :
    (count : ℕ) (disk : Disk) (lines : List Text)
    → Whole lines disk (performed (take count (calls lines)) disk)
unfolding calls
performed-Whole zero disk lines = inl (performed-target [] disk tt)
performed-Whole (suc zero) disk lines =
    inl (performed-target (open_temporary ∷ []) disk (unfold spares_target in (refl, tt)))
performed-Whole (suc (suc zero)) disk lines = inl (
    performed-target (open_temporary ∷ fill (payload lines) ∷ []) disk
      (unfold spares_target in (refl, (refl, tt))))
performed-Whole (suc (suc (suc zero))) disk lines = inl (
    performed-target (open_temporary ∷ fill (payload lines) ∷ own ∷ []) disk
      (unfold spares_target in (refl, (refl, (refl, tt)))))
performed-Whole (suc (suc (suc (suc count)))) disk lines =
    rw (take_none count) (inr (performed-content disk lines))
  where
    take_none : (count : ℕ) → take {A = Call} count [] ≡ []
    take_none zero = refl
    take_none (suc count) = refl

not_changed : {o : Outcome} → o ≡ Outcome.write_failed → o ≢ changed true
not_changed h e = cc

replaced-fault :
    (fault : Fault) (disk : Disk) (new old : List Text)
    → ((replaced (some fault) disk new old).0.target ≡ disk.target)
      × ((replaced (some fault) disk new old).1 ≢ changed true)
replaced-fault fault disk new old = elim (Bool-cases (texts_eq new old)) [
  | inl e ↦ rw e (refl, λ h. cc)
  | inr e ↦ rw e ((written-fault fault disk new).0, not_changed ((written-fault fault disk new).1))
]

-- A write replaces the file at once: a process that dies after any number of its system calls leaves the
-- file as it was, or with all the new lines; and whatever call fails, neither an installation nor a
-- removal changes the file, and neither answers that it did.
pub failed_write-target :
    (count : ℕ) (fault : Fault) (key : AuthorizedKey) (comment : Text) (lines : List Text)
    (disk : Disk)
    → Whole lines disk (performed (take count (calls lines)) disk)
      × ((install (some fault) key disk).0.target ≡ disk.target)
      × ((install (some fault) key disk).1 ≢ changed true)
      × ((remove (some fault) comment disk).0.target ≡ disk.target)
      × ((remove (some fault) comment disk).1 ≢ changed true)
unfolding install remove install_in remove_in
failed_write-target count fault key comment lines disk =
    let (p, q) = in_install (read disk) in
    let (r, s) = in_remove (read disk) in (performed-Whole count disk lines, p, q, r, s)
  where
    in_install :
        (o : Option (List Text))
        → ((install_in (some fault) key disk o).0.target ≡ disk.target)
          × ((install_in (some fault) key disk o).1 ≢ changed true)
    in_install none = (refl, λ h. cc)
    in_install (some old) = replaced-fault fault disk (with_key key old) old

    in_remove :
        (o : Option (List Text))
        → ((remove_in (some fault) comment disk o).0.target ≡ disk.target)
          × ((remove_in (some fault) comment disk o).1 ≢ changed true)
    in_remove none = (refl, λ h. cc)
    in_remove (some old) = replaced-fault fault disk (without comment old) old
