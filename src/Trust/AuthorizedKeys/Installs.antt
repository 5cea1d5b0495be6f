-- ===== src/Trust/AuthorizedKeys/Installs.antt =====
-- What an installation leaves of an `authorized_keys` file that others write to.
use seapath_webui.Common.{
  Text, true, false, eq_refl, Option, none, some, List, [], ◌∷◌, filter, filter-append,
  filter-filter, filter-filter_none, filter_idem, append_nil, All-append, All-filter_of_All, ◌≡◌,
  refl, ap, ◌∙◌, arith,
}
use seapath_webui.Common.Lines.{IsLine}
use seapath_webui.Trust.AuthorizedKeys.{
  AuthorizedKey, Disk, Fault, changed, render, comment_of, spares, spared, replaced, install_in,
  with_key, read, install, same,
}
use seapath_webui.Trust.AuthorizedKeys.Comments.{
  IsComment, unowned, foreign, carries, comment_of-render,
}
use seapath_webui.Trust.AuthorizedKeys.Reading.{read-IsLine, read-replaced, replaced-same}

install-some :
    (fault : Option Fault) (key : AuthorizedKey) (disk : Disk) (lines : List Text)
    → read disk ≡ some lines
    → install fault key disk ≡ replaced fault disk (with_key key lines) lines
unfolding install install_in
install-some fault key disk lines h = ap (install_in fault key disk) h

pub read-install :
    (key : AuthorizedKey) (disk : Disk) (lines : List Text)
    → read disk ≡ some lines
    → IsLine (render key)
    → read ((install none key disk).0) ≡ some (with_key key lines)
unfolding with_key
read-install key disk lines h line = rw (install-some none key disk lines h) (
    read-replaced disk (with_key key lines) lines h (
      All-append IsLine (filter (spares key) lines) (render key ∷ [])
        (All-filter_of_All IsLine (spares key) lines (read-IsLine disk lines h)) (line, tt)))

spared-unowned :
    (key : AuthorizedKey) (line : Text) (o : Option Text)
    → unowned o ≡ true
    → spared key line o ≡ true
unfolding spared
spared-unowned key line none h = refl
spared-unowned key line (some comment) h = cc

spared-same :
    (key : AuthorizedKey) (line : Text) (o : Option Text)
    → spared key line o ≡ true
    → same o (key.comment) ≡ false
unfolding spared
spared-same key line none h = refl
spared-same key line (some comment) h = ground arith

foreign-render : (key : AuthorizedKey) → IsComment (key.comment) → foreign (render key) ≡ false
foreign-render key h = ap unowned (comment_of-render key h)

carries-render :
    (key : AuthorizedKey) → IsComment (key.comment) → carries (key.comment) (render key) ≡ true
carries-render key h =
    ap (λ o. same o (key.comment)) (comment_of-render key h) ∙ eq_refl (key.comment)

spared-same_comment :
    (key : AuthorizedKey) (line : Text) → spared key line (some (key.comment)) ≡ false
unfolding spared
spared-same_comment key line = rw (eq_refl (key.comment)) refl

spares-render : (key : AuthorizedKey) → IsComment (key.comment) → spares key (render key) ≡ false
unfolding spares
spares-render key h =
    ap (spared key (render key)) (comment_of-render key h) ∙ spared-same_comment key (render key)

-- Installing a key leaves every line that this service does not own, in order, and of the lines with
-- the key's comment exactly one, the line of the key. The file can be read, the write succeeds, the
-- comment is one word that starts with the prefix, and the key's line has no line break in it.
pub install_keeps :
    (key : AuthorizedKey) (disk : Disk) (lines : List Text)
    → read disk ≡ some lines
    → IsLine (render key)
    → IsComment (key.comment)
    → (left : List Text) × (read ((install none key disk).0) ≡ some left)
      × (filter foreign left ≡ filter foreign lines)
      × (filter (carries (key.comment)) left ≡ render key ∷ [])
unfolding with_key filter spares
install_keeps key disk lines h line comment = (
  with_key key lines,
  read-install key disk lines h line,
  rw
      (
        filter-append foreign (filter (spares key) lines) (render key ∷ []),
        foreign-render key comment,
        append_nil (filter foreign (filter (spares key) lines)),
      )
      (filter-filter foreign (spares key) lines (λ l. spared-unowned key l (comment_of l))),
  rw
      (
        filter-append (carries (key.comment)) (filter (spares key) lines) (render key ∷ []),
        carries-render key comment,
        filter-filter_none (carries (key.comment)) (spares key) lines
            (λ l. spared-same key l (comment_of l)),
      )
      refl,
)

with_key_idem :
    (key : AuthorizedKey) (lines : List Text)
    → IsComment (key.comment)
    → with_key key (with_key key lines) ≡ with_key key lines
unfolding with_key filter
with_key_idem key lines h =
    rw
      (
        filter-append (spares key) (filter (spares key) lines) (render key ∷ []),
        spares-render key h,
        append_nil (filter (spares key) (filter (spares key) lines)),
        filter_idem (spares key) lines,
      )
      refl

-- Installing a key again changes nothing and says so, whatever would become of a write: the second
-- time the file is not written. The conditions are those of the first installation.
pub install_again :
    (fault : Option Fault) (key : AuthorizedKey) (disk : Disk) (lines : List Text)
    → read disk ≡ some lines
    → IsLine (render key)
    → IsComment (key.comment)
    → install fault key ((install none key disk).0) ≡ ((install none key disk).0, changed false)
install_again fault key disk lines h line comment =
    install-some fault key ((install none key disk).0) (with_key key lines)
      (read-install key disk lines h line)
    ∙ replaced-same fault ((install none key disk).0) (with_key key (with_key key lines))
        (with_key key lines) (with_key_idem key lines comment)
