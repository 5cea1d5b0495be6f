-- ===== src/Trust/Service/Relation.antt =====
-- The relation of a node with itself, once it is provisioned.
use seapath_webui.Common.{
  Text, true, Option, none, some, List, [], ◌∷◌, ◌++◌, filter, ◌≡◌, refl, ap, ◌∙◌, eq_refl, arith,
}
use seapath_webui.Common.Names.{mem, mem-append}
use seapath_webui.Common.Lines.{IsLine}
use seapath_webui.Trust.AuthorizedKeys.{
  AuthorizedKey, render, comment_of, comments, listed, with_key, read, installed, spares,
}
use seapath_webui.Trust.AuthorizedKeys.Comments.{IsComment, comment_of-render}
use seapath_webui.Trust.AuthorizedKeys.Installs.{read-install}
use seapath_webui.Trust.Service.{
  Trust, self_comment, self_line, ensure_key_pair, ensure_self_trust, relations,
}

listed-append :
    (o : Option Text) (rest more : List Text) → listed o (rest ++ more) ≡ listed o rest ++ more
listed-append none rest more = refl
listed-append (some c) rest more = ground arith

comments-append : (xs ys : List Text) → comments (xs ++ ys) ≡ comments xs ++ comments ys
unfolding comments
comments-append [] ys = refl
comments-append (x ∷ xs) ys =
    rw (comments-append xs ys) (listed-append (comment_of x) (comments xs) (comments ys))

listed-comment : (c : Text) → IsComment c → listed (some c) [] ≡ c ∷ []
listed-comment c (prefix, word) = rw (word.0, prefix) refl

mem-comments :
    (key : AuthorizedKey) (lines : List Text)
    → IsComment (key.comment)
    → mem (key.comment) (comments (with_key key lines)) ≡ true
unfolding with_key comments mem
mem-comments key lines h =
    ap (mem (key.comment)) (comments-append (filter (spares key) lines) (render key ∷ []))
    ∙ (mem-append (key.comment) (comments (filter (spares key) lines)) (comments (render key ∷ []))
        ∙ rw
            (
              ap (λ o. listed o []) (comment_of-render key h) ∙ listed-comment (key.comment) h,
              eq_refl (key.comment),
            )
            (ground arith))

-- Where the file can be read and written, a node that provisions the relation with itself then reports
-- that relation as installed, with the fingerprint of the pair it had or has just made. The comment
-- with the hostname is one word and the line has no line break.
pub relations-ensure_self_trust :
    (fingerprint : Text → Text) (made hostname : Text) (addresses : List Text) (trust : Trust)
    (lines : List Text)
    → read (trust.disk) ≡ some lines
    → IsLine (render (self_line hostname (ensure_key_pair made (trust.self_key)) addresses))
    → IsComment (self_comment hostname)
    → relations fingerprint hostname ((ensure_self_trust none made hostname addresses trust).0)
      ≡ some (
          record {
            comment = self_comment hostname;
            peer = hostname;
            fingerprint = fingerprint (ensure_key_pair made (trust.self_key));
            from_addresses = [];
            installed = true;
          }
          ∷ [])
unfolding relations ensure_self_trust installed
relations-ensure_self_trust fingerprint made hostname addresses trust lines h line comment =
    let key = self_line hostname (ensure_key_pair made (trust.self_key)) addresses in
    rw (read-install key (trust.disk) lines h line, mem-comments key lines comment) refl
