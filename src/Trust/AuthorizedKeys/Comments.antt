-- ===== src/Trust/AuthorizedKeys/Comments.antt =====
-- Which lines of an `authorized_keys` file are ours, and that the line of a key is.
use seapath_webui.Common.{
  ℕ, Text, Bool, true, false, starts_with, Option, none, some, List, [], ◌∷◌, ◌++◌, append_one,
  last-append_one, codes, nat_eq, if◌then◌else◌, strip, strip_plain, is_space, ◌≡◌, refl, ap, sym,
  subst, ◌∙◌,
}
use seapath_webui.Common.Lines.{fields, join, IsWord, fields-append_blank, fields-word, blank}
use seapath_webui.Trust.AuthorizedKeys.{
  AuthorizedKey, comment_prefix, render, options, from_option, comment_of, comment_in, same,
}

-- A comment that marks a line as one of ours: one word that starts with the prefix.
abbrev pub IsComment : Text → Type 0
IsComment comment = (starts_with comment comment_prefix ≡ true) × IsWord comment

abbrev pub unowned : Option Text → Bool
unowned none = true
unowned (some comment) = false

-- A line that this service does not own.
abbrev pub foreign : Text → Bool
foreign line = unowned (comment_of line)

-- A line that carries the comment.
abbrev pub carries : Text → Text → Bool
carries comment line = same (comment_of line) comment

starts_plain :
    (addresses rest : List Text)
    → (c : ℕ) × (s : Text) × (join (codes ",") (from_option addresses ++ (codes "restrict" ∷ rest))
        ≡ c ∷ s)
      × (is_space c ≡ false)
      × (nat_eq c 35 ≡ false)
unfolding join is_space
starts_plain [] [] = (114, _, refl, refl, refl)
starts_plain [] (t ∷ rest) = (114, _, refl, refl, refl)
starts_plain (a ∷ addresses) rest = (102, _, refl, refl, refl)

strip_last :
    (c : ℕ) (s w : Text)
    → is_space c ≡ false
    → IsWord w
    → strip (c ∷ s ++ blank ∷ w) ≡ c ∷ s ++ blank ∷ w
strip_last c s w plain word =
    subst (λ t. strip (c ∷ t) ≡ c ∷ t) (append_one s w blank)
      (strip_plain c (s ++ blank ∷ []) w plain (word.0) (word.1))

comment_in-last :
    (c : ℕ) (s w : Text)
    → nat_eq c 35 ≡ false
    → IsComment w
    → comment_in (c ∷ s ++ blank ∷ w) ≡ some w
unfolding comment_in starts_with
comment_in-last c s w plain (prefix, word) =
    rw
      (
        plain,
        fields-append_blank (c ∷ s) w,
        fields-word w word,
        last-append_one (fields (c ∷ s)) w,
        prefix,
      )
      refl

comment_of-last :
    (c : ℕ) (s w : Text)
    → is_space c ≡ false
    → nat_eq c 35 ≡ false
    → IsComment w
    → comment_of (c ∷ s ++ blank ∷ w) ≡ some w
unfolding comment_of
comment_of-last c s w plain unmarked (prefix, word) =
    ap comment_in (strip_last c s w plain word) ∙ comment_in-last c s w unmarked (prefix, word)

pub comment_of-render :
    (key : AuthorizedKey) → IsComment (key.comment) → comment_of (render key) ≡ some (key.comment)
unfolding render options
comment_of-render key h =
    let rest = if key.allow_pty then codes "pty" ∷ [] else [] in
    let (c, s, starts, plain, unmarked) = starts_plain (key.from_addresses) rest in
    subst
      (λ t. comment_of ((t ++ blank ∷ key.public_key) ++ blank ∷ key.comment) ≡ some (key.comment))
      (sym starts) (comment_of-last c (s ++ blank ∷ key.public_key) (key.comment) plain unmarked h)
