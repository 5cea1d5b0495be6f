-- ===== src/Inventory/Repository/Answers.antt =====
-- What is read of git's files and of its answers.
use seapath_webui.Common.{
  Text, codes, ◌==◌, has_char, starts_with, is_space, strip, strip_word, partition,
  partition_append, true, false, none, some, [], ◌∷◌, ◌++◌, All, All-append, ◌≡◌, refl, ap, ◌∙◌,
  arith,
}
use seapath_webui.Common.Lines.{splitlines-unlines, unlines, IsLine, IsWord, is_break, space-break}
use seapath_webui.Inventory.Repository.{RemoteState, head_line, remote_lines, parse_remote_state}

word-has_char : (s : Text) → All (λ c. is_space c ≡ false) s → has_char 9 s ≡ false
unfolding has_char is_space
word-has_char [] h = refl
word-has_char (c ∷ s) (plain, h) = ground (arith, plain, word-has_char s h)

word-IsLine : (s : Text) → All (λ c. is_space c ≡ false) s → IsLine s
word-IsLine [] h = tt
word-IsLine (c ∷ s) (plain, h) = (space-break c plain, word-IsLine s h)

-- What git prints of HEAD on a branch: the branch and the commit, a tabulation before the name.
abbrev pub head_answer : Text → Text → Text
head_answer branch commit =
    unlines ((codes "ref: " ++ (branch ++ codes "\tHEAD")) ∷ (commit ++ codes "\tHEAD") ∷ [])

word-no_ref : (s : Text) → All (λ c. is_space c ≡ false) s → starts_with s (codes "ref: ") ≡ false
unfolding starts_with is_space
word-no_ref [] h = refl
word-no_ref (a ∷ []) h = ground arith
word-no_ref (a ∷ b ∷ []) h = ground arith
word-no_ref (a ∷ b ∷ c ∷ []) h = ground arith
word-no_ref (a ∷ b ∷ c ∷ d ∷ []) h = ground arith
word-no_ref (a ∷ b ∷ c ∷ d ∷ e ∷ s) h = ground (arith, h.1.1.1.1.0)

head_named : (strip (codes "HEAD") == codes "HEAD") ≡ true
unfolding strip ◌==◌ is_space
head_named = refl

branch_line :
    (branch : Text) (state : RemoteState)
    → IsWord branch
    → head_line (partition 9 (codes "ref: " ++ (branch ++ codes "\tHEAD"))) state
      ≡ record state { branch = some branch }
unfolding partition starts_with
branch_line branch state word =
    rw
      (
        partition_append 9 branch (codes "HEAD") (word-has_char branch (word.1)),
        head_named,
        strip_word branch (word.1),
      )
      refl

commit_line :
    (commit : Text) (state : RemoteState)
    → IsWord commit
    → head_line (partition 9 (commit ++ codes "\tHEAD")) state
      ≡ record state { commit = some commit }
commit_line commit state word =
    rw
      (
        partition_append 9 commit (codes "HEAD") (word-has_char commit (word.1)),
        word-no_ref commit (word.1),
        head_named,
        strip_word commit (word.1),
      )
      refl

named-IsLine : IsLine (codes "\tHEAD")
unfolding is_break
named-IsLine = (refl, (refl, (refl, (refl, (refl, tt)))))

commit-IsLine : (commit : Text) → IsWord commit → IsLine (commit ++ codes "\tHEAD")
commit-IsLine commit word =
    All-append (λ c. is_break c ≡ false) commit (codes "\tHEAD") (word-IsLine commit (word.1))
      named-IsLine

branch-IsLine :
    (branch : Text) → IsWord branch → IsLine (codes "ref: " ++ (branch ++ codes "\tHEAD"))
unfolding is_break
branch-IsLine branch word = (refl, (refl, (refl, (refl, (refl, commit-IsLine branch word)))))

-- The branch that a machine serves and the commit it is at are read back from what git prints of them,
-- where each is one word.
pub parse_remote_state-head_answer :
    (branch commit : Text)
    → IsWord branch
    → IsWord commit
    → parse_remote_state (head_answer branch commit)
      ≡ record { branch = some branch; commit = some commit }
unfolding parse_remote_state remote_lines
parse_remote_state-head_answer branch commit hb hc =
    let lines = (codes "ref: " ++ (branch ++ codes "\tHEAD")) ∷ (commit ++ codes "\tHEAD") ∷ [] in
    ap (λ ls. remote_lines ls (record { branch = none; commit = none }))
      (splitlines-unlines lines (branch-IsLine branch hb, (commit-IsLine commit hc, tt)))
    ∙ rw
        (
          branch_line branch (record { branch = none; commit = none }) hb,
          commit_line commit (record { branch = some branch; commit = none }) hc,
        )
        refl
