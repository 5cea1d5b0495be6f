-- ===== src/Inventory/Replication/Ssh.antt =====
-- app/inventory/replication.py: the ssh that git runs, and the program at the far end. What a shell
-- reads of both.
use seapath_webui.Common.{
  ℕ, Text, codes, has_char, all, drop, true, false, ◌||◌, some, List, [], ◌∷◌, ◌++◌, ◌≡◌, refl, ap,
  sym, ◌∙◌, append_assoc, append_nil, append_one, arith, and-eq-true,
}
use seapath_webui.Common.Lines.{join}
use seapath_webui.Console.Commands.{quote, is_safe}
use seapath_webui.Console.Commands.Quoting.{
  bare, in_single, words, words_from, words_from-safe, words_from-quote, and_word,
}

abbrev with_identity : List Text → List Text
with_identity [] = []
with_identity (path ∷ paths) = codes "-i" ∷ quote path ∷ with_identity paths

abbrev ssh_start : List Text
ssh_start = codes "ssh" ∷ codes "-F" ∷ codes "/dev/null" ∷ codes "-o" ∷ []

abbrev ssh_options : List Text
ssh_options =
    codes "-o"
    ∷ codes "StrictHostKeyChecking=yes"
    ∷ codes "-o"
    ∷ codes "IdentitiesOnly=yes"
    ∷ codes "-o"
    ∷ codes "BatchMode=yes"
    ∷ codes "-o"
    ∷ codes "ControlMaster=no"
    ∷ codes "-o"
    ∷ codes "ControlPath=none"
    ∷ codes "-o"
    ∷ codes "ConnectTimeout=10"
    ∷ []

unfoldable pub ssh_parts : Text → Text → List Text → List Text
unfolding quote
ssh_parts private_key known_hosts extra =
    ssh_start
    ++ ((codes "UserKnownHostsFile=" ++ quote known_hosts)
        ∷ (ssh_options ++ with_identity (private_key ∷ extra)))

-- The ssh git runs, with the keys the trust provisioned.
unfoldable pub build_ssh_command : Text → Text → List Text → Text
unfolding ssh_parts join
build_ssh_command private_key known_hosts extra =
    join (codes " ") (ssh_parts private_key known_hosts extra)

-- What the shell at the far end runs as root.
unfoldable pub helper_script : Text → Text
helper_script program =
    codes "if command -v git >/dev/null 2>&1; then exec git "
    ++ (program
        ++ (codes " \"$0\"; else exec podman exec -i seapath-webui git "
            ++ (program ++ codes " \"$0\"; fi")))

-- `receive-pack` or `upload-pack`, run as root on the far side.
unfoldable pub remote_helper : Text → Text
unfolding helper_script
remote_helper program = codes "sudo -n /bin/sh -c '" ++ (helper_script program ++ codes "'")

-- A text that a shell reads as a word, or as more of one.
abbrev pub Reads : Text → Text → Type 0
Reads part word =
    (begun rest : Text)
    → words_from bare begun (part ++ rest) ≡ words_from bare (begun ++ word) rest

Reads-safe : (s : Text) → all is_safe s ≡ true → Reads s s
Reads-safe s h begun rest = words_from-safe s begun rest h

pub Reads-quote : (s : Text) → Reads (quote s) s
Reads-quote s begun rest = words_from-quote s begun rest

Reads-append : (p q s t : Text) → Reads p q → Reads s t → Reads (p ++ s) (q ++ t)
Reads-append p q s t hp hs begun rest =
    ap (words_from bare begun) (append_assoc p s rest)
    ∙ (hp begun (s ++ rest)
        ∙ (hs (begun ++ q) rest ∙ ap (λ b. words_from bare b rest) (append_assoc begun q t)))

abbrev pub AllRead : List Text → List Text → Type 0
AllRead [] [] = Unit
AllRead [] (w ∷ ws) = ⊥
AllRead (p ∷ ps) [] = ⊥
AllRead (p ∷ ps) (w ∷ ws) = Reads p w × AllRead ps ws

pub words-join :
    (p : Text) (ps : List Text) (w : Text) (ws : List Text)
    → AllRead (p ∷ ps) (w ∷ ws)
    → words (join (codes " ") (p ∷ ps)) ≡ some (w ∷ ws)
unfolding join
words-join p [] w [] (h, rest) =
    ap words (sym (append_nil p)) ∙ (h [] [] ∙ unfold words_from in refl)
words-join p [] w (v ∷ ws) (h, rest) = absurd rest
words-join p (q ∷ ps) w [] (h, rest) = absurd rest
words-join p (q ∷ ps) w (v ∷ ws) (h, rest) =
    h [] (codes " " ++ join (codes " ") (q ∷ ps))
    ∙ (after_blank (join (codes " ") (q ∷ ps)) w ∙ ap (and_word w) (words-join q ps v ws rest))
  where
    after_blank :
        (s word : Text)
        → words_from bare word (codes " " ++ s) ≡ and_word word (words_from bare [] s)
    after_blank s word = unfold words_from in refl

abbrev identities : List Text → List Text
identities [] = []
identities (path ∷ paths) = codes "-i" ∷ path ∷ identities paths

identities-AllRead : (paths : List Text) → AllRead (with_identity paths) (identities paths)
identities-AllRead [] = tt
identities-AllRead (path ∷ paths) = (
  Reads-safe (codes "-i") (unfold all is_safe in refl),
  (Reads-quote path, identities-AllRead paths),
)

-- Words that need no quotes, before others.
safe-AllRead :
    (safe ps ws : List Text)
    → all (all is_safe) safe ≡ true
    → AllRead ps ws
    → AllRead (safe ++ ps) (safe ++ ws)
unfolding all
safe-AllRead [] ps ws h rest = rest
safe-AllRead (s ∷ safe) ps ws h rest =
    let (one, others) = and-eq-true (all is_safe s) (all (all is_safe) safe) h in
    (Reads-safe s one, safe-AllRead safe ps ws others rest)

words-in_single :
    (s word : Text)
    → has_char 39 s ≡ false
    → words_from in_single word (s ++ codes "'") ≡ some ((word ++ s) ∷ [])
unfolding has_char words_from
words-in_single [] word h = ap (λ w. some (w ∷ [])) (sym (append_nil word))
words-in_single (c ∷ s) word h =
    ground (arith, words-in_single s (word ++ c ∷ []), append_one word s c)

has_char-append : (c : ℕ) (s t : Text) → has_char c (s ++ t) ≡ (has_char c s || has_char c t)
unfolding has_char
has_char-append c [] t = refl
has_char-append c (d ∷ s) t = ground (arith, has_char-append c s t)

helper_script-quotes :
    (program : Text) → has_char 39 program ≡ false → has_char 39 (helper_script program) ≡ false
unfolding helper_script has_char
helper_script-quotes program h =
    rw
      (
        has_char-append 39 program (
            codes " \"$0\"; else exec podman exec -i seapath-webui git "
            ++ (program ++ codes " \"$0\"; fi")),
        has_char-append 39 program (codes " \"$0\"; fi"),
        h,
      )
      refl

parts-AllRead :
    (private_key known_hosts : Text) (extra : List Text)
    → AllRead (ssh_parts private_key known_hosts extra) (
        ssh_start
        ++ ((codes "UserKnownHostsFile=" ++ known_hosts)
            ∷ (ssh_options ++ identities (private_key ∷ extra))))
unfolding ssh_parts all is_safe
parts-AllRead private_key known_hosts extra =
    let keys =
      safe-AllRead ssh_options (with_identity (private_key ∷ extra))
        (identities (private_key ∷ extra)) refl (identities-AllRead (private_key ∷ extra)) in
    let hosts =
      Reads-append (codes "UserKnownHostsFile=") (codes "UserKnownHostsFile=") (quote known_hosts)
        known_hosts (Reads-safe (codes "UserKnownHostsFile=") refl) (Reads-quote known_hosts) in
    safe-AllRead ssh_start
      ((codes "UserKnownHostsFile=" ++ quote known_hosts)
        ∷ (ssh_options ++ with_identity (private_key ∷ extra)))
      ((codes "UserKnownHostsFile=" ++ known_hosts)
        ∷ (ssh_options ++ identities (private_key ∷ extra)))
      refl (hosts, keys)

-- The ssh of a replication, split by a shell as git splits it, is the words it is built from: each path,
-- whatever characters it holds, is one word or the end of one.
pub words-build_ssh_command :
    (private_key known_hosts : Text) (extra : List Text)
    → words (build_ssh_command private_key known_hosts extra)
      ≡ some (
          ssh_start
          ++ ((codes "UserKnownHostsFile=" ++ known_hosts)
              ∷ (ssh_options ++ identities (private_key ∷ extra))))
unfolding build_ssh_command ssh_parts
words-build_ssh_command private_key known_hosts extra =
    words-join (codes "ssh") (drop 1 (ssh_parts private_key known_hosts extra)) (codes "ssh")
      (drop 1 (
        ssh_start
        ++ ((codes "UserKnownHostsFile=" ++ known_hosts)
            ∷ (ssh_options ++ identities (private_key ∷ extra)))))
      (parts-AllRead private_key known_hosts extra)

-- What git starts at the far end is, for a program without a single quote in it, `sudo -n /bin/sh -c`
-- and one more word, the script.
pub words-remote_helper :
    (program : Text)
    → has_char 39 program ≡ false
    → words (remote_helper program)
      ≡ some (codes "sudo" ∷ codes "-n" ∷ codes "/bin/sh" ∷ codes "-c" ∷ helper_script program ∷ [])
unfolding remote_helper words_from is_safe
words-remote_helper program h =
    rw (words-in_single (helper_script program) [] (helper_script-quotes program h)) refl
