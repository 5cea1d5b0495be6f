-- ===== src/Console/Commands/Quoting.antt =====
-- What a shell reads of the commands. `words` reads a command whose words are separated by one space,
-- and refuses each character that a shell could take for more than itself.
use mathlib.Core.List.{append_assoc}
use seapath_webui.Common.{
  ℕ, Text, codes, nat_eq, all, Bool, true, false, ◌||◌, Option, none, some, List, [], ◌∷◌, ◌++◌,
  ◌≡◌, refl, ◌∙◌, ap, sym, if◌then◌else◌, arith, Bool-cases, inl, inr, append_nil, append_one,
}
use seapath_webui.Console.Commands.{
  is_safe, single_quote, double_quote, escaped, quote, serial_inner, serial_command, graphic_inner,
  graphic_command,
}

abbrev space : ℕ
space = 32

-- What quotes are open.
pub data Quotes : Type 0 where
  bare in_single in_double : Quotes

abbrev pub and_word : Text → Option (List Text) → Option (List Text)
and_word word none = none
and_word word (some rest) = some (word ∷ rest)

-- $ ` \ " and ! keep a meaning between double quotes.
is_plain_in_double : ℕ → Bool
is_plain_in_double c = is_safe c || nat_eq c single_quote || nat_eq c space

-- The words from here on, the first of them begun as `word`.
unfoldable pub words_from : Quotes → Text → Text → Option (List Text)
unfolding is_plain_in_double is_safe
words_from bare word [] = some (word ∷ [])
words_from in_single word [] = none
words_from in_double word [] = none
words_from bare word (c ∷ s) =
    let next = and_word word (words_from bare [] s) in
    let single = words_from in_single word s in
    let double = words_from in_double word s in
    let more = words_from bare (word ++ c ∷ []) s in
    if nat_eq c space
    then next
    else if nat_eq c single_quote
    then single
    else if nat_eq c double_quote
    then double
    else if is_safe c
    then more
    else none
words_from in_single word (c ∷ s) =
    let closed = words_from bare word s in
    let more = words_from in_single (word ++ c ∷ []) s in
    if nat_eq c single_quote then closed else more
words_from in_double word (c ∷ s) =
    let closed = words_from bare word s in
    let more = words_from in_double (word ++ c ∷ []) s in
    if nat_eq c double_quote then closed else if is_plain_in_double c then more else none

abbrev pub words : Text → Option (List Text)
words command = words_from bare [] command

pub words_from-safe :
    (s word rest : Text)
    → all is_safe s ≡ true
    → words_from bare word (s ++ rest) ≡ words_from bare (word ++ s) rest
unfolding all words_from is_safe
words_from-safe [] word rest h = ap (λ w. words_from bare w rest) (sym (append_nil word))
words_from-safe (c ∷ s) word rest h =
    ground (arith, words_from-safe s (word ++ c ∷ []) rest, append_one word s c)

words_from-escaped :
    (s word rest : Text)
    → words_from in_single word (escaped s ++ single_quote ∷ rest)
      ≡ words_from bare (word ++ s) rest
unfolding escaped words_from is_safe
words_from-escaped [] word rest = ap (λ w. words_from bare w rest) (sym (append_nil word))
words_from-escaped (c ∷ s) word rest =
    ground (arith, words_from-escaped s (word ++ c ∷ []) rest, append_one word s c)

-- A quoted text is read back as the text, whatever it holds, and ends where it ends.
pub words_from-quote :
    (s word rest : Text) → words_from bare word (quote s ++ rest) ≡ words_from bare (word ++ s) rest
unfolding quote
words_from-quote [] word rest =
    unfold words_from is_safe in ap (λ w. words_from bare w rest) (sym (append_nil word))
words_from-quote (c ∷ s) word rest = elim (Bool-cases (all is_safe (c ∷ s))) [
  | inl safe ↦ rw safe (words_from-safe (c ∷ s) word rest safe)
  | inr unsafe ↦ rw unsafe (
      opened
      ∙ ap (words_from in_single word) (append_assoc (escaped (c ∷ s)) (single_quote ∷ []) rest)
      ∙ words_from-escaped (c ∷ s) word rest)
]
  where
    opened :
        words_from bare word (single_quote ∷ ((escaped (c ∷ s) ++ single_quote ∷ []) ++ rest))
        ≡ words_from in_single word ((escaped (c ∷ s) ++ single_quote ∷ []) ++ rest)
    opened = unfold words_from in refl

last_word : (s : Text) → words_from bare [] (quote s) ≡ some (s ∷ [])
last_word s =
    ap (words_from bare []) (sym (append_nil (quote s)))
    ∙ words_from-quote s [] []
    ∙ unfold words_from in refl

words-as_root :
    (inner : Text)
    → words (codes "sudo -n /bin/sh -c " ++ quote inner)
      ≡ some (codes "sudo" ∷ codes "-n" ∷ codes "/bin/sh" ∷ codes "-c" ∷ inner ∷ [])
unfolding words_from is_safe
words-as_root inner = rw (last_word inner) refl

words-serial_inner :
    (guest : Text) (in_cluster : Bool)
    → words (serial_inner guest in_cluster)
      ≡ some (
          if in_cluster
          then codes "exec" ∷ codes "vm-mgr" ∷ codes "console" ∷ guest ∷ []
          else codes "exec"
            ∷ codes "virsh"
            ∷ codes "-c"
            ∷ codes "qemu:///system"
            ∷ codes "console"
            ∷ guest
            ∷ [])
unfolding words_from is_safe serial_inner
words-serial_inner guest true = rw (last_word guest) refl
words-serial_inner guest false = rw (last_word guest) refl

-- What a guest's serial console runs. A shell reads the command as `sudo -n /bin/sh -c` and one more
-- word, and the shell that gets that word reads in it the fixed words of the program and, as one word,
-- the guest's name: no name of a guest, whatever it holds, adds a word or a command.
pub words-serial_command :
    (guest : Text) (in_cluster : Bool)
    → (words (serial_command guest in_cluster)
        ≡ some (
            codes "sudo"
            ∷ codes "-n"
            ∷ codes "/bin/sh"
            ∷ codes "-c"
            ∷ serial_inner guest in_cluster
            ∷ []))
      × (words (serial_inner guest in_cluster)
          ≡ some (
              if in_cluster
              then codes "exec" ∷ codes "vm-mgr" ∷ codes "console" ∷ guest ∷ []
              else codes "exec"
                ∷ codes "virsh"
                ∷ codes "-c"
                ∷ codes "qemu:///system"
                ∷ codes "console"
                ∷ guest
                ∷ []))
unfolding serial_command
words-serial_command guest in_cluster =
    (words-as_root (serial_inner guest in_cluster), words-serial_inner guest in_cluster)

-- What a guest's graphic console runs is read in the same way: the relay program is one word and the
-- guest's name the next.
pub words-graphic_command :
    (relay guest : Text)
    → (words (graphic_command relay guest)
        ≡ some (
            codes "sudo"
            ∷ codes "-n"
            ∷ codes "/bin/sh"
            ∷ codes "-c"
            ∷ graphic_inner relay guest
            ∷ []))
      × (words (graphic_inner relay guest)
          ≡ some (codes "exec" ∷ codes "python3" ∷ codes "-I" ∷ codes "-c" ∷ relay ∷ guest ∷ []))
unfolding graphic_command
words-graphic_command relay guest = (
  words-as_root (graphic_inner relay guest),
  unfold graphic_inner in
      python_words
      ∙ ap
          (λ w.
            and_word (codes "exec")
              (and_word (codes "python3") (and_word (codes "-I") (and_word (codes "-c") w))))
          (words_from-quote relay [] (codes " " ++ quote guest) ∙ guest_word),
)
  where
    rest : Text
    rest = quote relay ++ (codes " " ++ quote guest)

    guest_word : words_from bare relay (codes " " ++ quote guest) ≡ some (relay ∷ guest ∷ [])
    guest_word = unfold words_from in rw (last_word guest) refl

    python_words :
        words (codes "exec python3 -I -c " ++ rest)
        ≡ and_word (codes "exec") (
            and_word
              (codes "python3")
              (and_word (codes "-I") (and_word (codes "-c") (words_from bare [] rest))))
    python_words = unfold words_from is_safe in refl
