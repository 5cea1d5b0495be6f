-- ===== src/Trust/BackupServer.antt =====
-- app/trust/backup_server.py: the keys that a backup server is given. What ssh answers is an argument.
use seapath_webui.Common.{
  ℕ, zero, suc, Text, codes, leb, nat_eq, all, is_empty, strip, has_part, starts_with, drop,
  partition, Bool, false, not, ◌&&◌, ◌||◌, Option, none, some, List, [], ◌∷◌, ◌++◌, map,
  if◌then◌else◌, ◌≡◌,
}
use seapath_webui.Common.Int.{ℤ, is_zero}
use seapath_webui.Common.Lines.{join}
use seapath_webui.Console.Commands.{quote}
use seapath_webui.Console.Commands.Quoting.{words}
use seapath_webui.Inventory.Replication.Ssh.{AllRead, Reads-quote, words-join}

pub record InstallRequest : Type 0 where
  pub server : Text
  pub known_hosts : List Text
  pub key_lines : List Text

is_letter : ℕ → Bool
is_letter c = (leb b'A' c && leb c b'Z') || (leb b'a' c && leb c b'z') || (leb b'0' c && leb c b'9')

is_name_char : ℕ → Bool
is_name_char c = is_letter c || nat_eq c b'.' || nat_eq c b'_' || nat_eq c b'-'

is_host_char : ℕ → Bool
is_host_char c = is_name_char c || nat_eq c b':'

is_base64_char : ℕ → Bool
is_base64_char c = is_letter c || nat_eq c b'+' || nat_eq c b'/'

-- [test]+$, which a line feed at the end may follow
all_to_end : (ℕ → Bool) → Text → Bool
all_to_end test [] = false
all_to_end test (c ∷ []) = test c
all_to_end test (c ∷ d ∷ []) = test c && (test d || nat_eq d 10)
all_to_end test (c ∷ d ∷ e ∷ s) = test c && all_to_end test (d ∷ e ∷ s)

-- What is left after the characters that pass the test, where there is one.
after_run : (ℕ → Bool) → Text → Text
after_run test [] = []
after_run test (c ∷ s) = let rest = after_run test s in if test c then rest else c ∷ s

after_padding : ℕ → Text → Text
after_padding n [] = []
after_padding zero (c ∷ s) = c ∷ s
after_padding (suc n) (c ∷ s) =
    let rest = after_padding n s in if nat_eq c b'=' then rest else c ∷ s

abbrev starts_run : (ℕ → Bool) → Text → Bool
starts_run test [] = false
starts_run test (c ∷ s) = test c

-- PUBLIC_KEY
unfoldable pub is_public_key : Text → Bool
unfolding starts_with after_run after_padding all_to_end is_base64_char is_name_char is_letter
is_public_key key =
    let body = drop 12 key in
    let tail = after_padding 2 (after_run is_base64_char body) in
    starts_with key (codes "ssh-ed25519 ")
    && starts_run is_base64_char body
    && starts_with tail (codes " backup_restore@")
    && all_to_end is_name_char (drop 16 tail)

abbrev is_user_at : Text → Option (Text × Text) → Bool
is_user_at server none = all_to_end is_host_char server
is_user_at server (some (user, host)) =
    not (is_empty user) && all is_name_char user && all_to_end is_host_char host

-- _SERVER
unfoldable pub is_server : Text → Bool
unfolding partition all all_to_end is_host_char is_name_char is_letter
is_server server = is_user_at server (partition b'@' server)

-- Why nothing is installed.
pub data Refused : Type 0 where
  bad_server no_host_key no_keys bad_key no_reply host_key_changed : Refused
  ssh_said : Text → Refused

unfoldable pub check : InstallRequest → Option Refused
unfolding is_server is_public_key all
check request =
    if not (is_server (request.server))
    then some bad_server
    else if is_empty (request.known_hosts)
    then some no_host_key
    else if is_empty (request.key_lines)
    then some no_keys
    else if not (all is_public_key (request.key_lines))
    then some bad_key
    else none

abbrev quoted_keys : List Text → Text
quoted_keys key_lines = join (codes " ") (map quote key_lines)

-- What runs on the server, as its account's own shell reads it.
unfoldable pub append_script : List Text → Text
unfolding join quote
append_script key_lines =
    codes
      "umask 077; mkdir -p ~/.ssh && touch ~/.ssh/authorized_keys || exit 1; f=~/.ssh/authorized_keys; if [ -s \"$f\" ] && [ -n \"$(tail -c 1 \"$f\")\" ]; then echo >> \"$f\"; fi; for k in "
    ++ (quoted_keys key_lines
        ++ codes "; do grep -qxF \"$k\" \"$f\" || printf '%s\\n' \"$k\" >> \"$f\" || exit 1; done")

pub data SshEnd : Type 0 where
  ssh_exited : (code : ℤ) → (out : Text) → (error : Text) → SshEnd
  ssh_timed_out : SshEnd

abbrev or_other : Text → Text → Text
or_other [] other = other
or_other (c ∷ s) other = c ∷ s

-- What a failed ssh is reported as; `silence` is what is said of an exit without a word.
unfoldable pub reason_of : Text → Text → Refused
unfolding has_part
reason_of silence reason =
    if has_part (codes "IDENTIFICATION HAS CHANGED") reason
      || has_part (codes "Host key verification failed") reason
    then host_key_changed
    else ssh_said (or_other reason silence)

unfoldable pub install_end : Text → SshEnd → Option Refused
unfolding reason_of is_zero strip
install_end silence ssh_timed_out = some no_reply
install_end silence (ssh_exited code out error) =
    if is_zero code then none else some (reason_of silence (strip (or_other error out)))

abbrev first_refusal : Option Refused → Option Refused → Option Refused
first_refusal none later = later
first_refusal (some why) later = some why

-- The refusal, or none where the keys are on the server.
unfoldable pub install : Text → SshEnd → InstallRequest → Option Refused
unfolding check install_end
install silence end request = first_refusal (check request) (install_end silence end)

quoted-AllRead : (key_lines : List Text) → AllRead (map quote key_lines) key_lines
quoted-AllRead [] = tt
quoted-AllRead (key ∷ key_lines) = (Reads-quote key, quoted-AllRead key_lines)

-- The loop of the script goes over the keys that are given, each of them one word.
pub words-quoted_keys :
    (key : Text) (key_lines : List Text)
    → words (quoted_keys (key ∷ key_lines)) ≡ some (key ∷ key_lines)
words-quoted_keys key key_lines =
    words-join (quote key) (map quote key_lines) key key_lines (quoted-AllRead (key ∷ key_lines))
