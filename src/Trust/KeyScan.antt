-- ===== src/Trust/KeyScan.antt =====
-- app/trust/keyscan.py: the host keys that machines answer with. What `ssh-keyscan` prints of each
-- address, where it is installed, the test of base64 and the fingerprint of a key's body are arguments.
use seapath_webui.Common.{
  Text, codes, starts_with, Bool, false, ◌&&◌, ◌||◌, Option, none, some, List, [], ◌∷◌, ◌++◌,
  if◌then◌else◌,
}
use seapath_webui.Common.Lines.{splitlines, fields, blank}

pub record ScannedKey : Type 0 where
  pub address : Text
  pub key_type : Text
  pub key : Text
  pub fingerprint : Text

pub data Scan : Type 0 where
  scanned : List ScannedKey → Scan
  no_program no_answer : Scan

module _ (fingerprint_of_body : Text → Text) where
  abbrev key_of : Text → List Text → List ScannedKey
  key_of address [] = []
  key_of address (name ∷ []) = []
  key_of address (name ∷ kind ∷ []) = []
  key_of address (name ∷ kind ∷ body ∷ rest) =
      (record {
        address = address;
        key_type = kind;
        key = kind ++ blank ∷ body;
        fingerprint = fingerprint_of_body body;
      })
      ∷ []

  unfoldable pub keys_of_lines : Text → List Text → List ScannedKey
  unfolding fields starts_with
  keys_of_lines address [] = []
  keys_of_lines address (line ∷ lines) =
      let rest = keys_of_lines address lines in
      if starts_with line (codes "#") then rest else key_of address (fields line) ++ rest

  unfoldable pub found_at : (Text → Text) → List Text → List ScannedKey
  unfolding keys_of_lines splitlines
  found_at answer [] = []
  found_at answer (address ∷ addresses) =
      keys_of_lines address (splitlines (answer address)) ++ found_at answer addresses

  abbrev scan_of : List ScannedKey → Scan
  scan_of [] = no_answer
  scan_of (first ∷ rest) = scanned (first ∷ rest)

  -- `answer` is none where the program is not in the image.
  unfoldable pub scan : Option (Text → Text) → List Text → Scan
  unfolding found_at
  scan none addresses = no_program
  scan (some answer) addresses = scan_of (found_at answer addresses)

is_kind : Text → Bool
is_kind kind =
    starts_with kind (codes "ssh-")
    || starts_with kind (codes "ecdsa-")
    || starts_with kind (codes "sk-")

abbrev two_words : (Text → Bool) → List Text → Bool
two_words decodes [] = false
two_words decodes (kind ∷ []) = false
two_words decodes (kind ∷ body ∷ rest) = is_kind kind && decodes body

-- Whether a text is a `<type> <base64 blob>`.
unfoldable pub is_host_key : (Text → Bool) → Text → Bool
unfolding fields is_kind starts_with
is_host_key decodes key = two_words decodes (fields key)
