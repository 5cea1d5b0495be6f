-- ===== src/Trust/SiteKey.antt =====
-- app/trust/site_key.py: the key that a site's nodes and its control machine share, and the keys that
-- app/trust/service.py hands to a guest. What the cryptography library answers of an upload, whether a
-- text is base64, and the fingerprint of a key's body are arguments.
use seapath_webui.Common.{
  ℕ, Text, codes, strip, Bool, true, false, Option, none, some, List, [], ◌∷◌, ◌++◌, take, last,
  if◌then◌else◌, nat_eq,
}
use seapath_webui.Common.Lines.{fields, join, blank, newline}

pub record SiteKey : Type 0 where
  pub key_type : Text
  pub fingerprint : Text

-- The two files of the key, where they are there.
pub record KeyFiles : Type 0 where
  pub private_file : Option Text
  pub public_file : Option Text

-- What the library answers of an upload: the public half, or why there is none.
pub data Loaded : Type 0 where
  loaded : (public_half : Text) → Loaded
  needs_passphrase not_a_key : Loaded

abbrev ends_in_newline : Option ℕ → Bool
ends_in_newline none = false
ends_in_newline (some c) = nat_eq c newline

unfoldable pub install : Loaded → Text → KeyFiles → KeyFiles × Bool
install needs_passphrase material files = (files, false)
install not_a_key material files = (files, false)
install (loaded public_half) material files = (
  record {
    private_file =
        some (if ends_in_newline (last material) then material else material ++ newline ∷ []);
    public_file = some (public_half ++ newline ∷ []);
  },
  true,
)

abbrev is_there : Option Text → Bool
is_there none = false
is_there (some content) = true

-- Whether there was one.
unfoldable pub remove : KeyFiles → KeyFiles × Bool
remove files = (record { private_file = none; public_file = none }, is_there (files.private_file))

pub record OfferedKey : Type 0 where
  pub is_site : Bool
  pub line : Text
  pub offered_fingerprint : Text

module _ (decodes : Text → Bool) (fingerprint_of_body : Text → Text) where
  abbrev described : List Text → Option SiteKey
  described [] = none
  described (kind ∷ []) = none
  described (kind ∷ body ∷ rest) =
      if decodes body
      then some (record { key_type = kind; fingerprint = fingerprint_of_body body })
      else none

  -- The installed key, or none.
  unfoldable pub describe : KeyFiles → Option SiteKey
  unfolding strip fields
  describe files = elim (files.public_file) [
    | none ↦ none
    | some content ↦ described (fields (strip content))
  ]

  abbrev site_offer : Option Text → Option SiteKey → List OfferedKey
  site_offer none site = []
  site_offer (some content) none = []
  site_offer (some content) (some site) =
      (record {
        is_site = true;
        line = join (codes " ") (take 2 (fields content)) ++ blank ∷ codes "seapath-site-key";
        offered_fingerprint = site.fingerprint;
      })
      ∷ []

  -- The key lines a guest's seed installs: this node's own, then the site's where one is installed.
  unfoldable pub guest_keys : Text → Text → Text → KeyFiles → List OfferedKey
  unfolding describe join fields
  guest_keys own_key own_fingerprint hostname files =
      (record {
        is_site = false;
        line = own_key ++ blank ∷ (codes "seapath-webui@" ++ hostname);
        offered_fingerprint = own_fingerprint;
      })
      ∷ site_offer (files.public_file) (describe files)
