-- ===== src/Trust/Service.antt =====
-- app/trust/service.py: the relation that a node has with itself. The key pair of the node is made on
-- first use, by code outside this repository: the pair that would be made, and the fingerprint of a
-- public key, are arguments.
pub mod Relation
use seapath_webui.Common.{
  Text, Bool, true, Option, none, some, List, [], ◌∷◌, ◌++◌, filter, not, is_empty, codes, ◌>>=◌,
}
use seapath_webui.Common.Names.{mem, sorted, to_set}
use seapath_webui.Trust.AuthorizedKeys.{
  AuthorizedKey, Disk, Fault, Outcome, comment_prefix, install, remove, installed,
}

pub record Trust : Type 0 where
  -- The public key of the node's own pair, where the pair is there.
  pub self_key : Option Text
  pub disk : Disk

pub record TrustRelation : Type 0 where
  pub comment : Text
  pub peer : Text
  pub fingerprint : Text
  pub from_addresses : List Text
  pub installed : Bool

abbrev pub self_comment : Text → Text
self_comment hostname = comment_prefix ++ (hostname ++ (codes "->" ++ hostname))

abbrev loopback : List Text
loopback = codes "127.0.0.1" ∷ codes "::1" ∷ []

-- The `from=` list, deduplicated and ordered so the line is stable.
unfoldable pub restriction_addresses : List Text → List Text
unfolding sorted to_set filter
restriction_addresses addresses =
    sorted (to_set (filter (λ a. not (is_empty a)) addresses ++ loopback))

-- `ensure_key_pair`: the pair that is there, or the one that is made.
abbrev pub ensure_key_pair : Text → Option Text → Text
ensure_key_pair made none = made
ensure_key_pair made (some key) = key

unfoldable pub self_line : Text → Text → List Text → AuthorizedKey
unfolding restriction_addresses
self_line hostname key addresses = record {
  comment = self_comment hostname;
  public_key = key;
  from_addresses = restriction_addresses addresses;
  allow_pty = true;
}

-- The state after, and what became of the line.
unfoldable pub ensure_self_trust : Option Fault → Text → Text → List Text → Trust → Trust × Outcome
unfolding self_line install
ensure_self_trust fault made hostname addresses trust =
    let key = ensure_key_pair made (trust.self_key) in
    let (disk, outcome) = install fault (self_line hostname key addresses) (trust.disk) in
    (record { self_key = some key; disk = disk }, outcome)

abbrev pub relation : (Text → Text) → Text → List Text → Option Text → List TrustRelation
relation fingerprint hostname present none = []
relation fingerprint hostname present (some key) =
    record {
      comment = self_comment hostname;
      peer = hostname;
      fingerprint = fingerprint key;
      from_addresses = [];
      installed = mem (self_comment hostname) present;
    }
    ∷ []

-- What is provisioned right now, read from the file, or MissingAccount.
unfoldable pub relations : (Text → Text) → Text → Trust → Option (List TrustRelation)
unfolding mem installed
relations fingerprint hostname trust = installed (trust.disk) >>= λ present.
    some (relation fingerprint hostname present (trust.self_key))

unfoldable pub revoke : Option Fault → Text → Trust → Trust × Outcome
unfolding remove
revoke fault comment trust =
    let (disk, outcome) = remove fault comment (trust.disk) in
    (record trust { disk = disk }, outcome)
