-- ===== src/Core/Sessions.antt =====
-- app/core/sessions.py. Clock readings are numbers of one fixed unit; the tokens that
-- `secrets.token_urlsafe` draws are arguments of `create`. The HMAC is a parameter.
pub mod Laws
pub mod Cookies
use seapath_webui.Common.{
  ℕ, ◌+◌, Text, codes, ◌==◌, has_char, is_ascii, partition, filter, ltb, leb, Bool, true, false,
  ◌&&◌, Option, none, some, List, [], ◌∷◌, ◌++◌, if◌then◌else◌,
}
use seapath_webui.Common.Dict.{Dict, lookup, insert, remove}
use seapath_webui.Core.Auth.{Role, User}

pub record Session : Type 0 where
  pub id : Text
  pub username : Text
  pub role : Role
  pub csrf_token : Text
  pub created_at : ℕ
  pub expires_at : ℕ

-- Session.user
unfoldable pub session_user : Session → User
session_user session = record { username = session.username; role = session.role }

pub record SessionStore : Type 0 where
  pub secret : Text
  pub ttl : ℕ
  pub sessions : Dict Session

-- The body of `_purge`: a loop over a snapshot of the items.
unfoldable pub purge_items : ℕ → Dict Session → Dict Session → Dict Session
purge_items now [] sessions = sessions
purge_items now ((session_id, session) ∷ items) sessions =
    purge_items now items
      (if leb session.expires_at now then remove session_id sessions else sessions)

unfoldable pub purge : ℕ → SessionStore → SessionStore
unfolding purge_items
purge now store = record store { sessions = purge_items now store.sessions store.sessions }

-- `now` is the reading of the clock, `id` and `csrf_token` the two tokens drawn.
unfoldable pub new_session : User → ℕ → ℕ → Text → Text → Session
new_session user ttl now id csrf_token = record {
  id = id;
  username = user.username;
  role = user.role;
  csrf_token = csrf_token;
  created_at = now;
  expires_at = now + ttl;
}

unfoldable pub create : User → ℕ → Text → Text → SessionStore → Session × SessionStore
unfolding new_session
create user now id csrf_token store =
    let session = new_session user store.ttl now id csrf_token in
    (session, purge now (record store { sessions = insert session.id session store.sessions }))

live : ℕ → Option Session → SessionStore → Option Session × SessionStore
live now none store = (none, store)
live now (some session) store =
    if leb session.expires_at now
    then (none, record store { sessions = remove session.id store.sessions })
    else (some session, store)

unfoldable pub get : Text → ℕ → SessionStore → Option Session × SessionStore
unfolding live
get session_id now store = live now (lookup session_id store.sessions) store

unfoldable pub delete : Text → SessionStore → SessionStore
delete session_id store = record store { sessions = remove session_id store.sessions }

-- `hmac.compare_digest` takes two texts of ASCII characters, and raises a TypeError for any other.
pub data Compared : Type 0 where
  compared : Bool → Compared
  type_error : Compared

unfoldable pub compare_digest : Text → Text → Compared
compare_digest a b = if is_ascii a && is_ascii b then compared (a == b) else type_error

-- What reading a cookie gives: an answer, or the TypeError passed on.
pub data Read (A : Type 0) : Type 0 where
  read : A → Read A
  raised : Read A

accept : Text → Compared → Read (Option Text)
accept session_id type_error = raised
accept session_id (compared same) = read (if same then some session_id else none)

fetched : ℕ → SessionStore → Read (Option Text) → Read (Option Session) × SessionStore
fetched now store raised = (raised, store)
fetched now store (read none) = (read none, store)
fetched now store (read (some session_id)) =
    let (found, after) = get session_id now store in (read found, after)

-- `hmac` is the hexadecimal HMAC-SHA256 of a message under a key.
module _ (hmac : Text → Text → Text) where
  -- `session_id.encode("ascii", "ignore")` drops what is not ASCII.
  unfoldable pub signature : SessionStore → Text → Text
  signature store session_id = hmac store.secret (filter (λ c. ltb c 128) session_id)

  unfoldable pub sign : SessionStore → Text → Text
  sign store session_id = session_id ++ (codes "." ++ signature store session_id)

  checked : SessionStore → Option (Text × Text) → Read (Option Text)
  unfolding accept compare_digest
  checked store none = read none
  checked store (some (session_id, given)) =
      accept session_id (compare_digest given (signature store session_id))

  unfoldable pub unsign : SessionStore → Text → Read (Option Text)
  unfolding checked
  unsign store cookie = checked store (partition b'.' cookie)

  -- `if not cookie_value`: an absent cookie and an empty one.
  unfoldable pub resolve : Option Text → ℕ → SessionStore → Read (Option Session) × SessionStore
  unfolding fetched unsign
  resolve none now store = (read none, store)
  resolve (some []) now store = (read none, store)
  resolve (some (c ∷ rest)) now store = fetched now store (unsign store (c ∷ rest))
