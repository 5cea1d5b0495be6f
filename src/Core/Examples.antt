-- ===== src/Core/Examples.antt =====
-- The theorems on accounts, sessions and requests, applied to one node with three groups, one user
-- signed in, and an HMAC that is a fixed text.
use seapath_webui.Common.{
  Text, codes, ◌==◌, ◌<◌, is_ascii, partition, true, Option, none, some, [], ◌∷◌, ◌≡◌, ◌↔◌, refl,
  if◌then◌else◌,
}
use seapath_webui.Common.Dict.{lookup, has}
use seapath_webui.Common.Names.{mem}
use seapath_webui.Core.Auth.{admin, operator, viewer, can, User, GroupEntry, Accounts, RoleSettings}
use seapath_webui.Core.Sessions
use seapath_webui.Core.Sessions.{
  Session, SessionStore, session_user, get, sign, resolve, Read, read,
}
use seapath_webui.Core.Sessions.Laws.{IsKeyed}
use seapath_webui.Core.Sessions.Cookies.{resolve_sound}
use seapath_webui.Core.Security.{App, Request, forwarded, current_session, require_role, dispatch}
use seapath_webui.Core.Security.Laws.{require_role_sound, dispatch-forwarded}

group_entry : Text → Option GroupEntry
group_entry name =
    if name == codes "sudo"
    then some (record { members = codes "ada" ∷ []; gid = 27 })
    else if name == codes "seapath-view"
    then some (record { members = []; gid = 100 })
    else none

abbrev accounts : Accounts
accounts = record {
  getgrnam = group_entry;
  primary_gid = λ username. if username == codes "bob" then some 100 else none;
}

abbrev settings : RoleSettings
settings = record {
  allow_root_login = true;
  admin_group = codes "sudo";
  operator_group = codes "seapath-op";
  viewer_group = codes "seapath-view";
}

hmac : Text → Text → Text
hmac key message = codes "5eaf"

hmac_ascii : (key message : Text) → is_ascii (hmac key message) ≡ true
unfolding hmac is_ascii
hmac_ascii key message = refl

abbrev ada : Session
ada = record {
  id = codes "a1";
  username = codes "ada";
  role = admin;
  csrf_token = codes "t1";
  created_at = 10;
  expires_at = 70;
}

abbrev store : SessionStore
store = record { secret = codes "k"; ttl = 60; sessions = (codes "a1", ada) ∷ [] }

store-IsKeyed : IsKeyed store.sessions
unfolding has
store-IsKeyed = (refl, refl, tt)

abbrev bob : User
bob = record { username = codes "bob"; role = viewer }

abbrev cookie : Text
cookie = codes "a1.5eaf"

resolve_sound_example :
    (cookie ≡ sign hmac store (codes "a1"))
    × (lookup (codes "a1") store.sessions ≡ some ada)
    × (20 < 70)
unfolding resolve hmac get lookup partition is_ascii Sessions.signature ◌==◌
resolve_sound_example = resolve_sound hmac store cookie 20 ada store-IsKeyed refl

abbrev two : SessionStore
two = record store { sessions = (codes "b2", record ada { id = codes "b2" }) ∷ store.sessions }

two-IsKeyed : IsKeyed two.sessions
unfolding has ◌==◌
two-IsKeyed = (refl, refl, store-IsKeyed)

abbrev app : App
app = record { sessions = store; activity = none }

abbrev request : Request
request = record {
  method = codes "POST";
  cookie = some cookie;
  supplied = codes "t1";
  now = 20;
  monotonic = 5;
}

require_role_sound_example :
    (session : Session) × (session_user session ≡ session_user ada)
    × (can admin operator ≡ true)
    × (lookup session.id store.sessions ≡ some session)
    × (cookie ≡ sign hmac store session.id)
    × (20 < session.expires_at)
unfolding require_role resolve hmac get lookup session_user can partition is_ascii
    Sessions.signature ◌==◌ current_session
require_role_sound_example =
    require_role_sound hmac request app operator cookie (session_user ada) store-IsKeyed refl refl

dispatch-forwarded_example : ((dispatch hmac request app).0 ≡ forwarded) ↔ (codes "t1" ≡ codes "t1")
unfolding current_session resolve hmac get lookup mem partition is_ascii Sessions.signature ◌==◌
dispatch-forwarded_example = dispatch-forwarded hmac request app ada refl refl refl
