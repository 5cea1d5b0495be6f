-- ===== src/Core/Security.antt =====
-- app/core/security.py: who is calling, may they, and is this a forgery. The part of the
-- application's state that these functions touch is `App`; a request gives the readings of the two
-- clocks beside its cookie, method and header.
pub mod Laws
use seapath_webui.Common.{
  ℕ, Text, codes, ◌==◌, Bool, true, false, not, ◌&&◌, Option, none, some, List, [], ◌∷◌,
  if◌then◌else◌,
}
use seapath_webui.Common.Names.{mem}
use seapath_webui.Core.Auth.{Role, User, can}
use seapath_webui.Core.Sessions.{
  Session, SessionStore, session_user, Compared, compared, type_error, compare_digest, Read, read,
  raised, resolve,
}
use seapath_webui.Core.Activity.{Activity, mark}

pub record App : Type 0 where
  pub sessions : SessionStore
  -- absent from an application built without one
  pub activity : Option Activity

pub record Request : Type 0 where
  pub method : Text
  -- the cookie under this node's session name
  pub cookie : Option Text
  -- the CSRF header, empty where it is absent
  pub supplied : Text
  -- `time.time()` and `time.monotonic()` as the request is handled
  pub now : ℕ
  pub monotonic : ℕ

abbrev pub safe_methods : List Text
safe_methods = codes "GET" ∷ codes "HEAD" ∷ codes "OPTIONS" ∷ codes "TRACE" ∷ []

marked : ℕ → Option Activity → Option Activity
marked monotonic none = none
marked monotonic (some activity) = some (mark monotonic activity)

-- What a dependency gives the handler, or how it refuses.
pub data Access (A : Type 0) : Type 0 where
  granted : A → Access A
  authentication_required : Access A
  permission_denied : Role → Role → Access A
  server_error : Access A

pub data Answer : Type 0 where
  forwarded csrf_failed failed_inside : Answer

noted : ℕ → App → Read (Option Session) × SessionStore → Read (Option Session) × App
unfolding marked
noted monotonic app (read (some session), after) =
    (read (some session), record { sessions = after; activity = marked monotonic app.activity })
noted monotonic app (answer, after) = (answer, record app { sessions = after })

to_user : Read (Option Session) → Access User
to_user raised = server_error
to_user (read none) = authentication_required
to_user (read (some session)) = granted (session_user session)

allowed : Role → Access User → Access User
allowed required (granted user) =
    if can user.role required then granted user else permission_denied required user.role
allowed required refusal = refusal

given : Option Text → Bool
given none = false
given (some []) = false
given (some (c ∷ rest)) = true

compared_answer : Compared → Answer
compared_answer type_error = failed_inside
compared_answer (compared true) = forwarded
compared_answer (compared false) = csrf_failed

csrf_answer : Text → Read (Option Session) → Answer
unfolding compared_answer
csrf_answer supplied raised = failed_inside
csrf_answer supplied (read none) = forwarded
csrf_answer supplied (read (some session)) =
    compared_answer (compare_digest supplied session.csrf_token)

-- `hmac` is the hexadecimal HMAC-SHA256 of a message under a key.
module _ (hmac : Text → Text → Text) where
  unfoldable pub current_session : Request → App → Read (Option Session) × App
  unfolding noted
  current_session request app =
      noted request.monotonic app (resolve hmac request.cookie request.now app.sessions)

  unfoldable pub require_user : Request → App → Access User × App
  unfolding to_user session_user
  require_user request app =
      let (answer, after) = current_session request app in (to_user answer, after)

  unfoldable pub require_role : Role → Request → App → Access User × App
  unfolding allowed require_user
  require_role required request app =
      let (access, after) = require_user request app in (allowed required access, after)

  -- `CsrfMiddleware.dispatch`, up to the call of the next handler.
  unfoldable pub dispatch : Request → App → Answer × App
  unfolding given csrf_answer
  dispatch request app =
      if not (mem request.method safe_methods) && given request.cookie
      then (let (answer, after) = current_session request app in
          (csrf_answer request.supplied answer, after))
      else (forwarded, app)
