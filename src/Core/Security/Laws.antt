-- ===== src/Core/Security/Laws.antt =====
-- Which requests are let through.
use seapath_webui.Common.{
  ap, ◌↔◌, ◌<◌, Text, eq_iff, eq_refl, is_ascii, ◌≡◌, refl, true, false, Option, none, some, [],
  ◌∷◌, arith,
}
use seapath_webui.Common.Dict.{lookup}
use seapath_webui.Common.Names.{mem}
use seapath_webui.Core.Auth.{Role, User, can}
use seapath_webui.Core.Sessions.{
  Session, SessionStore, session_user, compare_digest, Read, read, raised, resolve, sign,
}
use seapath_webui.Core.Sessions.Laws.{IsKeyed}
use seapath_webui.Core.Sessions.Cookies.{resolve_sound}
use seapath_webui.Core.Security.{
  App, Request, safe_methods, granted, forwarded, current_session, noted, require_role, dispatch,
  csrf_answer, given, to_user, allowed,
}

csrf_answer-forwarded :
    (supplied : Text) (session : Session)
    → is_ascii session.csrf_token ≡ true
    → (csrf_answer supplied (read (some session)) ≡ forwarded) ↔ (supplied ≡ session.csrf_token)
unfolding csrf_answer compare_digest
csrf_answer-forwarded supplied session ascii = (
  λ h. ground (arith, eq_iff supplied session.csrf_token),
  λ e. rw (e, ascii, eq_refl session.csrf_token),
)

module _ (hmac : Text → Text → Text) (request : Request) (app : App) where
  -- A handler that asks for a role is reached only with a live session of the store, of a user whose
  -- role can do what that role can, under a cookie that this node signed.
  pub require_role_sound :
      (required : Role) (cookie : Text) (user : User)
      → IsKeyed app.sessions.sessions
      → request.cookie ≡ some cookie
      → (require_role hmac required request app).0 ≡ granted user
      → (session : Session) × (session_user session ≡ user)
        × (can user.role required ≡ true)
        × (lookup session.id app.sessions.sessions ≡ some session)
        × (cookie ≡ sign hmac app.sessions session.id)
        × (request.now < session.expires_at)
  unfolding require_role current_session
  require_role_sound required cookie user valid here h =
      from (resolve hmac request.cookie request.now app.sessions) refl h
    where
      from :
          (answer : Read (Option Session) × SessionStore)
          → resolve hmac request.cookie request.now app.sessions ≡ answer
          → allowed required (to_user (noted request.monotonic app answer).0) ≡ granted user
          → (session : Session) × (session_user session ≡ user)
            × (can user.role required ≡ true)
            × (lookup session.id app.sessions.sessions ≡ some session)
            × (cookie ≡ sign hmac app.sessions session.id)
            × (request.now < session.expires_at)
      from (raised, after) e k = cc
      from (read none, after) e k = cc
      from (read (some session), after) e k =
          let answered = rw here at e in
          let (signed, held, fresh) =
            resolve_sound hmac app.sessions cookie request.now session valid
              (ap (λ r. r.0) answered) in
          (session, ground arith, ground arith, held, signed, fresh)

  -- A request with an unsafe method that rides on a live session is forwarded exactly when it carries
  -- the session's token, whose characters are ASCII.
  pub dispatch-forwarded :
      (session : Session)
      → mem request.method safe_methods ≡ false
      → (current_session hmac request app).0 ≡ read (some session)
      → is_ascii session.csrf_token ≡ true
      → ((dispatch hmac request app).0 ≡ forwarded) ↔ (request.supplied ≡ session.csrf_token)
  unfolding dispatch
  dispatch-forwarded session unsafe live ascii =
      rw (unsafe, given_of_live request.cookie refl, live)
        (csrf_answer-forwarded request.supplied session ascii)
    where
      given_of_live : (cookie : Option Text) → request.cookie ≡ cookie → given cookie ≡ true
      given_of_live none e = unfold current_session resolve noted in cc (rw e at live)
      given_of_live (some []) e = unfold current_session resolve noted in cc (rw e at live)
      given_of_live (some (c ∷ rest)) e = refl
