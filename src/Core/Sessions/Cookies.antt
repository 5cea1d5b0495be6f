-- ===== src/Core/Sessions/Cookies.antt =====
-- The cookie: what `resolve` answers for a cookie that this service signed, and for any other.
use seapath_webui.Common.{
  ℕ, ◌+◌, ◌≤◌, ◌<◌, Text, eq_iff, eq_refl, has_char, is_ascii, partition, partition_append,
  partition_sound, ◌≡◌, ◌≢◌, refl, true, false, Option, none, some, [], ◌∷◌, arith, Option-cases,
  inl, inr, ◌∙◌,
}
use seapath_webui.Common.Dict.{Dict, lookup, lookup-remove}
use seapath_webui.Core.Auth.{User}
use seapath_webui.Core.Sessions.{
  Session, SessionStore, create, new_session, get, delete, live, compare_digest, Read, read, raised,
  signature, sign, unsign, accept, checked, fetched, resolve,
}
use seapath_webui.Core.Sessions.Laws.{IsKeyed, delete-IsKeyed, lookup-create}

lookup-id : (k : Text) (d : Dict Session) (s : Session) → IsKeyed d → lookup k d ≡ some s → s.id ≡ k
unfolding lookup
lookup-id k [] s h e = cc
lookup-id k ((j, w) ∷ d) s h e = ground (arith, eq_iff j k, lookup-id k d s h.2)

get-live :
    (k : Text) (now : ℕ) (store : SessionStore) (s : Session)
    → (get k now store).0 ≡ some s
    → (lookup k store.sessions ≡ some s) × (now < s.expires_at)
unfolding get live
get-live k now store s h = ground arith

module _ (hmac : Text → Text → Text) where
  checked-eq-some :
      (store : SessionStore) (given mac id : Text)
      → checked hmac store (some (given, mac)) ≡ read (some id)
      → (given ≡ id) × (mac ≡ signature hmac store id)
  unfolding checked
  checked-eq-some store given mac id h = ground (arith, eq_iff mac (signature hmac store given))

  -- `unsign` answers an identifier only for the very cookie that `sign` makes of it.
  pub unsign-sign_only :
      (store : SessionStore) (cookie id : Text)
      → unsign hmac store cookie ≡ read (some id)
      → cookie ≡ sign hmac store id
  unfolding unsign sign
  unsign-sign_only store cookie id h = elim (Option-cases (partition b'.' cookie)) [
    | inl absent ↦ none_read (rw absent at h)
    | inr (parts, found) ↦
        let (same, mac) = checked-eq-some store parts.0 parts.1 id (rw found at h) in
        cc (partition_sound b'.' cookie parts.0 parts.1 found)
  ]
    where
      none_read : checked hmac store none ≡ read (some id) → cookie ≡ sign hmac store id
      none_read e = unfold checked in cc

  -- A session that `resolve` answers is one that the store holds, that has not expired, and that the
  -- cookie was signed for: the cookie is the one that `sign` makes of its identifier.
  pub resolve_sound :
      (store : SessionStore) (cookie : Text) (now : ℕ) (session : Session)
      → IsKeyed store.sessions
      → (resolve hmac (some cookie) now store).0 ≡ read (some session)
      → (cookie ≡ sign hmac store session.id)
        × (lookup session.id store.sessions ≡ some session)
        × (now < session.expires_at)
  unfolding resolve fetched
  resolve_sound store [] now session valid h = cc
  resolve_sound store (c ∷ rest) now session valid h = from (unsign hmac store (c ∷ rest)) refl h
    where
      from :
          (answer : Read (Option Text))
          → unsign hmac store (c ∷ rest) ≡ answer
          → (fetched now store answer).0 ≡ read (some session)
          → (c ∷ rest ≡ sign hmac store session.id)
            × (lookup session.id store.sessions ≡ some session)
            × (now < session.expires_at)
      from raised e k = cc
      from (read none) e k = cc
      from (read (some id)) e k =
          let (found, fresh) = get-live id now store session (ground arith) in
          let same = lookup-id id store.sessions session valid found in
          (rw same (unsign-sign_only store (c ∷ rest) id e), simp same found, fresh)

  -- After `delete` no cookie is answered by a session of that identifier.
  pub resolve-delete :
      (store : SessionStore) (cookie id : Text) (now : ℕ) (session : Session)
      → IsKeyed store.sessions
      → (resolve hmac (some cookie) now (delete id store)).0 ≡ read (some session)
      → session.id ≢ id
  resolve-delete store cookie id now session valid h same =
      let after = delete id store in
      let (_, found, _) =
        resolve_sound after cookie now session (delete-IsKeyed store valid id) h in
      unfold delete in
      ground (arith, lookup-remove id session.id store.sessions, eq_iff id session.id, found)

  module _ (hmac_ascii : (key message : Text) → is_ascii (hmac key message) ≡ true) where
    -- A signed identifier that holds no dot is read back.
    pub unsign-sign :
        (store : SessionStore) (id : Text)
        → has_char b'.' id ≡ false
        → unsign hmac store (sign hmac store id) ≡ read (some id)
    unfolding unsign sign checked accept compare_digest
    unsign-sign store id h =
        let mac = signature hmac store id in
        let ascii : is_ascii mac ≡ true = unfold signature in hmac_ascii store.secret _ in
        rw (partition_append b'.' id mac h) (rw (ascii, eq_refl mac))

    -- A session just created is what its signed cookie is answered by, until its lifetime is over,
    -- and the answer leaves the store as it is.
    pub resolve-create :
        (user : User) (now later : ℕ) (id csrf_token : Text) (store : SessionStore)
        → IsKeyed store.sessions
        → has_char b'.' id ≡ false
        → now ≤ later
        → later < now + store.ttl
        → let (session, after) = create user now id csrf_token store in
          resolve hmac (some (sign hmac after id)) later after ≡ (read (some session), after)
    resolve-create user now later id csrf_token store valid dotless from to =
        resolved (sign hmac after id) refl (unsign-sign after id dotless)
      where
        after : SessionStore
        after = (create user now id csrf_token store).1

        held : lookup id after.sessions ≡ some (create user now id csrf_token store).0
        held =
            lookup-create store valid user now id csrf_token id
            ∙ (unfold create new_session in ground (arith, eq_refl id))

        resolved :
            (cookie : Text)
            → cookie ≡ sign hmac after id
            → unsign hmac after cookie ≡ read (some id)
            → resolve hmac (some cookie) later after
              ≡ (read (some (create user now id csrf_token store).0), after)
        resolved [] e u = unfold unsign checked partition in cc
        resolved (c ∷ rest) e u =
            unfold resolve fetched get live in
            rw (u, held) (unfold create new_session in ground arith)
