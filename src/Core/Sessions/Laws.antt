-- ===== src/Core/Sessions/Laws.antt =====
-- What the session store holds after each operation, and which cookies it answers.
use seapath_webui.Common.{
  ℕ, Text, ◌==◌, eq_iff, leb, ◌≡◌, refl, Bool, false, ◌&&◌, ◌||◌, Option, none, some, [], ◌∷◌,
  if◌then◌else◌, arith, Bool-cases, inl, inr,
}
use seapath_webui.Common.Dict.{
  Dict, lookup, insert, remove, has, lookup-insert, lookup-remove, has-insert, has-remove,
}
use seapath_webui.Core.Auth.{User}
use seapath_webui.Core.Sessions.{
  Session, SessionStore, purge_items, purge, new_session, create, get, delete, live,
}

-- A dictionary has each key once, and each session stands under its own identifier.
abbrev pub IsKeyed : Dict Session → Type 0
IsKeyed [] = Unit
IsKeyed ((k, s) ∷ d) = (s.id ≡ k) × (has k d ≡ false) × IsKeyed d

abbrev dead : ℕ → Option Session → Bool
dead now none = false
dead now (some s) = leb s.expires_at now

expired_in : ℕ → Text → Dict Session → Bool
expired_in now k [] = false
expired_in now k ((j, s) ∷ items) = (j == k && leb s.expires_at now) || expired_in now k items

expired_in-absent :
    (now : ℕ) (k : Text) (d : Dict Session) → has k d ≡ false → expired_in now k d ≡ false
unfolding expired_in has
expired_in-absent now k [] h = refl
expired_in-absent now k ((j, s) ∷ d) h = ground (arith, expired_in-absent now k d)

expired_in-dead :
    (now : ℕ) (k : Text) (d : Dict Session) → IsKeyed d → expired_in now k d ≡ dead now (lookup k d)
unfolding expired_in lookup
expired_in-dead now k [] h = refl
expired_in-dead now k ((j, s) ∷ d) h = elim (Bool-cases (j == k)) [
  | inl e ↦ ground (arith, expired_in-absent now k d, eq_iff j k)
  | inr n ↦ ground (arith, expired_in-dead now k d h.2)
]

lookup-purge_items :
    (now : ℕ) (k : Text) (items d : Dict Session)
    → lookup k (purge_items now items d) ≡ (if expired_in now k items then none else lookup k d)
unfolding purge_items expired_in
lookup-purge_items now k [] d = refl
lookup-purge_items now k ((j, s) ∷ items) d = ground (
  arith,
  lookup-purge_items now k items (remove j d),
  lookup-purge_items now k items d,
  lookup-remove j k d,
)

-- What `_purge` leaves under a key.
abbrev pub unless_expired : ℕ → Option Session → Option Session
unless_expired now none = none
unless_expired now (some s) = if leb s.expires_at now then none else some s

lookup-purge :
    (now : ℕ) (k : Text) (d : Dict Session)
    → IsKeyed d
    → lookup k (purge_items now d d) ≡ unless_expired now (lookup k d)
lookup-purge now k d h = ground (arith, lookup-purge_items now k d d, expired_in-dead now k d h)

IsKeyed-remove : (k : Text) (d : Dict Session) → IsKeyed d → IsKeyed (remove k d)
unfolding remove
IsKeyed-remove k [] h = tt
IsKeyed-remove k ((j, s) ∷ d) h = ground (arith, IsKeyed-remove k d h.2, has-remove k j d)

IsKeyed-insert : (s : Session) (d : Dict Session) → IsKeyed d → IsKeyed (insert s.id s d)
unfolding insert has
IsKeyed-insert s [] h = (refl, refl, tt)
IsKeyed-insert s ((j, w) ∷ d) h =
    ground (arith, IsKeyed-insert s d h.2, has-insert s.id j s d, eq_iff j s.id, eq_iff s.id j)

IsKeyed-purge_items :
    (now : ℕ) (items d : Dict Session) → IsKeyed d → IsKeyed (purge_items now items d)
unfolding purge_items
IsKeyed-purge_items now [] d h = h
IsKeyed-purge_items now ((j, s) ∷ items) d h = elim (Bool-cases (leb s.expires_at now)) [
  | inl e ↦ rw e (IsKeyed-purge_items now items (remove j d) (IsKeyed-remove j d h))
  | inr e ↦ rw e (IsKeyed-purge_items now items d h)
]

module _ (store : SessionStore) (valid : IsKeyed store.sessions) where
  -- `create` keeps a store well formed that is: each key once, each session under its own identifier.
  pub create-IsKeyed :
      (user : User) (now : ℕ) (id csrf_token : Text)
      → IsKeyed (create user now id csrf_token store).1.sessions
  unfolding create purge new_session
  create-IsKeyed user now id csrf_token =
      let session = new_session user store.ttl now id csrf_token in
      let inserted = insert id session store.sessions in
      IsKeyed-purge_items now inserted inserted (IsKeyed-insert session store.sessions valid)

  -- `get`, which drops an expired session, keeps a store well formed that is: each key once, each
  -- session under its own identifier.
  pub get-IsKeyed : (id : Text) (now : ℕ) → IsKeyed (get id now store).1.sessions
  unfolding get
  get-IsKeyed id now = live_keyed (lookup id store.sessions)
    where
      live_keyed : (o : Option Session) → IsKeyed (live now o store).1.sessions
      live_keyed none = valid
      live_keyed (some s) = ground (arith, IsKeyed-remove s.id store.sessions valid)

  pub delete-IsKeyed : (id : Text) → IsKeyed (delete id store).sessions
  unfolding delete
  delete-IsKeyed id = IsKeyed-remove id store.sessions valid

  -- After `create` the store holds the new session under its identifier, unless its lifetime is 0,
  -- and under each other key the session it held, unless that has expired.
  pub lookup-create :
      (user : User) (now : ℕ) (id csrf_token k : Text)
      → lookup k (create user now id csrf_token store).1.sessions
        ≡ unless_expired now (
            if id == k
            then some (create user now id csrf_token store).0
            else lookup k store.sessions)
  unfolding create purge new_session
  lookup-create user now id csrf_token k =
      let session = new_session user store.ttl now id csrf_token in
      let inserted = insert id session store.sessions in
      rw (lookup-purge now k inserted (IsKeyed-insert session store.sessions valid))
        (rw (lookup-insert id k session store.sessions))
