-- ===== src/Auth/Sessions.antt =====
-- The life of users and sessions.
use ugem.Prelude.{
  ℕ, ◌≡◌, String, Bool, true, false, none, some, List, ◌==◌, eq_iff, if◌then◌else◌, ltb, get,
  delete, get-put, eq_refl, arith, Option-cases, inl, inr,
}
use ugem.Types.{other, Result, ok, err}
use ugem.Auth.{
  Session, Authenticator, Readings, Permission, add_user, user_for, remove_user, authenticate,
  validate_session, has_permission,
}

abbrev pub is_ok {ℓ} : {A : Type ℓ} → Result A → Bool
is_ok (ok _) = true
is_ok (err _) = false

authenticate-ok :
    (hash : String → String) (a a' : Authenticator) (username password : String) (at : Readings)
    (session : Session)
    → authenticate hash a username password at ≡ (a', ok session)
    → (get a'.sessions session.token ≡ some session)
      × ((token : String)
          → get a'.sessions token
            ≡ (if session.token == token then some session else get a.sessions token))
unfolding authenticate
authenticate-ok hash a a' username password at session h = (
  ground (arith, get-put a.sessions session.token session.token session, eq_refl session.token),
  λ token. ground (arith, get-put a.sessions session.token token session),
)

-- The session that `Authenticate` returns is valid for its token up to its expiry and not after it,
-- when it is removed; every other token has the session that it had.
pub validate_session-authenticate :
    (hash : String → String) (a a' : Authenticator) (username password token : String)
    (at : Readings) (session : Session) (now : ℕ)
    → authenticate hash a username password at ≡ (a', ok session)
    → (validate_session a' session.token now ≡ (
        if ltb session.expires_at now
        then (
          record a' { sessions = delete a'.sessions session.token },
          err (other "session expired"),
        )
        else (a', ok session)))
      × (get a'.sessions token
          ≡ (if session.token == token then some session else get a.sessions token))
unfolding validate_session
validate_session-authenticate hash a a' username password token at session now h =
    let (here, there) = authenticate-ok hash a a' username password at session h in
    (ground (arith, here), there token)

-- After `AddUser` has accepted a user, `Authenticate` lets the user in with exactly the passwords
-- that have the hash of the given one, and any other user as before.
authenticate-add_user :
    (hash : String → String) (a a' : Authenticator) (username password other_name tried : String)
    (roles : List String) (at now : Readings)
    → add_user hash a username password roles at ≡ (a', none)
    → is_ok (authenticate hash a' other_name tried now).1 ≡ (
        if username == other_name
        then hash password == hash tried
        else is_ok (authenticate hash a other_name tried now).1)
unfolding add_user authenticate
authenticate-add_user hash a a' username password other_name tried roles at now h = ground (
  arith,
  get-put a.users username other_name (user_for hash username password roles at),
  eq_iff username other_name,
)

-- After `RemoveUser` the user cannot authenticate with any password and has no permission, but the
-- sessions that were open stay valid as they were.
remove_user_lem :
    (hash : String → String) (a a' : Authenticator) (username password token : String)
    (at : Readings) (permission : Permission) (now : ℕ)
    → remove_user a username ≡ (a', none)
    → (is_ok (authenticate hash a' username password at).1 ≡ false)
      × (has_permission a' username permission ≡ false)
      × ((validate_session a' token now).1 ≡ (validate_session a token now).1)
unfolding remove_user authenticate has_permission validate_session
remove_user_lem hash a a' username password token at permission now h =
    elim (Option-cases (get a.users username)) [
      | inl none_there ↦ absurd (ground (arith, none_there))
      | inr (user, there) ↦
          let gone = get-put a.users username username (record user { active = false }) in
          (
            ground (arith, there, gone, eq_refl username),
            ground (arith, there, gone, eq_refl username),
            ground (arith, there),
          )
    ]
