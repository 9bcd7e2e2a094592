-- ===== src/Auth/Denied.antt =====
-- What `CheckPermission` answers to the sessions that `Authenticate` opens.
use package.text.Mathlib.Text.{starts_with}
use package.text.Mathlib.TextPositions.{starts_with-append}
use ugem.Prelude.{
  not, ◌||◌, ltb, ℕ, ◌≤◌, ◌≡◌, String, Bool, true, false, Option, none, some, GoMap, ◌==◌, eq_iff,
  get, get-put, delete, put, get-delete, arith, Option-cases, Bool-cases, inl, inr, subst, sym,
  List,
}
use ugem.Prelude.Decimal.{decimal}
use ugem.Types.{other}
use ugem.Auth.{
  User, Session, Authenticator, new_authenticator, Permission, Readings, add_user, user_for,
  remove_user, authenticate, session_for, validate_session, revoke_session, add_role, check_user,
  check_permission,
}

-- how the ids of users begin
abbrev is_id : String → Bool
is_id s = starts_with s "user-"

-- One call; `AddUser` is given no name that begins like an id.
pub data Step (hash : String → String) (len : String → ℕ) (a : Authenticator)
    : Authenticator → Type 0 where
  adding :
      (username password : String) (roles : List String) (at : Readings)
      → is_id username ≡ false
      → Step hash len a (add_user hash a username password roles at).0
  removing : (username : String) → Step hash len a (remove_user a username).0
  authenticating :
      (username password : String) (at : Readings)
      → Step hash len a (authenticate hash a username password at).0
  validating : (token : String) (now : ℕ) → Step hash len a (validate_session a token now).0
  revoking : (token : String) → Step hash len a (revoke_session len a token).0
  granting :
      (name : String) (permissions : List String) → Step hash len a (add_role a name permissions).0
  checking :
      (token : Option String) (permission : Permission) (now : ℕ)
      → Step hash len a (check_permission a token permission now).0

pub data Reach (hash : String → String) (len : String → ℕ) : Authenticator → Type 0 where
  fresh : Reach hash len new_authenticator
  next : {a b : Authenticator} → Reach hash len a → Step hash len a b → Reach hash len b

-- Users have ids, but no names, that begin like an id; sessions name their users by the ids.
abbrev Users : GoMap User → Type 0
Users users =
    (name : String) (user : User)
    → get users name ≡ some user
    → (is_id user.id ≡ true) × (is_id name ≡ false)

abbrev Sessions : GoMap Session → Type 0
Sessions sessions =
    (token : String) (session : Session)
    → get sessions token ≡ some session
    → is_id session.user_id ≡ true

record IsApart (a : Authenticator) : Type 0 where
  users : Users a.users
  sessions : Sessions a.sessions

put-Users :
    (users : GoMap User) (name : String) (user : User)
    → Users users
    → is_id user.id ≡ true
    → is_id name ≡ false
    → Users (put users name user)
put-Users users name user h e n k u there = elim (Bool-cases (name == k)) [
  | inl same ↦ ground (arith, get-put users name k user, (eq_iff name k).0 same)
  | inr unlike ↦ h k u (ground (arith, get-put users name k user))
]

put-Sessions :
    (sessions : GoMap Session) (token : String) (session : Session)
    → Sessions sessions
    → is_id session.user_id ≡ true
    → Sessions (put sessions token session)
put-Sessions sessions token session h e k s there = elim (Bool-cases (token == k)) [
  | inl same ↦ ground (arith, get-put sessions token k session)
  | inr unlike ↦ h k s (ground (arith, get-put sessions token k session))
]

delete-Sessions :
    (sessions : GoMap Session) (token : String)
    → Sessions sessions
    → Sessions (delete sessions token)
delete-Sessions sessions token h k s there = elim (Bool-cases (token == k)) [
  | inl same ↦ absurd (ground (arith, get-delete sessions token k))
  | inr unlike ↦ h k s (ground (arith, get-delete sessions token k))
]

add_user-IsApart :
    (hash : String → String) (a : Authenticator) (username password : String) (roles : List String)
    (at : Readings)
    → is_id username ≡ false
    → IsApart a
    → IsApart (add_user hash a username password roles at).0
unfolding add_user
add_user-IsApart hash a username password roles at n h =
    elim (Option-cases (get a.users username)) [
      | inr (user, there) ↦ rw (add_user, there) h
      | inl missing ↦
          rw (add_user, missing)
            (record {
              users =
                  put-Users a.users username (user_for hash username password roles at) h.users
                    (starts_with-append "user-" (decimal at.id_at)) n;
              sessions = h.sessions;
            })
    ]

remove_user-IsApart :
    (a : Authenticator) (username : String) → IsApart a → IsApart (remove_user a username).0
unfolding remove_user
remove_user-IsApart a username h = elim (Option-cases (get a.users username)) [
  | inl missing ↦ rw (remove_user, missing) h
  | inr (user, there) ↦
      let (id, name) = h.users username user there in
      rw (remove_user, there)
        (record {
          users = put-Users a.users username (record user { active = false }) h.users id name;
          sessions = h.sessions;
        })
]

authenticate-IsApart :
    (hash : String → String) (a : Authenticator) (username password : String) (at : Readings)
    → IsApart a
    → IsApart (authenticate hash a username password at).0
unfolding authenticate
authenticate-IsApart hash a username password at h = elim (Option-cases (get a.users username)) [
  | inl missing ↦ rw (authenticate, missing) h
  | inr (user, there) ↦
      elim (Bool-cases (not user.active || not (user.password == hash password))) [
        | inl refused ↦ rw (authenticate, there, refused) h
        | inr passes ↦
            let (id, name) = h.users username user there in
            let session = session_for hash user username at in
            rw (authenticate, there, passes)
              (record {
                users =
                    put-Users a.users username (record user { last_login = at.login_at }) h.users id
                      name;
                sessions = put-Sessions a.sessions session.token session h.sessions id;
              })
      ]
]

validate_session-IsApart :
    (a : Authenticator) (token : String) (now : ℕ)
    → IsApart a
    → IsApart (validate_session a token now).0
unfolding validate_session
validate_session-IsApart a token now h = elim (Option-cases (get a.sessions token)) [
  | inl missing ↦ rw (validate_session, missing) h
  | inr (session, there) ↦ elim (Bool-cases (ltb session.expires_at now)) [
    | inl over ↦
        rw (validate_session, there, over)
          (record { users = h.users; sessions = delete-Sessions a.sessions token h.sessions })
    | inr live ↦ rw (validate_session, there, live) h
  ]
]

add_role-IsApart :
    (a : Authenticator) (name : String) (permissions : List String)
    → IsApart a
    → IsApart (add_role a name permissions).0
unfolding add_role
add_role-IsApart a name permissions h = elim (Option-cases (get a.roles name)) [
  | inl missing ↦ rw (add_role, missing) (record { users = h.users; sessions = h.sessions })
  | inr (role, there) ↦ rw (add_role, there) h
]

check_permission_state :
    (a : Authenticator) (token : String) (permission : Permission) (now : ℕ)
    → (check_permission a (some token) permission now).0 ≡ (validate_session a token now).0
unfolding check_permission validate_session
check_permission_state a token permission now = ground arith

check_permission-IsApart :
    (a : Authenticator) (token : Option String) (permission : Permission) (now : ℕ)
    → IsApart a
    → IsApart (check_permission a token permission now).0
unfolding check_permission
check_permission-IsApart a none permission now h = h
check_permission-IsApart a (some token) permission now h =
    subst IsApart (sym (check_permission_state a token permission now))
      (validate_session-IsApart a token now h)

Step-IsApart :
    (hash : String → String) (len : String → ℕ) {a b : Authenticator}
    → Step hash len a b
    → IsApart a
    → IsApart b
unfolding revoke_session
Step-IsApart hash len {a} (adding username password roles at n) h =
    add_user-IsApart hash a username password roles at n h
Step-IsApart hash len {a} (removing username) h = remove_user-IsApart a username h
Step-IsApart hash len {a} (authenticating username password at) h =
    authenticate-IsApart hash a username password at h
Step-IsApart hash len {a} (validating token now) h = validate_session-IsApart a token now h
Step-IsApart hash len {a} (revoking token) h = record {
  users = h.users;
  sessions = delete-Sessions a.sessions token h.sessions;
}
Step-IsApart hash len {a} (granting name permissions) h = add_role-IsApart a name permissions h
Step-IsApart hash len {a} (checking token permission now) h =
    check_permission-IsApart a token permission now h

Reach-IsApart :
    (hash : String → String) (len : String → ℕ) {a : Authenticator} → Reach hash len a → IsApart a
unfolding get
Reach-IsApart hash len fresh = record {
  users = λ k u h. absurd (cc h);
  sessions = λ k s h. absurd (cc h);
}
Reach-IsApart hash len (next r step) = Step-IsApart hash len step (Reach-IsApart hash len r)

-- A session names its user by the user's id, but `CheckPermission` looks the id up among the user
-- names. So after any calls, if `AddUser` was never given a name that begins with "user-" like an id,
-- whoever asks with a session that is there and not expired is told that the user is not found,
-- whatever the users, the roles and the permission.
pub authenticated_user_not_found :
    (hash : String → String) (len : String → ℕ) (a : Authenticator) (token : String)
    (session : Session) (permission : Permission) (now : ℕ)
    → Reach hash len a
    → get a.sessions token ≡ some session
    → now ≤ session.expires_at
    → check_permission a (some token) permission now ≡ (a, some (other "user not found"))
unfolding check_permission validate_session check_user
authenticated_user_not_found hash len a token session permission now r there live =
    let apart = Reach-IsApart hash len r in
    elim (Option-cases (get a.users session.user_id)) [
      | inl unnamed ↦ ground (arith, there, live, unnamed)
      | inr (user, named) ↦
          absurd
            (cc (apart.sessions token session there, (apart.users session.user_id user named).1))
    ]
