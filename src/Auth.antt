-- ===== src/Auth.antt =====
-- security/auth.go: users, roles and sessions, and the rules of policies. SHA-256 is the argument
-- `hash`. What one call reads of the clock is an argument; the log lines are left out, except that
-- `RevokeSession` cuts the token to ten bytes for its line, which panics on a shorter one.
pub mod Sessions
pub mod Access
pub mod Denied
mod Samples
use ugem.Prelude.{
  ℕ, ◌+◌, String, Bool, true, false, not, ◌&&◌, ◌||◌, Option, none, some, List, [], ◌∷◌, GoMap,
  ◌==◌, if◌then◌else◌, ltb, get, put, delete, contains,
}
use ugem.Prelude.Decimal.{decimal}
use ugem.Types.{Error, other, panic, Result, ok, err}
use Prim.Native.String as Str

pub record User : Type 0 where
  pub id : String
  pub username : String
  pub password : String
  pub roles : List String
  pub created_at : ℕ
  pub last_login : ℕ
  pub active : Bool

pub record Role : Type 0 where
  pub name : String
  pub permissions : List String

pub data Permission : Type 0 where
  read write delete_it admin execute : Permission

abbrev pub permission_text : Permission → String
permission_text read = "read"
permission_text write = "write"
permission_text delete_it = "delete"
permission_text admin = "admin"
permission_text execute = "execute"

pub record Session : Type 0 where
  pub id : String
  pub user_id : String
  pub created_at : ℕ
  pub expires_at : ℕ
  pub token : String

pub record Authenticator : Type 0 where
  pub users : GoMap User
  pub roles : GoMap Role
  pub sessions : GoMap Session

abbrev pub new_authenticator : Authenticator
new_authenticator = record { users = []; roles = []; sessions = [] }

-- What one call reads of the clock: `id_at` and `token_at` by `UnixNano`, the others as instants.
pub record Readings : Type 0 where
  pub id_at : ℕ
  pub token_at : ℕ
  pub created_at : ℕ
  pub expiry_from : ℕ
  pub login_at : ℕ

-- 24 hours
abbrev pub session_length : ℕ
session_length = 86400000000000

abbrev pub user_for : (String → String) → String → String → List String → Readings → User
user_for hash username password roles at = record {
  id = Str.◌++◌ "user-" (decimal at.id_at);
  username = username;
  password = hash password;
  roles = roles;
  created_at = at.created_at;
  last_login = 0;
  active = true;
}

unfoldable pub add_user :
    (String → String)
    → Authenticator
    → String
    → String
    → List String
    → Readings
    → Authenticator × Option Error
add_user hash a username password roles at = elim (get a.users username) [
  | some _ ↦ (a, some (other "user already exists"))
  | none ↦
      (record a { users = put a.users username (user_for hash username password roles at) }, none)
]

unfoldable pub remove_user : Authenticator → String → Authenticator × Option Error
remove_user a username = elim (get a.users username) [
  | none ↦ (a, some (other "user not found"))
  | some user ↦ (record a { users = put a.users username (record user { active = false }) }, none)
]

unfoldable pub generate_token : (String → String) → String → ℕ → String
generate_token hash username at =
    hash (Str.◌++◌ username (Str.◌++◌ "-" (Str.◌++◌ (decimal at) "-secret")))

abbrev pub session_for : (String → String) → User → String → Readings → Session
session_for hash user username at = record {
  id = Str.◌++◌ "session-" (decimal at.id_at);
  user_id = user.id;
  created_at = at.created_at;
  expires_at = at.expiry_from + session_length;
  token = generate_token hash username at.token_at;
}

unfoldable pub authenticate :
    (String → String) → Authenticator → String → String → Readings → Authenticator × Result Session
authenticate hash a username password at = elim (get a.users username) [
  | none ↦ (a, err (other "invalid credentials"))
  | some user ↦
      let session = session_for hash user username at in
      if not user.active || not (user.password == hash password)
      then (a, err (other "invalid credentials"))
      else (
        record a {
          users = put a.users username (record user { last_login = at.login_at });
          sessions = put a.sessions session.token session;
        },
        ok session,
      )
]

unfoldable pub validate_session : Authenticator → String → ℕ → Authenticator × Result Session
validate_session a token now = elim (get a.sessions token) [
  | none ↦ (a, err (other "invalid session"))
  | some session ↦
      if ltb session.expires_at now
      then (record a { sessions = delete a.sessions token }, err (other "session expired"))
      else (a, ok session)
]

-- `len` counts bytes: it is an argument.
unfoldable pub revoke_session : (String → ℕ) → Authenticator → String → Authenticator × Option Error
revoke_session len a token = (
  record a { sessions = delete a.sessions token },
  if ltb (len token) 10 then some panic else none,
)

unfoldable pub add_role : Authenticator → String → List String → Authenticator × Option Error
add_role a name permissions = elim (get a.roles name) [
  | some _ ↦ (a, some (other "role already exists"))
  | none ↦ (
    record a { roles = put a.roles name (record { name = name; permissions = permissions }) },
    none,
  )
]

-- The inner loop of `HasPermission`.
unfoldable pub grants : List String → String → Bool
grants [] permission = false
grants (perm ∷ perms) permission = perm == permission || perm == "admin" || grants perms permission

unfoldable pub any_grants : GoMap Role → List String → String → Bool
any_grants roles [] permission = false
any_grants roles (name ∷ names) permission =
    let rest = any_grants roles names permission in
    elim (get roles name) [ none ↦ rest | some role ↦ grants role.permissions permission || rest ]

unfoldable pub has_permission : Authenticator → String → Permission → Bool
has_permission a username permission = elim (get a.users username) [
  | none ↦ false
  | some user ↦ user.active && any_grants a.roles user.roles (permission_text permission)
]

-- Once the session is valid.
unfoldable pub check_user : Authenticator → Session → Permission → Option Error
check_user a session permission = elim (get a.users session.user_id) [
  | none ↦ some (other "user not found")
  | some user ↦
      if has_permission a user.username permission then none else some (other "permission denied")
]

-- `CheckPermission` at the instant `now`, with the token of the context.
unfoldable pub check_permission :
    Authenticator → Option String → Permission → ℕ → Authenticator × Option Error
check_permission a none permission now = (a, some (other "no token in context"))
check_permission a (some token) permission now =
    let (a', r) = validate_session a token now in
    elim r [ err e ↦ (a', some e) | ok session ↦ (a', check_user a' session permission) ]

pub record PolicyRule : Type 0 where
  pub effect : String
  pub actions : List String
  pub resources : List String
  pub conditions : GoMap String

pub record Authorizer : Type 0 where
  pub policies : GoMap (List PolicyRule)
  pub auth : Authenticator

unfoldable pub add_policy : Authorizer → String → List PolicyRule → Authorizer
add_policy az name rules = record az { policies = put az.policies name rules }

-- `matchesAction` and `matchesResource`
unfoldable pub matches : List String → String → Bool
matches [] s = false
matches (x ∷ xs) s = x == "*" || x == s || matches xs s

-- the first rule of a policy that matches
unfoldable pub first_rule : List PolicyRule → String → String → Option PolicyRule
first_rule [] action resource = none
first_rule (rule ∷ rules) action resource =
    if matches rule.actions action && matches rule.resources resource
    then some rule
    else first_rule rules action resource

-- The policies in the order in which Go happens to visit the map.
unfoldable pub decide : GoMap (List PolicyRule) → List String → String → String → Bool
decide policies [] action resource = false
decide policies (name ∷ names) action resource =
    let rest = decide policies names action resource in
    elim (get policies name) [
      | none ↦ rest
      | some rules ↦ elim (first_rule rules action resource) [
        | none ↦ rest
        | some rule ↦ rule.effect == "allow"
      ]
    ]

unfoldable pub authorize :
    Authorizer → List String → Option String → String → String → ℕ → Authorizer × Result Bool
authorize az order token action resource now =
    let (auth, e) = check_permission az.auth token read now in
    let az' = record az { auth = auth } in
    elim e [ some x ↦ (az', err x) | none ↦ (az', ok (decide az.policies order action resource)) ]

-- `GetUserFromContext`: the token and the authenticator that the context has, if it has them.
unfoldable pub get_user_from_context :
    Option Authenticator → Option String → ℕ → Option Authenticator × Result User
get_user_from_context auth none now = (auth, err (other "no token in context"))
get_user_from_context none (some token) now = (none, err (other "no auth in context"))
get_user_from_context (some a) (some token) now =
    let (a', r) = validate_session a token now in
    elim r [
      | err e ↦ (some a', err e)
      | ok session ↦ elim (get a'.users session.user_id) [
        | none ↦ (some a', err (other "user not found"))
        | some user ↦ (some a', ok user)
      ]
    ]
