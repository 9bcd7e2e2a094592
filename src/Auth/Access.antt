-- ===== src/Auth/Access.antt =====
-- Who may do what: `CheckPermission`, roles and policies.
use ugem.Prelude.{
  ℕ, ◌≤◌, ◌≡◌, refl, String, true, Option, none, some, List, [], ◌∷◌, ◌==◌, eq_iff, ltb, get,
  get-put, arith, Option-cases, inl, inr, ◌+◌, ◌<◌, count, GoMap, Bool-cases, eq_refl, subst, sym,
}
use ugem.Types.{ok}
use ugem.Auth.{
  grants, Role, User, Session, Authenticator, Permission, read, permission_text, validate_session,
  add_role, any_grants, has_permission, check_user, check_permission, PolicyRule, Authorizer,
  first_rule, decide, authorize,
}

grants-eq-count :
    (perms : List String) (permission : String)
    → grants perms permission ≡ ltb 0 (count permission perms + count "admin" perms)
unfolding grants count
grants-eq-count [] permission = refl
grants-eq-count (perm ∷ perms) permission = ground (arith, grants-eq-count perms permission)

-- One of the named roles is there and holds the permission or "admin".
abbrev IsGranted : GoMap Role → List String → String → Type 0
IsGranted roles names permission =
    (name : String) × (role : Role) × (0 < count name names)
    × (get roles name ≡ some role)
    × (0 < count permission role.permissions + count "admin" role.permissions)

later_role-IsGranted :
    (roles : GoMap Role) (x : String) (names : List String) (permission : String)
    → IsGranted roles names permission
    → IsGranted roles (x ∷ names) permission
unfolding count
later_role-IsGranted roles x names permission (name, role, listed, there, held) =
    (name, role, omega (arith, listed), there, held)

any_grants-IsGranted :
    (roles : GoMap Role) (names : List String) (permission : String)
    → any_grants roles names permission ≡ true
    → IsGranted roles names permission
unfolding any_grants count
any_grants-IsGranted roles [] permission h = absurd (cc h)
any_grants-IsGranted roles (x ∷ names) permission h = elim (Option-cases (get roles x)) [
  | inl missing ↦
      later_role-IsGranted roles x names permission
        (any_grants-IsGranted roles names permission (ground (arith, missing, h)))
  | inr (role, there) ↦ elim (Bool-cases (grants role.permissions permission)) [
    | inl e ↦
        let held = grants-eq-count role.permissions permission in
        (x, role, ground (arith, eq_refl x), there, ground (arith, held, e))
    | inr e ↦
        later_role-IsGranted roles x names permission
          (any_grants-IsGranted roles names permission (ground (arith, there, e, h)))
  ]
]

any_grants_here :
    (roles : GoMap Role) (x : String) (names : List String) (permission : String) (role : Role)
    → get roles x ≡ some role
    → 0 < count permission role.permissions + count "admin" role.permissions
    → any_grants roles (x ∷ names) permission ≡ true
unfolding any_grants
any_grants_here roles x names permission role there held =
    ground (arith, there, held, grants-eq-count role.permissions permission)

IsGranted-any_grants :
    (roles : GoMap Role) (names : List String) (permission name : String) (role : Role)
    → 0 < count name names
    → get roles name ≡ some role
    → 0 < count permission role.permissions + count "admin" role.permissions
    → any_grants roles names permission ≡ true
unfolding any_grants count
IsGranted-any_grants roles [] permission name role listed there held =
    absurd (omega (arith, listed))
IsGranted-any_grants roles (x ∷ names) permission name role listed there held =
    elim (Bool-cases (x == name)) [
      | inl same ↦
          any_grants_here roles x names permission role
            (subst (λ y. get roles y ≡ some role) (sym ((eq_iff x name).0 same)) there) held
      | inr unlike ↦
          let rest =
            IsGranted-any_grants roles names permission name role (ground (arith, unlike, listed))
              there held in
          elim (Option-cases (get roles x)) [
            | inl missing ↦ ground (arith, missing, rest)
            | inr (r, found) ↦ ground (arith, found, rest)
          ]
    ]

-- Who may act: the context has a token, the token a session that is not expired, and a user is there
-- under the session's user id, whose own name is the name of an active user with a role that is there
-- and holds the permission or "admin".
pub record IsAllowed (a : Authenticator) (token : Option String) (permission : Permission) (now : ℕ)
    : Type 0 where
  pub key : String
  pub session : Session
  pub named : User
  pub user : User
  pub has_token : token ≡ some key
  pub has_session : get a.sessions key ≡ some session
  pub in_time : now ≤ session.expires_at
  pub has_name : get a.users session.user_id ≡ some named
  pub has_user : get a.users named.username ≡ some user
  pub user_active : user.active ≡ true
  pub is_granted : IsGranted a.roles user.roles (permission_text permission)

check_permission_sound :
    (a : Authenticator) (token : Option String) (permission : Permission) (now : ℕ)
    → (check_permission a token permission now).1 ≡ none
    → IsAllowed a token permission now
unfolding check_permission validate_session check_user has_permission
check_permission_sound a none permission now h = absurd (cc h)
check_permission_sound a (some t) permission now h = elim (Option-cases (get a.sessions t)) [
  | inl no_session ↦ absurd (ground (arith, no_session, h))
  | inr (session, here) ↦ elim (Option-cases (get a.users session.user_id)) [
    | inl unnamed ↦ absurd (ground (arith, here, unnamed, h))
    | inr (named, there) ↦ elim (Option-cases (get a.users named.username)) [
      | inl missing ↦ absurd (ground (arith, here, there, missing, h))
      | inr (user, found) ↦ record {
        key = t;
        session = session;
        named = named;
        user = user;
        has_token = refl;
        has_session = here;
        in_time = ground (arith, here, h);
        has_name = there;
        has_user = found;
        user_active = ground (arith, here, there, found, h);
        is_granted =
            any_grants-IsGranted a.roles user.roles (permission_text permission)
              (ground (arith, here, there, found, h));
      }
    ]
  ]
]

check_permission_complete :
    (a : Authenticator) (token : Option String) (permission : Permission) (now : ℕ)
    → IsAllowed a token permission now
    → check_permission a token permission now ≡ (a, none)
unfolding check_permission validate_session check_user has_permission
check_permission_complete a token permission now may =
    let (name, role, listed, there, held) = may.is_granted in
    rw may.has_token (
      ground (
        arith,
        may.has_session,
        may.in_time,
        may.has_name,
        may.has_user,
        may.user_active,
        IsGranted-any_grants a.roles may.user.roles (permission_text permission) name role listed
            there held,
      ))

-- `CheckPermission` accepts exactly those who may act, and then changes nothing: the context has a
-- token with a session that is not expired, a user is there under the session's user id, and under
-- that user's name an active user, one of whose roles is there and holds the permission or "admin".
pub check_permission_iff :
    (a : Authenticator) (token : Option String) (permission : Permission) (now : ℕ)
    → ((check_permission a token permission now).1 ≡ none → IsAllowed a token permission now)
      × (IsAllowed a token permission now → check_permission a token permission now ≡ (a, none))
check_permission_iff a token permission now = (
  check_permission_sound a token permission now,
  check_permission_complete a token permission now,
)

any_grants-add_role :
    (a a' : Authenticator) (name : String) (permissions names : List String) (permission : String)
    → add_role a name permissions ≡ (a', none)
    → any_grants a.roles names permission ≡ true
    → any_grants a'.roles names permission ≡ true
unfolding any_grants add_role
any_grants-add_role a a' name permissions [] permission h e = e
any_grants-add_role a a' name permissions (x ∷ names) permission h e = ground (
  arith,
  any_grants-add_role a a' name permissions names permission h,
  get-put a.roles name x (record { name = name; permissions = permissions }),
  eq_iff name x,
)

users-add_role :
    (a a' : Authenticator) (name : String) (permissions : List String)
    → add_role a name permissions ≡ (a', none)
    → a'.users ≡ a.users
unfolding add_role
users-add_role a a' name permissions h = ground arith

-- A new role takes no permission away from anyone.
has_permission-add_role :
    (a a' : Authenticator) (name username : String) (permissions : List String)
    (permission : Permission)
    → add_role a name permissions ≡ (a', none)
    → has_permission a username permission ≡ true
    → has_permission a' username permission ≡ true
unfolding has_permission
has_permission-add_role a a' name username permissions permission h e =
    elim (Option-cases (get a.users username)) [
      | inl none_there ↦ absurd (ground (arith, none_there))
      | inr (user, there) ↦ ground (
        arith,
        there,
        users-add_role a a' name permissions h,
        any_grants-add_role a a' name permissions user.roles (permission_text permission) h,
      )
    ]

-- Two policies of which one allows and the other denies what is asked make the answer depend on the
-- order in which the map is visited: `Evaluate` answers as the policy says that comes first.
authorize_depends_on_order :
    (az az' : Authorizer) (p q : String) (ps qs : List PolicyRule) (r s : PolicyRule)
    (token : Option String) (action resource : String) (now : ℕ)
    → check_permission az.auth token read now ≡ (az'.auth, none)
    → get az.policies p ≡ some ps
    → get az.policies q ≡ some qs
    → first_rule ps action resource ≡ some r
    → first_rule qs action resource ≡ some s
    → ((authorize az (p ∷ q ∷ []) token action resource now).1 ≡ ok (r.effect == "allow"))
      × ((authorize az (q ∷ p ∷ []) token action resource now).1 ≡ ok (s.effect == "allow"))
unfolding authorize decide
authorize_depends_on_order az az' p q ps qs r s token action resource now h hp hq hr hs =
    (ground (arith, h, hp, hq, hr, hs), ground (arith, h, hp, hq, hr, hs))
