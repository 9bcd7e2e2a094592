-- ===== src/Auth/Samples.antt =====
-- Runs of users, sessions and policies, and the theorems at them.
use ugem.Prelude.{◌≡◌, refl, String, none, some, [], ◌∷◌, get, put, arith}
use ugem.Prelude.Decimal.{decimal}
use ugem.Types.{other, ok}
use ugem.Auth.{
  Session, Authenticator, new_authenticator, Readings, write, add_user, user_for, remove_user,
  authenticate, session_for, generate_token, add_role, check_permission, PolicyRule, Authorizer,
}
use ugem.Auth.Access.{IsAllowed, check_permission_iff}
use ugem.Auth.Denied.{Reach, fresh, next, adding, authenticating, authenticated_user_not_found}

abbrev same : String → String
same s = s

abbrev at : Readings
at = record { id_at = 1; token_at = 2; created_at = 3; expiry_from = 4; login_at = 5 }

abbrev joined : Authenticator
joined = (add_user same new_authenticator "ann" "pw" ("ops" ∷ []) at).0

joined_now : add_user same new_authenticator "ann" "pw" ("ops" ∷ []) at ≡ (joined, none)
unfolding add_user get
joined_now = refl

abbrev session : Session
session = session_for same (user_for same "ann" "pw" ("ops" ∷ []) at) "ann" at

abbrev entered : Authenticator
entered = (authenticate same joined "ann" "pw" at).0

entered_now : authenticate same joined "ann" "pw" at ≡ (entered, ok session)
unfolding add_user get put authenticate
entered_now = refl

abbrev left : Authenticator
left = (remove_user entered "ann").0

left_now : remove_user entered "ann" ≡ (left, none)
unfolding add_user get put authenticate remove_user
left_now = refl

reached : Reach same (λ s. 16) entered
reached = next (next fresh (adding "ann" "pw" ("ops" ∷ []) at refl)) (authenticating "ann" "pw" at)

authenticated_user_not_found_example :
    check_permission entered (some session.token) write 9 ≡ (entered, some (other "user not found"))
unfolding add_user get put authenticate generate_token decimal
authenticated_user_not_found_example =
    authenticated_user_not_found same (λ s. 16) entered session.token session write 9 reached refl
      (omega arith)

-- A user whose name is the id of a session.
abbrev matched : Authenticator
matched = record {
  users = ("user-1", user_for same "user-1" "pw" ("ops" ∷ []) at) ∷ [];
  roles = ("ops", record { name = "ops"; permissions = "admin" ∷ [] }) ∷ [];
  sessions = ("t", record session { token = "t"; user_id = "user-1" }) ∷ [];
}

check_permission_iff_example :
    ((check_permission matched (some "t") write 9).1 ≡ none → IsAllowed matched (some "t") write 9)
    × (IsAllowed matched (some "t") write 9
        → check_permission matched (some "t") write 9 ≡ (matched, none))
check_permission_iff_example = check_permission_iff matched (some "t") write 9

abbrev wider : Authenticator
wider = (add_role matched "guest" ("read" ∷ [])).0

wider_now : add_role matched "guest" ("read" ∷ []) ≡ (wider, none)
unfolding add_role get
wider_now = refl

abbrev rule : String → PolicyRule
rule effect = record {
  effect = effect;
  actions = "*" ∷ [];
  resources = "ledger" ∷ [];
  conditions = [];
}

abbrev torn : Authorizer
torn = record {
  policies = ("open", rule "allow" ∷ []) ∷ ("shut", rule "deny" ∷ []) ∷ [];
  auth = matched;
}
