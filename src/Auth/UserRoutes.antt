-- ===== src/Auth/UserRoutes.antt =====
-- netops-backend/routes/users.py: the endpoints that change a user. The address and the agent of
-- the client are left out.
pub mod Roles
use net_soc_ops.Prelude.{
  ℕ, String, Bool, true, false, not, Option, none, some, List, [], ◌∷◌, ◌++◌, elem, get_or, str_eq,
  select, ◌==◌, if◌then◌else◌,
}
use net_soc_ops.Prelude.Results.{Result, ok, err}
use net_soc_ops.Auth.Store.{User, LdapConfig, Db, Crypto}
use net_soc_ops.Auth.Http.{Failure, http_exception, Handler, reply, raise}
use net_soc_ops.Auth.Audit.{of_user, log_event}
use net_soc_ops.Auth.Tokens.{get_user, get_user_by_id}
use net_soc_ops.Auth.Totp.{assign}
use net_soc_ops.Auth.Rbac.{role_required}
use net_soc_ops.Auth.Users.{
  UserCreate, build_user, change_user, reset_password, toggle_2fa, update_user_role,
  update_user_department,
}

-- `test_ldap_connection` with the row of the configuration: whether it raises.
abbrev checks_ldap : (LdapConfig → Bool) → UserCreate → Db → Option String
checks_ldap reaches user db =
    if get_or user.is_ldap_user false then config_problem db.ldap_config else none
  where
    config_problem : List LdapConfig → Option String
    config_problem [] = some "LDAP未配置，无法创建LDAP用户"
    config_problem (l ∷ ls) = if reaches l then none else some "LDAP连接测试失败"

-- Every exception but an `HTTPException` becomes status 500.
abbrev as_500 : String → Failure → Failure
as_500 detail (http_exception s d) = http_exception s d
as_500 detail _ = http_exception 500 detail

abbrev wrap_errors {ℓ} : {A : Type ℓ} → String → Result Failure A × Db → Result Failure A × Db
wrap_errors detail (ok a, db) = (ok a, db)
wrap_errors detail (err e, db) = (err (as_500 detail e), db)

unfoldable pub create_user_endpoint : (LdapConfig → Bool) → User → UserCreate → Handler User
unfolding build_user
create_user_endpoint reaches current_user user db =
    if elem current_user.role ("admin" ∷ "superuser" ∷ [])
    then (elim (checks_ldap reaches user db) [
      | some problem ↦ raise (http_exception 400 problem) db
      | none ↦ wrap_errors "创建用户失败" (build_user user db)
    ])
    else raise (http_exception 403 "只有管理员可以创建用户") db

-- A failed operation: the event, then the exception.
abbrev refuse : ℕ → User → String → List (String × String) → Failure → Handler String
refuse now current_user event_type details e db =
    raise e (log_event now event_type (of_user current_user) details false db)

abbrev user_not_found : ℕ → User → String → String → Handler String
user_not_found now current_user event_type username db =
    refuse now current_user event_type (("reason", "User not found") ∷ ("username", username) ∷ [])
      (http_exception 404 "User not found") db

-- The event of a success, then the reply.
abbrev confirm : ℕ → User → String → List (String × String) → String → Handler String
confirm now current_user event_type details detail db =
    reply detail (log_event now event_type (of_user current_user) details true db)

-- What the four endpoints on a user do with the service's answer.
abbrev pub answer :
    ℕ
    → User
    → String
    → String
    → List (String × String)
    → String
    → Option User × Db
    → Result Failure String × Db
answer now current_user event_type username details detail (none, db) =
    user_not_found now current_user event_type username db
answer now current_user event_type username details detail (some u, db) =
    confirm now current_user event_type (("username", username) ∷ details) detail db

abbrev bool_text : Bool → String
bool_text true = "True"
bool_text false = "False"

-- `enable` given, or the state that the user has not.
abbrev toggled : Option Bool → User → Bool
toggled none user = not user.is_active
toggled (some enable) user = enable

unfoldable pub disable_user_endpoint : ℕ → Option User → String → Option Bool → Handler String
unfolding role_required log_event
disable_user_endpoint now caller username enable = role_required "admin" caller (λ current_user db.
    elim (get_user db username) [
      | none ↦ user_not_found now current_user "toggle_user_status" username db
      | some user ↦
          confirm now current_user (if toggled enable user then "enable_user" else "disable_user")
            (("username", username) ∷ ("is_active", bool_text (toggled enable user)) ∷ [])
            (if toggled enable user
              then "User enabled successfully"
              else "User disabled successfully")
            (assign user.id (λ u. record u { is_active = toggled enable user }) db)
    ])

unfoldable pub reset_password_endpoint : Crypto → ℕ → Option User → String → String → Handler String
unfolding role_required log_event reset_password
reset_password_endpoint c now caller username new_password =
    role_required "admin" caller (λ current_user db.
      answer now current_user "reset_password" username [] "Password reset successfully"
        (reset_password c now username new_password db))

unfoldable pub toggle_2fa_endpoint : ℕ → Option User → String → Bool → Handler String
unfolding role_required log_event toggle_2fa
toggle_2fa_endpoint now caller username enable = role_required "admin" caller (λ current_user db.
    answer now current_user "toggle_2fa" username (("enable", bool_text enable) ∷ [])
      "2FA status updated successfully" (toggle_2fa username enable db))

abbrev pub assignable_roles : List String
assignable_roles = "Admin" ∷ "Operator" ∷ "Auditor" ∷ []

unfoldable pub update_role : ℕ → Option User → String → String → Handler String
unfolding role_required log_event update_user_role
update_role now caller username role = role_required "admin" caller (λ current_user db.
    if elem role assignable_roles
    then answer now current_user "update_role" username (("role", role) ∷ [])
        "User role updated successfully" (update_user_role username role db)
    else refuse now current_user "update_role"
        (("reason", "Invalid role") ∷ ("username", username) ∷ ("role", role) ∷ [])
        (http_exception 400 "Invalid role") db)

unfoldable pub update_department : ℕ → Option User → String → String → Handler String
unfolding role_required log_event update_user_department
update_department now caller username department = role_required "admin" caller (λ current_user db.
    answer now current_user "update_department" username (("department", department) ∷ [])
      "User department updated successfully" (update_user_department username department db))

unfoldable pub delete_user : ℕ → Option User → String → Handler String
unfolding role_required log_event
delete_user now caller username = role_required "admin" caller (λ current_user db.
    if str_eq username current_user.username
    then refuse now current_user "delete_user"
        (("reason", "Cannot delete yourself") ∷ ("username", username) ∷ [])
        (http_exception 400 "Cannot delete yourself") db
    else elim (get_user db username) [
      | none ↦ user_not_found now current_user "delete_user" username db
      | some user ↦
          confirm now current_user "delete_user" (("username", username) ∷ [])
            "User deleted successfully"
            (record db { users = select (λ u. not (u.id == user.id)) db.users })
    ])
