-- ===== src/Auth/Rbac.antt =====
-- netops-backend/auth/rbac.py: the decorators, given the endpoint as a handler.
use net_soc_ops.Prelude.{
  String, Bool, false, Option, none, some, List, [], ◌∷◌, elem, str_eq, if◌then◌else◌,
}
use net_soc_ops.Auth.Store.{User}
use net_soc_ops.Auth.Http.{Handler, raise, http_exception}

unfoldable pub role_required {ℓ} :
    {A : Type ℓ} → String → Option User → (User → Handler A) → Handler A
role_required required_role current_user func db = elim current_user [
  | none ↦ raise (http_exception 401 "User not authenticated") db
  | some u ↦
      if str_eq u.role required_role
      then func u db
      else raise (http_exception 403 "Not authorized. Required role") db
]

unfoldable pub roles_required {ℓ} :
    {A : Type ℓ} → List String → Option User → (User → Handler A) → Handler A
roles_required required_roles current_user func db = elim current_user [
  | none ↦ raise (http_exception 401 "User not authenticated") db
  | some u ↦
      if elem u.role required_roles
      then func u db
      else raise (http_exception 403 "Not authorized. Required roles") db
]

-- The dictionary of the roles, as an association list.
abbrev pub role_permissions : List (String × List String)
role_permissions =
    (
      "admin",
      "create_user" ∷ "disable_user" ∷ "reset_password" ∷ "toggle_2fa" ∷ "view_audit_logs"
          ∷ "configure_ldap" ∷ "manage_system" ∷ "view_system" ∷ "manage_users" ∷ "manage_roles"
          ∷ "manage_security" ∷ "view_rpa" ∷ "manage_rpa" ∷ [],
    )
    ∷ ("operator", "view_users" ∷ "change_own_password" ∷ "view_rpa" ∷ "manage_rpa" ∷ [])
    ∷ ("auditor", "view_users" ∷ "view_audit_logs" ∷ [])
    ∷ []

abbrev granted : String → String → List (String × List String) → Bool
granted role permission [] = false
granted role permission ((r, ps) ∷ rest) =
    let later = granted role permission rest in if str_eq r role then elem permission ps else later

unfoldable pub has_permission : User → String → Bool
has_permission user permission = granted user.role permission role_permissions

unfoldable pub permission_required {ℓ} :
    {A : Type ℓ} → String → Option User → (User → Handler A) → Handler A
unfolding has_permission
permission_required required_permission current_user func db = elim current_user [
  | none ↦ raise (http_exception 401 "User not authenticated") db
  | some u ↦
      if has_permission u required_permission
      then func u db
      else raise (http_exception 403 "Not authorized. Required permission") db
]
