-- ===== src/Auth/UserRoutes/Roles.antt =====
-- Who may call the endpoints on users, and what they leave.
use net_soc_ops.Prelude.{
  ℕ, String, ◌≡◌, refl, ◌⊎◌, inl, inr, Bool, true, false, Option, none, some, [], ◌∷◌, elem,
  find-update, str_eq, eq_iff, ==_iff, ◌==◌, arith, Bool-cases,
}
use net_soc_ops.Prelude.Results.{Result, ok, err}
use net_soc_ops.Auth.Store.{User, Db, Crypto}
use net_soc_ops.Auth.Http.{Failure, http_exception}
use net_soc_ops.Auth.Audit.{log_event}
use net_soc_ops.Auth.Tokens.{get_user, authenticate_user}
use net_soc_ops.Auth.Rbac.{role_required, has_permission}
use net_soc_ops.Auth.Users.{change_user, reset_password, update_user_role}
use net_soc_ops.Auth.UserRoutes.{
  disable_user_endpoint, reset_password_endpoint, toggle_2fa_endpoint, update_role,
  update_department, delete_user, assignable_roles, answer,
}

-- No request, or one of a user of another role.
abbrev pub IsNotAdmin : Option User → Type 0
IsNotAdmin none = Unit
IsNotAdmin (some u) = str_eq u.role "admin" ≡ false

-- A refusal with status 401 or 403, with nothing written.
pub IsRefused : Db → Result Failure String × Db → Type 0
IsRefused db r =
    (r ≡ (err (http_exception 401 "User not authenticated"), db))
    ⊎ (r ≡ (err (http_exception 403 "Not authorized. Required role"), db))

-- Each of the six endpoints on users refuses whoever is not an administrator, and writes nothing
-- then.
pub endpoints-IsRefused :
    (c : Crypto) (now : ℕ) (caller : Option User) (username text : String) (state : Option Bool)
    (enable : Bool) (db : Db)
    → IsNotAdmin caller
    → IsRefused db (disable_user_endpoint now caller username state db)
      × IsRefused db (reset_password_endpoint c now caller username text db)
      × IsRefused db (toggle_2fa_endpoint now caller username enable db)
      × IsRefused db (update_role now caller username text db)
      × IsRefused db (update_department now caller username text db)
      × IsRefused db (delete_user now caller username db)
unfolding disable_user_endpoint reset_password_endpoint toggle_2fa_endpoint update_role
    update_department delete_user role_required IsRefused
endpoints-IsRefused c now none username text state enable db h =
    (inl refl, inl refl, inl refl, inl refl, inl refl, inl refl)
endpoints-IsRefused c now (some u) username text state enable db h =
    (inr (rw h), inr (rw h), inr (rw h), inr (rw h), inr (rw h), inr (rw h))

get_user-change_user :
    (username : String) (f : User → User) (user : User) (db : Db)
    → ((u : User) → (f u).username ≡ u.username)
    → get_user db username ≡ some user
    → get_user (change_user username f db).1 username ≡ some (f user)
unfolding change_user
get_user-change_user username f user db keeps found =
    rw (found, change_user)
      (find-update (λ u. str_eq u.username username) (λ u. u.id == user.id) f db.users user
        (λ x. rw (keeps x)) ((==_iff user.id user.id).1 refl) found)

-- A password that an administrator has reset is the one that the user is authenticated by.
pub authenticate-reset_password :
    (c : Crypto) (now : ℕ) (username password : String) (user : User) (db : Db)
    → get_user db username ≡ some user
    → authenticate_user c (reset_password c now username password db).1 username password
      ≡ some
          (record user { hashed_password = some (c.hash password); password_changed_at = some now })
unfolding authenticate_user reset_password
authenticate-reset_password c now username password user db found =
    let after =
      get_user-change_user username
        (λ u. record u { hashed_password = some (c.hash password); password_changed_at = some now })
        user db (λ u. refl) found in
    let right = c.verify-hash password in rw (after, authenticate_user) (rw right)

abbrev IsPowerless : User → Type 0
IsPowerless user =
    (str_eq user.role "admin" ≡ false)
    × ((permission : String) → has_permission user permission ≡ false)

assignable-cases :
    (role : String)
    → elem role assignable_roles ≡ true
    → (role ≡ "Admin") ⊎ (role ≡ "Operator") ⊎ (role ≡ "Auditor")
assignable-cases role h = elim (Bool-cases (str_eq role "Admin")) [
  | inl e ↦ inl ((eq_iff role "Admin").0 e)
  | inr e ↦ elim (Bool-cases (str_eq role "Operator")) [
    | inl e' ↦ inr (inl ((eq_iff role "Operator").0 e'))
    | inr e' ↦ inr (inr (ground (arith, eq_iff role "Auditor")))
  ]
]

assignable-IsPowerless :
    (role : String) (user : User)
    → elem role assignable_roles ≡ true
    → IsPowerless (record user { role = role })
unfolding has_permission
assignable-IsPowerless role user h = elim (assignable-cases role h) [
  | inl e ↦ rw e (refl, λ permission. refl)
  | inr (inl e) ↦ rw e (refl, λ permission. refl)
  | inr (inr e) ↦ rw e (refl, λ permission. refl)
]

answer-users :
    (now : ℕ) (u : User) (username role : String) (r : Option User × Db)
    → (answer now u "update_role" username
        (("role", role) ∷ [])
        "User role updated successfully"
        r).1.users
      ≡ r.1.users
unfolding log_event
answer-users now u username role (none, db) = refl
answer-users now u username role (some x, db) = refl

-- Whoever is given a role by the endpoint for roles has no permission at all afterwards, and is
-- no administrator to the endpoints: the roles that it takes are not those that are tested for.
pub update_role-IsPowerless :
    (now : ℕ) (caller : Option User) (username role detail : String) (user : User) (db : Db)
    → get_user db username ≡ some user
    → (update_role now caller username role db).0 ≡ ok detail
    → (after : User) × (get_user (update_role now caller username role db).1 username ≡ some after)
      × (str_eq after.role "admin" ≡ false)
      × ((permission : String) → has_permission after permission ≡ false)
unfolding update_role role_required update_user_role log_event
update_role-IsPowerless now none username role detail user db found h = cc
update_role-IsPowerless now (some u) username role detail user db found h =
    elim (Bool-cases (str_eq u.role "admin")) [
      | inr e ↦ cc (rw e at h)
      | inl e ↦
          let h' = rw e at h in
          elim (Bool-cases (elem role assignable_roles)) [
            | inr k ↦ cc (rw k at h')
            | inl k ↦
                let after =
                  get_user-change_user username (λ x. record x { role = role }) user db (λ x. refl)
                    found in
                let (other, none_granted) = assignable-IsPowerless role user k in
                (
                  record user { role = role },
                  rw e (
                      rw k (
                        rw (answer-users now u username role (update_user_role username role db))
                          after)),
                  other,
                  none_granted,
                )
          ]
    ]
