-- ===== src/Auth/Users/NoPassword.antt =====
-- What becomes of the password of a new user.
use net_soc_ops.Prelude.{
  ℕ, String, ◌≡◌, inl, inr, Bool, false, ◌||◌, some, get_or, find-append_none, find-any-none,
  str_eq, eq_refl, arith, Bool-cases,
}
use net_soc_ops.Prelude.Results.{ok, err}
use net_soc_ops.Auth.Store.{User, Db, Crypto}
use net_soc_ops.Auth.Http.{http_exception}
use net_soc_ops.Auth.Tokens.{get_user}
use net_soc_ops.Auth.Users.{
  UserCreate, is_taken, same_text, needs_password, new_user, add_user, build_user,
}
use net_soc_ops.Auth.Login.{login, login_local}
use net_soc_ops.Auth.Ldap.{Directory}

get_user-add_user :
    (user added : User) (db : Db)
    → (add_user user db).0 ≡ ok added
    → get_user (add_user user db).1 user.username ≡ some user
unfolding add_user
get_user-add_user user added db h = elim (Bool-cases (is_taken user.username user.email db.users)) [
  | inl e ↦ cc (rw e at h)
  | inr e ↦
      let fresh =
        find-any-none (λ u. str_eq u.username user.username)
          (λ u. str_eq u.username user.username || same_text user.email u.email) db.users
          (λ x k. or-false (str_eq x.username user.username) (same_text user.email x.email) k) e in
      rw e (
        find-append_none (λ u. str_eq u.username user.username) db.users user fresh
          (eq_refl user.username))
]
  where
    or-false : (a b : Bool) → (a || b) ≡ false → a ≡ false
    or-false a b k = ground arith

-- The row that a successful construction leaves under the name.
pub get_user-build_user :
    (user_data : UserCreate) (user : User) (db : Db)
    → (build_user user_data db).0 ≡ ok user
    → get_user (build_user user_data db).1 user_data.username
      ≡ some (new_user user_data db.next_user)
unfolding build_user new_user
get_user-build_user user_data user db h = elim (Bool-cases (needs_password user_data)) [
  | inl e ↦ cc (rw e at h)
  | inr e ↦ rw e (get_user-add_user (new_user user_data db.next_user) user db (rw e at h))
]

-- Whoever has been created as a local user cannot log in, whatever the password: the row has no
-- hash, and the login ends with status 401.
pub login-build_user :
    (c : Crypto) (d : Directory) (now : ℕ) (token password : String) (user_data : UserCreate)
    (user : User) (db : Db)
    → (build_user user_data db).0 ≡ ok user
    → get_or user_data.is_ldap_user false ≡ false
    → (login c d now token
        (record { username = user_data.username; password = password })
        (build_user user_data db).1).0
      ≡ err (http_exception 401 "用户名或密码错误")
unfolding login login_local new_user
login-build_user c d now token password user_data user db h local =
    let found = get_user-build_user user_data user db h in
    let refused = c.verify-none password in rw (found, login) (rw local (rw (refused, login_local)))
