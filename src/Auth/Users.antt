-- ===== src/Auth/Users.antt =====
-- netops-backend/auth/user_management.py, and the constraints of the table of users.
pub mod NoPassword
use net_soc_ops.Prelude.{
  ℕ, suc, ◌+◌, String, Bool, true, false, ◌&&◌, ◌||◌, Option, none, some, List, [], ◌∷◌, ◌++◌, any,
  get_or, str_eq, if◌then◌else◌,
}
use net_soc_ops.Prelude.Results.{Result, ok, err}
use net_soc_ops.Auth.Store.{User, Db, Crypto}
use net_soc_ops.Auth.Http.{Failure, http_exception, type_error, integrity_error, Handler}
use net_soc_ops.Auth.Tokens.{get_user}
use net_soc_ops.Auth.Totp.{assign}

-- The body of the request, with the fields that are read.
pub record UserCreate : Type 0 where
  pub username : String
  pub email : Option String
  pub password : Option String
  pub role : Option String
  pub department : Option String
  pub is_active : Option Bool
  pub is_ldap_user : Option Bool
  pub has_2fa : Option Bool

abbrev pub same_text : Option String → Option String → Bool
same_text (some a) (some b) = str_eq a b
same_text _ _ = false

-- The unique columns: no other row may hold the name or the address.
abbrev pub is_taken : String → Option String → List User → Bool
is_taken username email rows = any (λ u. str_eq u.username username || same_text email u.email) rows

abbrev or_operator : Option String → String
or_operator none = "operator"
or_operator (some r) = if str_eq r "" then "operator" else r

-- The row of the object that the constructor and the defaults leave. The hash is put on the
-- object's `password`, which is no column, so that the row has none.
unfoldable pub new_user : UserCreate → ℕ → User
new_user user_data id = record {
  id = id;
  username = user_data.username;
  email = user_data.email;
  hashed_password = none;
  is_active = get_or user_data.is_active true;
  role = or_operator user_data.role;
  is_ldap_user = get_or user_data.is_ldap_user false;
  department = user_data.department;
  has_2fa = get_or user_data.has_2fa false;
  totp_secret = none;
  last_login = none;
  password_changed_at = none;
}

-- `db.add` and `db.commit`.
unfoldable pub add_user : User → Handler User
add_user user db =
    if is_taken user.username user.email db.users
    then (err integrity_error, db)
    else (ok user, record db { users = db.users ++ user ∷ []; next_user = suc db.next_user })

-- `get_password_hash` raises for `None`.
unfoldable pub needs_password : UserCreate → Bool
needs_password user_data = elim user_data.password [
  | none ↦ if get_or user_data.is_ldap_user false then false else true
  | some p ↦ false
]

-- The construction of the object up to the commit, which both functions of this name share.
unfoldable pub build_user : UserCreate → Handler User
unfolding needs_password new_user add_user
build_user user_data db =
    if needs_password user_data
    then (err type_error, db)
    else add_user (new_user user_data db.next_user) db

unfoldable pub create_user : UserCreate → Handler User
unfolding build_user
create_user user_data db = elim (get_user db user_data.username) [
  | some u ↦ (err (http_exception 400 "用户名已存在"), db)
  | none ↦ build_user user_data db
]

-- The row that the name finds, and the assignment to it.
unfoldable pub change_user : String → (User → User) → Db → Option User × Db
change_user username f db = elim (get_user db username) [
  | none ↦ (none, db)
  | some user ↦ (some (f user), assign user.id f db)
]

unfoldable pub disable_user : String → Db → Option User × Db
unfolding change_user
disable_user username db = change_user username (λ u. record u { is_active = false }) db

unfoldable pub reset_password : Crypto → ℕ → String → String → Db → Option User × Db
unfolding change_user
reset_password c now username new_password db =
    change_user username
      (λ u. record u {
        hashed_password = some (c.hash new_password);
        password_changed_at = some now;
      })
      db

unfoldable pub toggle_2fa : String → Bool → Db → Option User × Db
unfolding change_user
toggle_2fa username enable db = change_user username (λ u. record u { has_2fa = enable }) db

unfoldable pub update_user_role : String → String → Db → Option User × Db
unfolding change_user
update_user_role username role db = change_user username (λ u. record u { role = role }) db

unfoldable pub update_user_department : String → String → Db → Option User × Db
unfolding change_user
update_user_department username department db =
    change_user username (λ u. record u { department = some department }) db
