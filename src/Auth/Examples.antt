-- ===== src/Auth/Examples.antt =====
-- The theorems on users and sessions at a small table, with a stand-in for the libraries in which a
-- text is its own hash and its own token.
use net_soc_ops.Prelude.{
  ℕ, ◌+◌, ◌-◌, ◌*◌, String, ◌≡◌, refl, Bool, true, false, not, Option, none, some, List, arith, [],
  ◌∷◌, All, length, str_eq, eq_refl, ltb, if◌then◌else◌,
}
use net_soc_ops.Prelude.Results.{ok, err}
use net_soc_ops.Auth.Store.{User, AuditLog, RefreshToken, Db, Crypto}
use net_soc_ops.Auth.Http.{http_exception}
use net_soc_ops.Auth.Audit.{cleanup_old_logs}
use net_soc_ops.Auth.Audit.Cleanup.{cleanup_old_logs_lem}
use net_soc_ops.Auth.Tokens.{
  get_user, get_user_by_id, authenticate_user, create_access_token, create_refresh_token,
  verify_refresh_token, revoke_refresh_token, revoke_all_user_refresh_tokens,
}
use net_soc_ops.Auth.Tokens.Lifecycle.{verify-create, verify-revoke, verify-revoke_all}
use net_soc_ops.Auth.Totp.{
  cleanup_expired_records, is_used, record_totp, verify_totp, verify_backup_code, assign,
}
use net_soc_ops.Auth.Totp.Replay.{
  Event, cleaned, verified, after, verify_totp-replay, verify_totp_sound, verify_backup_code-once,
}
use net_soc_ops.Auth.Rbac.{has_permission}
use net_soc_ops.Auth.Users.{
  UserCreate, new_user, add_user, needs_password, build_user, reset_password,
}
use net_soc_ops.Auth.Users.NoPassword.{login-build_user}
use net_soc_ops.Auth.UserRoutes.{
  disable_user_endpoint, reset_password_endpoint, toggle_2fa_endpoint, update_role,
  update_department, delete_user,
}
use net_soc_ops.Auth.UserRoutes.Roles.{
  IsRefused, endpoints-IsRefused, authenticate-reset_password, update_role-IsPowerless,
}
use net_soc_ops.Auth.Ldap.{Directory}
use net_soc_ops.Auth.Login.{tokens, Form, login, login_local, issue_tokens, check_second_factor}
use net_soc_ops.Auth.Login.Sound.{IsGrounded, login-IsGrounded}
use net_soc_ops.Auth.SecondFactor.{setup_totp_for_user, verify_totp_endpoint}
use net_soc_ops.Auth.SecondFactor.Takeover.{verify-setup_totp_for_user}
use net_soc_ops.Auth.Sessions.{
  int_of_digits, value_from, user_of_subject, get_current_user, with_active_user, logout,
  SecuritySettings, password_problem, change_password, has_upper, has_lower, has_number, some_char,
}
use net_soc_ops.Auth.Sessions.Active.{
  IsNamed, with_active_user-IsNamed, IsStrong, change_password-IsStrong,
}

verify_text : String → Option String → Bool
verify_text p none = false
verify_text p (some h) = str_eq h p

plain : Crypto
unfolding verify_text
plain = record {
  verify = verify_text;
  hash = λ p. p;
  encode = λ sub expires. sub;
  decode = λ token now. some token;
  totp_valid = λ secret code now. str_eq secret code;
  verify-hash = λ p. eq_refl p;
  verify-none = λ p. refl;
}

empty_directory : Directory
empty_directory = record {
  connect = λ url. ok tt;
  simple_bind = λ url dn password. ok tt;
  search = λ url base filter. ok [];
}

abbrev person : ℕ → String → String → Bool → User
person id username role has_2fa = record {
  id = id;
  username = username;
  email = none;
  hashed_password = some "secret";
  is_active = true;
  role = role;
  is_ldap_user = false;
  department = none;
  has_2fa = has_2fa;
  totp_secret = none;
  last_login = some 1;
  password_changed_at = none;
}

abbrev alice : User
alice = person 1 "alice" "admin" false

abbrev bob : User
bob = person 2 "bob" "operator" true

abbrev token_row : RefreshToken
token_row = record { user_id = 2; token = "t"; expires_at = 900; is_revoked = false }

abbrev old_log : AuditLog
old_log = record {
  timestamp = 5;
  user_id = some 1;
  username = some "alice";
  event_type = "logout";
  details = [];
  success = true;
}

abbrev office : Db
office = record {
  users = alice ∷ bob ∷ [];
  next_user = 3;
  audit_logs = old_log ∷ [];
  refresh_tokens = token_row ∷ [];
  used_totp = [];
  ldap_config = [];
}

verify-create_example :
    verify_refresh_token 20 "new" (create_refresh_token 10 "new" 1 office)
    ≡ (if ltb (10 + 86400) 20 then none else get_user_by_id office 1)
verify-create_example = verify-create 10 20 "new" 1 office refl

verify-revoke_test : verify_refresh_token 20 "t" (revoke_refresh_token "t" office).1 ≡ none
verify-revoke_test = verify-revoke 20 "t" office

verify-revoke_all_example :
    verify_refresh_token 20 "t" (revoke_all_user_refresh_tokens 2 office).1
    ≡ (if true then none else verify_refresh_token 20 "t" office)
verify-revoke_all_example = verify-revoke_all 20 2 "t" office token_row refl

abbrev carol : User
carol = record (person 3 "carol" "operator" true) { totp_secret = some "123456" }

accepted : (verify_totp plain 10 carol "123456" office).0 ≡ true
unfolding verify_totp plain
accepted = refl

abbrev events : List Event
events = cleaned 604810 ∷ verified 30 bob "1" ∷ []

verify_totp-replay_example :
    (verify_totp plain 604810 carol "123456"
      (after plain events (verify_totp plain 10 carol "123456" office).1)).0
    ≡ false
verify_totp-replay_example =
    verify_totp-replay plain 10 604810 carol carol "123456" events office accepted refl
      (omega arith, (tt, tt))

-- The clean-up after that forgets the code.
cleanup_test :
    (cleanup_expired_records 604811 (verify_totp plain 10 carol "123456" office).1).used_totp ≡ []
unfolding cleanup_expired_records verify_totp record_totp plain
cleanup_test = refl

verify_totp_sound_test :
    (secret : String) × (carol.totp_secret ≡ some secret)
    × (plain.totp_valid secret "123456" 10 ≡ true)
    × (is_used carol.id "123456" office.used_totp ≡ false)
    × ((verify_totp plain 10 carol "123456" office).1 ≡ record_totp 10 carol.id "123456" office)
verify_totp_sound_test = verify_totp_sound plain 10 carol "123456" office accepted

verify_backup_code-once_test :
    (verify_backup_code (verify_backup_code ("A" ∷ "B" ∷ []) "A").1 "A").0 ≡ false
verify_backup_code-once_test = verify_backup_code-once ("A" ∷ "B" ∷ []) "A" (refl, (refl, tt))

abbrev dave : UserCreate
dave = record {
  username = "dave";
  email = none;
  password = some "pw";
  role = none;
  department = none;
  is_active = none;
  is_ldap_user = none;
  has_2fa = none;
}

login-build_user_example :
    (login plain empty_directory 10 "new"
      (record { username = "dave"; password = "pw" })
      (build_user dave office).1).0
    ≡ err (http_exception 401 "用户名或密码错误")
unfolding build_user add_user new_user needs_password
login-build_user_example =
    login-build_user plain empty_directory 10 "new" "pw" dave (new_user dave 3) office refl refl

abbrev form : String → Form
form name = record { username = name; password = "secret" }

login-IsGrounded_example : IsGrounded plain empty_directory office (form "alice")
unfolding login login_local issue_tokens check_second_factor plain create_access_token
login-IsGrounded_example =
    login-IsGrounded plain empty_directory 10 "new" (form "alice") office
      (tokens "alice" "new" (some false)) refl

verify-setup_totp_for_user_example :
    (verify_totp_endpoint plain 20 "new" "123456" "alice"
      (setup_totp_for_user 10 (some "alice") "123456" [] office).1).0
    ≡ ok (tokens (create_access_token plain 20 "alice" (some 30)) "new" none)
unfolding plain
verify-setup_totp_for_user_example =
    verify-setup_totp_for_user plain 10 20 "alice" "123456" "123456" "new" [] alice office refl refl
      refl refl refl refl

endpoints-IsRefused_example :
    IsRefused office (disable_user_endpoint 10 (some bob) "alice" (some false) office)
    × IsRefused office (reset_password_endpoint plain 10 (some bob) "alice" "x" office)
    × IsRefused office (toggle_2fa_endpoint 10 (some bob) "alice" true office)
    × IsRefused office (update_role 10 (some bob) "alice" "x" office)
    × IsRefused office (update_department 10 (some bob) "alice" "x" office)
    × IsRefused office (delete_user 10 (some bob) "alice" office)
endpoints-IsRefused_example =
    endpoints-IsRefused plain 10 (some bob) "alice" "x" (some false) true office refl

authenticate-reset_password_test :
    authenticate_user plain (reset_password plain 10 "bob" "other" office).1 "bob" "other"
    ≡ some
        (record bob { hashed_password = some (plain.hash "other"); password_changed_at = some 10 })
authenticate-reset_password_test =
    authenticate-reset_password plain 10 "bob" "other" bob office refl

update_role-IsPowerless_example :
    (after : User) × (get_user (update_role 10 (some alice) "bob" "Operator" office).1 "bob"
      ≡ some after)
    × (str_eq after.role "admin" ≡ false)
    × ((permission : String) → has_permission after permission ≡ false)
unfolding update_role
update_role-IsPowerless_example =
    update_role-IsPowerless 10 (some alice) "bob" "Operator" "User role updated successfully" bob
      office refl refl

with_active_user-IsNamed_example :
    (user : User) × IsNamed "2" office user
    × (user.is_active ≡ true)
    × (with_active_user plain 10 "2" (logout 10) office ≡ logout 10 user office)
unfolding with_active_user get_current_user user_of_subject int_of_digits some_char value_from
    logout plain
with_active_user-IsNamed_example =
    with_active_user-IsNamed plain 10 "2" "2" (logout 10) "Successfully logged out" office refl
      (omega arith, tt) refl

abbrev policy : SecuritySettings
policy = record {
  password_complexity_enabled = true;
  password_min_length = 8;
  password_require_uppercase = true;
  password_require_lowercase = true;
  password_require_numbers = true;
  password_require_special = false;
}

change_password-IsStrong_example :
    (plain.verify "secret" alice.hashed_password ≡ true)
    × IsStrong policy "Abcdefg1"
    × ((change_password plain (some policy) 10 alice "secret" "Abcdefg1" office).1.users
        ≡ (assign alice.id
            (λ u. record u {
              hashed_password = some (plain.hash "Abcdefg1");
              password_changed_at = some 10;
            })
            office).users)
unfolding change_password password_problem has_upper has_lower has_number some_char plain
    verify_text
change_password-IsStrong_example =
    change_password-IsStrong plain policy 10 alice "secret" "Abcdefg1" office refl refl

cleanup_old_logs_lem_test :
    ((cleanup_old_logs 9999999 1 office).0 + length (cleanup_old_logs 9999999 1 office).1.audit_logs
      ≡ length office.audit_logs)
    × All
        (λ l. not (ltb l.timestamp (9999999 - 1 * 30 * 86400)) ≡ true)
        (cleanup_old_logs 9999999 1 office).1.audit_logs
cleanup_old_logs_lem_test = cleanup_old_logs_lem 9999999 1 office
