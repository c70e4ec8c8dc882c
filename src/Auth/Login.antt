-- ===== src/Auth/Login.antt =====
-- netops-backend/routes/auth.py: the two login endpoints. The refresh token that is drawn is an
-- argument.
pub mod Sound
use net_soc_ops.Prelude.{
  ℕ, String, Bool, true, false, Option, none, some, List, [], ◌∷◌, is_some, str_eq, if◌then◌else◌,
}
use net_soc_ops.Prelude.Results.{Result, ok, err}
use net_soc_ops.Auth.Store.{User, Db, Crypto}
use net_soc_ops.Auth.Http.{
  Failure, http_exception, attribute_error, type_error, pending_rollback_error, Handler, reply,
  raise,
}
use net_soc_ops.Auth.Audit.{of_user, of_name, log_event}
use net_soc_ops.Auth.Tokens.{get_user, create_access_token, create_refresh_token}
use net_soc_ops.Auth.Totp.{assign}
use net_soc_ops.Auth.Ldap.{Directory, Refusal, refused, broken_session, ldap_authenticate}

-- A reply with tokens, or the flag that a second factor is wanted, which the program puts in the
-- place of the access token.
pub data Reply : Type 0 where
  second_factor_required : String → Reply
  tokens : String → String → Option Bool → Reply

-- The fields of `OAuth2PasswordRequestForm` that are read. It has no `totp_code`.
pub record Form : Type 0 where
  pub username : String
  pub password : String

abbrev totp_code : Form → Result Failure (Option String)
totp_code form_data = err attribute_error

unfoldable pub set_last_login : ℕ → User → Db → Db
set_last_login now user db = assign user.id (λ u. record u { last_login = some now }) db

-- The tokens, the time of the login and the event, in the order of the endpoints.
unfoldable pub issue_tokens :
    Crypto
    → ℕ
    → String
    → User
    → String
    → Option ℕ
    → List (String × String)
    → Option Bool
    → Handler Reply
unfolding create_access_token create_refresh_token set_last_login log_event
issue_tokens c now token user event_type minutes details is_first_login db =
    reply (tokens (create_access_token c now user.username minutes) token is_first_login) (
      log_event now event_type (of_user user) details true
        (set_last_login now user (create_refresh_token now token user.id db)))

-- What follows an LDAP authentication that has succeeded.
unfoldable pub complete_ldap_login : Crypto → ℕ → String → User → Handler Reply
unfolding issue_tokens log_event
complete_ldap_login c now token user db =
    if user.has_2fa
    then reply (second_factor_required user.username)
        (log_event now "ldap_login_2fa_required" (of_user user) [] true db)
    else issue_tokens c now token user "ldap_login_success" none [] none db

-- A name without a row.
unfoldable pub login_unknown : Crypto → Directory → ℕ → String → Form → Handler Reply
unfolding ldap_authenticate complete_ldap_login log_event
login_unknown c d now token form_data db =
    after (ldap_authenticate d form_data.username form_data.password db)
  where
    after : Result Refusal User × Db → Result Failure Reply × Db
    after (ok user, db') = complete_ldap_login c now token user db'
    after (err broken_session, db') = raise pending_rollback_error db'
    after (err (refused ldap_error), db') = raise (http_exception 401 "用户名或密码错误") (
        log_event now "login_failed" (of_name form_data.username)
          (("reason", "用户名或密码错误") ∷ ("ldap_error", ldap_error) ∷ []) false db')

-- A row of a directory's user.
unfoldable pub login_ldap_user : Crypto → Directory → ℕ → String → Form → User → Handler Reply
unfolding ldap_authenticate complete_ldap_login log_event
login_ldap_user c d now token form_data user db =
    after (ldap_authenticate d form_data.username form_data.password db)
  where
    after : Result Refusal User × Db → Result Failure Reply × Db
    after (ok u, db') = complete_ldap_login c now token u db'
    after (err broken_session, db') = raise pending_rollback_error db'
    after (err (refused ldap_error), db') =
        raise (http_exception 401 "LDAP认证失败")
          (log_event now "ldap_login_failed" (of_user user) (("reason", ldap_error) ∷ []) false db')

-- `verify_totp(user.totp_secret, form_data.totp_code)`: two arguments for three parameters.
abbrev call_verify_totp : Option String → Option String → Result Failure Bool
call_verify_totp secret code = err type_error

-- The second factor of a local user: the attribute of the form, then the check.
unfoldable pub check_second_factor : ℕ → Form → User → Db → Result Failure (Unit {0}) × Db
unfolding log_event
check_second_factor now form_data user db =
    if user.has_2fa then with_code (totp_code form_data) else (ok tt, db)
  where
    with_verdict : Result Failure Bool → Result Failure (Unit {0}) × Db
    with_verdict (err e) = (err e, db)
    with_verdict (ok true) = (ok tt, db)
    with_verdict (ok false) =
        (err (http_exception 401 "2FA验证码错误"), log_event now "2fa_failed" (of_user user) [] false db)

    with_code : Result Failure (Option String) → Result Failure (Unit {0}) × Db
    with_code (err e) = (err e, db)
    with_code (ok none) = (err (http_exception 401 "需要2FA验证码"), db)
    with_code (ok (some code)) =
        if str_eq code ""
        then (err (http_exception 401 "需要2FA验证码"), db)
        else with_verdict (call_verify_totp user.totp_secret (some code))

abbrev settings_minutes : ℕ
settings_minutes = 30

-- The row of a local user: the password, the first login, the second factor.
unfoldable pub login_local : Crypto → ℕ → String → Form → User → Handler Reply
unfolding issue_tokens check_second_factor log_event
login_local c now token form_data user db =
    if c.verify form_data.password user.hashed_password
    then (if is_some user.last_login
        then later (check_second_factor now form_data user db)
        else issue_tokens c now token user "first_login" (some settings_minutes) [] (some true) db)
    else raise (http_exception 401 "用户名或密码错误") (
        log_event now "login_failed" (of_name form_data.username) (("reason", "密码错误") ∷ []) false
          db)
  where
    later : Result Failure (Unit {0}) × Db → Result Failure Reply × Db
    later (err e, db') = (err e, db')
    later (ok u, db') = issue_tokens c now token user "login_success" none [] (some false) db'

unfoldable pub login : Crypto → Directory → ℕ → String → Form → Handler Reply
unfolding login_unknown login_ldap_user login_local
login c d now token form_data db = elim (get_user db form_data.username) [
  | none ↦ login_unknown c d now token form_data db
  | some user ↦
      if user.is_ldap_user
      then login_ldap_user c d now token form_data user db
      else login_local c now token form_data user db
]

-- The endpoint for users of the directory alone; it leaves `last_login` as it is.
unfoldable pub ldap_login : Crypto → Directory → ℕ → String → String → String → Handler Reply
unfolding ldap_authenticate create_access_token create_refresh_token log_event
ldap_login c d now token username password db = after (ldap_authenticate d username password db)
  where
    after : Result Refusal User × Db → Result Failure Reply × Db
    after (err broken_session, db') = raise pending_rollback_error db'
    after (err (refused error), db') =
        raise (http_exception 401 error)
          (log_event now "ldap_login" (of_name username) (("reason", error) ∷ []) false db')
    after (ok user, db') =
        if user.has_2fa
        then reply (second_factor_required user.username)
            (log_event now "ldap_login_2fa_required" (of_user user) [] true db')
        else reply (tokens (create_access_token c now user.username (some 30)) token none) (
            log_event now "ldap_login" (of_user user) [] true
              (create_refresh_token now token user.id db'))
