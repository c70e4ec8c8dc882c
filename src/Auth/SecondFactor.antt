-- ===== src/Auth/SecondFactor.antt =====
-- netops-backend/routes/auth.py: the endpoints of the second factor. The refresh token, the secret
-- and the codes that are drawn are arguments.
pub mod Takeover
use net_soc_ops.Prelude.{
  ℕ, String, Bool, true, false, ◌&&◌, Option, none, some, List, [], ◌∷◌, str_eq, if◌then◌else◌,
}
use net_soc_ops.Prelude.Results.{Result, ok, err}
use net_soc_ops.Auth.Store.{User, Db, Crypto}
use net_soc_ops.Auth.Http.{Failure, http_exception, Handler, reply, raise}
use net_soc_ops.Auth.Audit.{of_user, log_event}
use net_soc_ops.Auth.Tokens.{get_user, authenticate_user}
use net_soc_ops.Auth.Totp.{assign, TotpData, setup_totp, verify_totp}
use net_soc_ops.Auth.Login.{Reply, issue_tokens}

abbrev has_secret : User → Bool
has_secret user = elim user.totp_secret [
  | none ↦ false
  | some s ↦ if str_eq s "" then false else true
]

-- The switch to the second factor at the first code that is right.
unfoldable pub enable_2fa : ℕ → User → Db → Db
unfolding log_event
enable_2fa now user db =
    if user.has_2fa
    then db
    else log_event now "totp_enabled" (of_user user) [] true
        (assign user.id (λ u. record u { has_2fa = true }) db)

unfoldable pub verify_totp_endpoint : Crypto → ℕ → String → String → String → Handler Reply
unfolding verify_totp enable_2fa issue_tokens log_event
verify_totp_endpoint c now token totp_code username db = elim (get_user db username) [
  | none ↦ raise (http_exception 404 "User not found") db
  | some user ↦
      if has_secret user
      then answer user (verify_totp c now user totp_code db)
      else raise (http_exception 400 "TOTP not set up for this user") db
]
  where
    answer : User → Bool × Db → Result Failure Reply × Db
    answer user (false, db') = raise (http_exception 401 "Invalid TOTP code") (
        log_event now "totp_verify" (of_user user) (("reason", "Invalid TOTP code") ∷ []) false db')
    answer user (true, db') =
        issue_tokens c now token user "totp_verify" (some 30) [] none (enable_2fa now user db')

-- The set-up and its event.
unfoldable pub setup_and_log : ℕ → User → String → List String → Handler TotpData
unfolding setup_totp log_event
setup_and_log now user secret codes db = (
  ok (setup_totp user secret codes db).0,
  log_event now "totp_setup" (of_user user) [] true (setup_totp user secret codes db).1,
)

-- The endpoint for the caller.
unfoldable pub setup_totp_endpoint : ℕ → User → String → List String → Handler TotpData
unfolding setup_and_log
setup_totp_endpoint now current_user secret codes db =
    if current_user.is_active
    then setup_and_log now current_user secret codes db
    else raise (http_exception 400 "Inactive user") db

-- The endpoint for a name in the request, which takes no credentials. An empty name counts as none.
unfoldable pub setup_totp_for_user : ℕ → Option String → String → List String → Handler TotpData
unfolding setup_and_log
setup_totp_for_user now username secret codes db = elim username [
  | none ↦ raise (http_exception 422 "Username is required") db
  | some name ↦
      if str_eq name ""
      then raise (http_exception 422 "Username is required") db
      else for_user (get_user db name)
]
  where
    for_user : Option User → Result Failure TotpData × Db
    for_user none = raise (http_exception 404 "User not found") db
    for_user (some user) =
        if user.has_2fa && has_secret user
        then raise (http_exception 400 "User already has 2FA enabled") db
        else setup_and_log now user secret codes db

unfoldable pub direct_totp_setup :
    Crypto → ℕ → String → String → String → List String → Handler TotpData
unfolding authenticate_user setup_and_log
direct_totp_setup c now username password secret codes db =
    for_user (authenticate_user c db username password)
  where
    for_user : Option User → Result Failure TotpData × Db
    for_user none = raise (http_exception 401 "Incorrect username or password") db
    for_user (some user) =
        if user.has_2fa
        then raise (http_exception 400 "TOTP already enabled for this user") db
        else setup_and_log now user secret codes db
