-- ===== src/Auth/SecondFactor/Takeover.antt =====
-- The endpoints of the second factor, one after the other.
use net_soc_ops.Prelude.{
  ℕ, String, ◌≡◌, refl, true, false, ◌&&◌, none, some, List, find-update, str_eq, ==_iff, ◌==◌,
}
use net_soc_ops.Prelude.Results.{ok}
use net_soc_ops.Auth.Store.{User, Db, Crypto}
use net_soc_ops.Auth.Audit.{log_event}
use net_soc_ops.Auth.Tokens.{get_user, create_access_token}
use net_soc_ops.Auth.Totp.{is_used, setup_totp, verify_totp}
use net_soc_ops.Auth.Login.{tokens, issue_tokens}
use net_soc_ops.Auth.SecondFactor.{
  has_secret, setup_and_log, setup_totp_for_user, verify_totp_endpoint,
}

get_user-setup :
    (now : ℕ) (name secret : String) (codes : List String) (user : User) (db : Db)
    → get_user db name ≡ some user
    → get_user (setup_and_log now user secret codes db).1 name
      ≡ some (record user { totp_secret = some secret })
unfolding setup_and_log setup_totp log_event
get_user-setup now name secret codes user db found =
    find-update (λ u. str_eq u.username name) (λ u. u.id == user.id)
      (λ u. record u { totp_secret = some secret }) db.users user (λ x. refl)
      ((==_iff user.id user.id).1 refl) found

setup-runs :
    (now : ℕ) (name secret : String) (codes : List String) (user : User) (db : Db)
    → get_user db name ≡ some user
    → user.has_2fa && has_secret user ≡ false
    → str_eq name "" ≡ false
    → setup_totp_for_user now (some name) secret codes db ≡ setup_and_log now user secret codes db
unfolding setup_totp_for_user
setup-runs now name secret codes user db found unset named =
    rw (named, setup_totp_for_user) (rw (found, setup_totp_for_user) (rw unset))

verify-runs :
    (c : Crypto) (now : ℕ) (name secret code token : String) (user : User) (db : Db)
    → get_user db name ≡ some (record user { totp_secret = some secret })
    → str_eq secret "" ≡ false
    → c.totp_valid secret code now ≡ true
    → is_used user.id code db.used_totp ≡ false
    → (verify_totp_endpoint c now token code name db).0
      ≡ ok (tokens (create_access_token c now user.username (some 30)) token none)
unfolding verify_totp_endpoint verify_totp issue_tokens
verify-runs c now name secret code token user db found drawn valid fresh =
    rw (found, verify_totp_endpoint) (rw drawn (rw fresh (rw valid)))

-- Two requests without a password, a set-up for the name and a check of a code that is right for
-- the secret that was drawn, yield tokens of the user of that name, unless the user has a second
-- factor with a secret or has used the code before. The name and the secret must not be empty.
pub verify-setup_totp_for_user :
    (c : Crypto) (now later : ℕ) (name secret code token : String) (codes : List String)
    (user : User) (db : Db)
    → get_user db name ≡ some user
    → user.has_2fa && has_secret user ≡ false
    → str_eq name "" ≡ false
    → str_eq secret "" ≡ false
    → c.totp_valid secret code later ≡ true
    → is_used user.id code db.used_totp ≡ false
    → (verify_totp_endpoint c later token code name
        (setup_totp_for_user now (some name) secret codes db).1).0
      ≡ ok (tokens (create_access_token c later user.username (some 30)) token none)
unfolding setup_and_log setup_totp log_event
verify-setup_totp_for_user c now later name secret code token codes user db found unset named drawn
      valid fresh =
    let db' = (setup_and_log now user secret codes db).1 in
    let after = get_user-setup now name secret codes user db found in
    rw (setup-runs now name secret codes user db found unset named)
      (verify-runs c later name secret code token user db' after drawn valid fresh)
