-- ===== src/Auth/Store.antt =====
-- The tables of netops-backend/database/models.py, and what the program uses of passlib, jose,
-- pyotp and secrets.
use net_soc_ops.Prelude.{ℕ, String, Bool, true, false, ◌≡◌, Option, none, some, List}

-- `hashed_password` is `None` for a user without one; the class has no column for backup codes.
-- Times are numbers of seconds; `last_login` and the like are texts in the program, and only read back by
-- `fromisoformat`.
pub record User : Type 0 where
  pub id : ℕ
  pub username : String
  pub email : Option String
  pub hashed_password : Option String
  pub is_active : Bool
  pub role : String
  pub is_ldap_user : Bool
  pub department : Option String
  pub has_2fa : Bool
  pub totp_secret : Option String
  pub last_login : Option ℕ
  pub password_changed_at : Option ℕ

pub record AuditLog : Type 0 where
  pub timestamp : ℕ
  pub user_id : Option ℕ
  pub username : Option String
  pub event_type : String
  pub details : List (String × String)
  pub success : Bool

pub record RefreshToken : Type 0 where
  pub user_id : ℕ
  pub token : String
  pub expires_at : ℕ
  pub is_revoked : Bool

pub record UsedTotp : Type 0 where
  pub user_id : ℕ
  pub totp_code : String
  pub used_at : ℕ
  pub expires_at : ℕ

pub record LdapConfig : Type 0 where
  pub server_url : String
  pub bind_dn : String
  pub bind_password : String
  pub search_base : String

pub record Db : Type 0 where
  pub users : List User
  pub next_user : ℕ
  pub audit_logs : List AuditLog
  pub refresh_tokens : List RefreshToken
  pub used_totp : List UsedTotp
  pub ldap_config : List LdapConfig

-- `verify` and `hash` of the password context, with `False` for a user without a hash; `encode`
-- and `decode` of a signed token with a subject and the time at which it expires, where `decode`
-- is given the time of the call; `TOTP(secret).verify(code, valid_window=1)` at a time.
pub record Crypto : Type 0 where
  pub verify : String → Option String → Bool
  pub hash : String → String
  pub encode : String → ℕ → String
  pub decode : String → ℕ → Option String
  pub totp_valid : String → String → ℕ → Bool
  pub verify-hash : (p : String) → verify p (some (hash p)) ≡ true
  pub verify-none : (p : String) → verify p none ≡ false
