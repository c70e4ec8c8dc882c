-- ===== src/Auth/Totp.antt =====
-- The second factor: netops-backend/auth/totp.py. Secrets and codes that the program draws at
-- random are arguments.
pub mod Replay
use net_soc_ops.Prelude.{
  ℕ, ◌+◌, ◌*◌, String, Bool, true, false, ◌&&◌, Option, none, some, List, [], ◌∷◌, ◌++◌, any, not,
  select, ltb, update, elem, str_eq, ◌==◌, if◌then◌else◌,
}
use net_soc_ops.Auth.Store.{User, UsedTotp, Db, Crypto}

-- The assignments to a user object, written to its row by the commit.
abbrev pub assign : ℕ → (User → User) → Db → Db
assign user_id f db = record db { users = update (λ u. u.id == user_id) f db.users }

-- What `setup_totp` returns, without the address, which holds the same secret.
pub record TotpData : Type 0 where
  pub secret : String
  pub backup_codes : List String

-- The secret and the ten codes are what `random_base32` and `random.choices` yield. `has_2fa` is
-- not set here; the codes are put on the object only, for want of a column.
unfoldable pub setup_totp : User → String → List String → Db → TotpData × Db
setup_totp user totp_secret codes db = (
  record { secret = totp_secret; backup_codes = codes },
  assign user.id (λ u. record u { totp_secret = some totp_secret }) db,
)

abbrev pub is_used : ℕ → String → List UsedTotp → Bool
is_used user_id totp_code rows =
    any (λ r. r.user_id == user_id && str_eq r.totp_code totp_code) rows

abbrev pub seven_days : ℕ
seven_days = 7 * 86400

unfoldable pub record_totp : ℕ → ℕ → String → Db → Db
record_totp now user_id totp_code db = record db {
  used_totp =
      db.used_totp
      ++ record {
        user_id = user_id;
        totp_code = totp_code;
        used_at = now;
        expires_at = now + seven_days;
      }
        ∷ [];
}

-- `cleanup_expired_records` of netops-backend/main.py: the codes and the tokens that are past their
-- end go.
unfoldable pub cleanup_expired_records : ℕ → Db → Db
cleanup_expired_records now db = record db {
  used_totp = select (λ r. not (ltb r.expires_at now)) db.used_totp;
  refresh_tokens = select (λ r. not (ltb r.expires_at now)) db.refresh_tokens;
}

-- An empty secret counts as none.
unfoldable pub verify_totp : Crypto → ℕ → User → String → Db → Bool × Db
verify_totp c now user totp_code db = elim user.totp_secret [
  | none ↦ (false, db)
  | some secret ↦
      if str_eq secret ""
      then (false, db)
      else if is_used user.id totp_code db.used_totp
      then (false, db)
      else if c.totp_valid secret totp_code now
      then (true, record_totp now user.id totp_code db)
      else (false, db)
]

-- `list.remove`: the first element that is equal.
abbrev pub remove : String → List String → List String
remove code [] = []
remove code (x ∷ xs) = if str_eq code x then xs else x ∷ remove code xs

-- `user.backup_codes` of an object: the codes, which stay with the object.
unfoldable pub verify_backup_code : List String → String → Bool × List String
verify_backup_code backup_codes backup_code =
    if elem backup_code backup_codes
    then (true, remove backup_code backup_codes)
    else (false, backup_codes)
