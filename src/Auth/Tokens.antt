-- ===== src/Auth/Tokens.antt =====
-- The refresh tokens and the users of netops-backend/auth/authentication.py. The time and the
-- random text are arguments.
pub mod Lifecycle
use net_soc_ops.Prelude.{
  ℕ, ◌+◌, ◌*◌, String, Bool, true, false, not, Option, none, some, List, [], ◌∷◌, ◌++◌, find,
  select, update, modify_first, length, str_eq, ltb, ◌==◌, if◌then◌else◌,
}
use net_soc_ops.Auth.Store.{User, RefreshToken, Db, Crypto}

abbrev pub get_user : Db → String → Option User
get_user db username = find (λ u. str_eq u.username username) db.users

abbrev pub get_user_by_id : Db → ℕ → Option User
get_user_by_id db user_id = find (λ u. u.id == user_id) db.users

-- `None` is the program's `False`.
unfoldable pub authenticate_user : Crypto → Db → String → String → Option User
authenticate_user c db username password = elim (get_user db username) [
  | none ↦ none
  | some user ↦ if c.verify password user.hashed_password then some user else none
]

abbrev pub access_token_expire_minutes : ℕ
access_token_expire_minutes = 30

-- The subject, the time and the minutes that the caller asks for.
unfoldable pub create_access_token : Crypto → ℕ → String → Option ℕ → String
create_access_token c now sub expires_delta = elim expires_delta [
  | none ↦ c.encode sub (now + access_token_expire_minutes * 60)
  | some minutes ↦ c.encode sub (now + minutes * 60)
]

abbrev one_day : ℕ
one_day = 86400

unfoldable pub create_refresh_token : ℕ → String → ℕ → Db → Db
create_refresh_token now token user_id db = record db {
  refresh_tokens =
      db.refresh_tokens
      ++ record { user_id = user_id; token = token; expires_at = now + one_day; is_revoked = false }
        ∷ [];
}

abbrev pub find_token : String → List RefreshToken → Option RefreshToken
find_token token rows = find (λ r. str_eq r.token token) rows

unfoldable pub verify_refresh_token : ℕ → String → Db → Option User
verify_refresh_token now token db = elim (find_token token db.refresh_tokens) [
  | none ↦ none
  | some r ↦
      if r.is_revoked
      then none
      else if ltb r.expires_at now
      then none
      else get_user_by_id db r.user_id
]

abbrev revoked : RefreshToken → RefreshToken
revoked r = record r { is_revoked = true }

unfoldable pub revoke_refresh_token : String → Db → Bool × Db
revoke_refresh_token token db = elim (find_token token db.refresh_tokens) [
  | none ↦ (false, db)
  | some r ↦ (
    true,
    record db {
      refresh_tokens = modify_first (λ q. str_eq q.token token) revoked db.refresh_tokens;
    },
  )
]

unfoldable pub revoke_all_user_refresh_tokens : ℕ → Db → ℕ × Db
revoke_all_user_refresh_tokens user_id db = (
  length (select (λ r. r.user_id == user_id) db.refresh_tokens),
  record db { refresh_tokens = update (λ r. r.user_id == user_id) revoked db.refresh_tokens },
)
