-- ===== src/Auth/Sessions.antt =====
-- The user of a request (netops-backend/auth/authentication.py), and the endpoints for the user
-- alone (routes/auth.py and routes/users.py).
pub mod Active
use Prim.Native.Char.{Char, code}
use Prim.Native.String as Text
use net_soc_ops.Prelude.{
  ℕ, suc, ◌+◌, ◌-◌, ◌*◌, String, Bool, true, false, not, ◌&&◌, ◌||◌, Option, none, some, List, [],
  ◌∷◌, leb, ltb, ◌==◌, str_eq, if◌then◌else◌,
}
use net_soc_ops.Prelude.Results.{Result, ok, err}
use net_soc_ops.Auth.Store.{User, Db, Crypto}
use net_soc_ops.Auth.Http.{Failure, http_exception, Handler, reply, raise}
use net_soc_ops.Auth.Audit.{of_user, log_event}
use net_soc_ops.Auth.Tokens.{get_user, get_user_by_id}
use net_soc_ops.Auth.Totp.{assign}

-- A character between two others, by their codes.
abbrev pub within : ℕ → ℕ → Char → Bool
within lo hi c = leb lo (code c) && leb (code c) hi

-- `re.search` of a class of characters.
unfoldable pub some_char : (Char → Bool) → String → Bool
some_char p Text.[] = false
some_char p (Text.◌∷◌ c s) = p c || some_char p s

unfoldable pub value_from : ℕ → String → ℕ
value_from acc Text.[] = acc
value_from acc (Text.◌∷◌ c s) = value_from (acc * 10 + (code c - 48)) s

-- `int(sub)` where `sub.isdigit()`, on the ASCII digits.
unfoldable pub int_of_digits : String → Option ℕ
unfolding some_char value_from
int_of_digits s =
    if str_eq s ""
    then none
    else if some_char (λ c. not (within 48 57 c)) s
    then none
    else some (value_from 0 s)

-- The user of a subject: by the number, then by the name.
unfoldable pub user_of_subject : String → Db → Option User
unfolding int_of_digits
user_of_subject sub db = by_id (int_of_digits sub)
  where
    or_name : Option User → Option User
    or_name none = get_user db sub
    or_name (some u) = some u

    by_id : Option ℕ → Option User
    by_id none = get_user db sub
    by_id (some n) = or_name (get_user_by_id db n)

-- A token that does not decode raises, as does one without a subject: both are `none` here.
unfoldable pub get_current_user_optional : Crypto → ℕ → Option String → Db → Option User
unfolding user_of_subject
get_current_user_optional c now token db = elim token [
  | none ↦ none
  | some t ↦ elim (c.decode t now) [ none ↦ none | some sub ↦ user_of_subject sub db ]
]

unfoldable pub get_current_user : Crypto → ℕ → String → Handler User
unfolding user_of_subject
get_current_user c now token db = elim (c.decode token now) [
  | none ↦ raise (http_exception 401 "Could not validate credentials") db
  | some sub ↦ elim (user_of_subject sub db) [
    | none ↦ raise (http_exception 401 "Could not validate credentials") db
    | some user ↦ reply user db
  ]
]

-- What an endpoint that depends on an active user runs with.
unfoldable pub with_active_user {ℓ} :
    {A : Type ℓ} → Crypto → ℕ → String → (User → Handler A) → Handler A
unfolding get_current_user
with_active_user {A} c now token func db = checked (get_current_user c now token db)
  where
    checked : Result Failure User × Db → Result Failure A × Db
    checked (err e, db') = (err e, db')
    checked (ok user, db') =
        if user.is_active then func user db' else raise (http_exception 400 "Inactive user") db'

unfoldable pub logout : ℕ → User → Handler String
unfolding log_event
logout now current_user db =
    reply "Successfully logged out" (log_event now "logout" (of_user current_user) [] true db)

-- A row of the table of the security settings, with the fields that are read.
pub record SecuritySettings : Type 0 where
  pub password_complexity_enabled : Bool
  pub password_min_length : ℕ
  pub password_require_uppercase : Bool
  pub password_require_lowercase : Bool
  pub password_require_numbers : Bool
  pub password_require_special : Bool

-- `len` of a text.
abbrev pub text_length : String → ℕ
text_length Text.[] = 0
text_length (Text.◌∷◌ c s) = suc (text_length s)

one_of : String → Char → Bool
one_of Text.[] c = false
one_of (Text.◌∷◌ d s) c = code d == code c || one_of s c

unfoldable pub has_upper : String → Bool
unfolding some_char
has_upper = some_char (within 65 90)

unfoldable pub has_lower : String → Bool
unfolding some_char
has_lower = some_char (within 97 122)

unfoldable pub has_number : String → Bool
unfolding some_char
has_number = some_char (within 48 57)

unfoldable pub has_special : String → Bool
unfolding some_char one_of
has_special = some_char (one_of "!@#$%^&*(),.?\":{}|<>")

-- The first rule that a new password breaks; the length that is wanted is left out of its message.
unfoldable pub password_problem : SecuritySettings → String → Option String
password_problem settings new_password =
    if settings.password_complexity_enabled
    then (if ltb (text_length new_password) settings.password_min_length
        then some "Password is too short"
        else if settings.password_require_uppercase && not (has_upper new_password)
        then some "Password must contain at least one uppercase letter"
        else if settings.password_require_lowercase && not (has_lower new_password)
        then some "Password must contain at least one lowercase letter"
        else if settings.password_require_numbers && not (has_number new_password)
        then some "Password must contain at least one number"
        else if settings.password_require_special && not (has_special new_password)
        then some "Password must contain at least one special character"
        else none)
    else none

-- The policy in force: the first row of the table, or a blank object, whose attributes are `None`.
abbrev pub policy_in_force : Option SecuritySettings → SecuritySettings
policy_in_force (some settings) = settings
policy_in_force none = record {
  password_complexity_enabled = false;
  password_min_length = 0;
  password_require_uppercase = false;
  password_require_lowercase = false;
  password_require_numbers = false;
  password_require_special = false;
}

-- `first_row` is the first row of the table of the security settings, if it has one.
unfoldable pub change_password :
    Crypto → Option SecuritySettings → ℕ → User → String → String → Handler (Unit {0})
unfolding log_event password_problem
change_password c first_row now current_user old_password new_password db =
    if c.verify old_password current_user.hashed_password
    then (elim (password_problem (policy_in_force first_row) new_password) [
      | some problem ↦ raise (http_exception 400 problem) db
      | none ↦ reply tt (
          log_event now "change_password" (of_user current_user) [] true (
            assign current_user.id
              (λ u. record u {
                hashed_password = some (c.hash new_password);
                password_changed_at = some now;
              })
              db))
    ])
    else raise (http_exception 400 "Invalid old password") (
        log_event now "change_password" (of_user current_user)
          (("reason", "Invalid old password") ∷ []) false db)
