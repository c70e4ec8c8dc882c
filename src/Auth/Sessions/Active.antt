-- ===== src/Auth/Sessions/Active.antt =====
-- What an endpoint behind a token runs for, and the change of a password.
use Prim.Native.Char.{code}
use Prim.Native.String as Text
use net_soc_ops.Prelude.{
  ℕ, ◌+◌, ◌-◌, ◌*◌, ◌^◌, ◌==◌, ◌<◌, suc, get_or, find_sound, ==_iff, eq_iff, str_eq, ◌⊎◌, ap, ◌∙◌,
  sym, String, ◌≡◌, refl, inl, inr, true, false, not, ◌||◌, ltb, none, some, arith, Bool-cases,
  Option-cases,
}
use net_soc_ops.Prelude.Results.{ok}
use net_soc_ops.Auth.Store.{User, Db, Crypto}
use net_soc_ops.Auth.Http.{Handler}
use net_soc_ops.Auth.Audit.{log_event}
use net_soc_ops.Auth.Tokens.{get_user, get_user_by_id}
use net_soc_ops.Auth.Totp.{assign}
use net_soc_ops.Auth.Sessions.{
  within, some_char, value_from, int_of_digits, user_of_subject, get_current_user, with_active_user,
  SecuritySettings, text_length, has_upper, has_lower, has_number, has_special, password_problem,
  change_password,
}

abbrev IsDigits : String → Type 0
IsDigits Text.[] = Unit
IsDigits (Text.◌∷◌ c s) = (within 48 57 c ≡ true) × IsDigits s

-- The value of decimal digits, each by its place.
abbrev pub decimal : String → ℕ
decimal Text.[] = 0
decimal (Text.◌∷◌ c s) = (code c - 48) * 10 ^ text_length s + decimal s

pow_suc : (n : ℕ) → 10 ^ suc n ≡ 10 * 10 ^ n
pow_suc n = omega arith

some-inj : (x y : User) → some x ≡ some y → x ≡ y
some-inj x y h = ap (λ o. get_or o x) h

shift : (acc d p : ℕ) → (acc * 10 + d) * p ≡ acc * (10 * p) + d * p
shift acc d p = omega arith

value_from-decimal :
    (acc : ℕ) (s : String) → value_from acc s ≡ acc * 10 ^ text_length s + decimal s
unfolding value_from
value_from-decimal acc Text.[] = omega arith
value_from-decimal acc (Text.◌∷◌ c s) =
    value_from-decimal (acc * 10 + (code c - 48)) s
    ∙ (ap (λ x. x + decimal s) (shift acc (code c - 48) (10 ^ text_length s))
        ∙ (ap (λ p. acc * p + (code c - 48) * 10 ^ text_length s + decimal s)
              (sym (pow_suc (text_length s)))
            ∙ omega arith))

some_char-IsDigits : (s : String) → some_char (λ c. not (within 48 57 c)) s ≡ false → IsDigits s
unfolding some_char
some_char-IsDigits Text.[] h = tt
some_char-IsDigits (Text.◌∷◌ c s) h = (ground arith, some_char-IsDigits s (ground arith))

int_of_digits-decimal :
    (s : String) (n : ℕ)
    → int_of_digits s ≡ some n
    → (n ≡ decimal s) × (str_eq s "" ≡ false) × IsDigits s
unfolding int_of_digits
int_of_digits-decimal s n h = elim (Bool-cases (str_eq s "")) [
  | inl empty ↦ cc (rw empty at h)
  | inr full ↦
      let h1 = rw full at h in
      elim (Bool-cases (some_char (λ c. not (within 48 57 c)) s)) [
        | inl other ↦ cc (rw other at h1)
        | inr digits ↦
            let value : value_from 0 s ≡ n = cc (rw digits at h1) in
            (sym value ∙ (value_from-decimal 0 s ∙ omega arith), full, some_char-IsDigits s digits)
      ]
]

-- A text of one decimal digit or more.
abbrev IsNumber : String → Type 0
IsNumber s = (str_eq s "" ≡ false) × IsDigits s

IsDigits-some_char : (s : String) → IsDigits s → some_char (λ c. not (within 48 57 c)) s ≡ false
unfolding some_char
IsDigits-some_char Text.[] h = refl
IsDigits-some_char (Text.◌∷◌ c s) (digit, h) = rw digit (IsDigits-some_char s h)

int_of_digits-none : (s : String) → int_of_digits s ≡ none → ¬ IsNumber s
unfolding int_of_digits
int_of_digits-none s h (full, digits) = cc (rw (IsDigits-some_char s digits) at (rw full at h))

-- Whom a subject names: the user whose number it is, written in decimal digits, or, where it is no
-- number or no user has it, the user of that name.
pub IsNamed : String → Db → User → Type 0
IsNamed sub db user =
    (IsNumber sub × (user.id ≡ decimal sub) × (get_user_by_id db (decimal sub) ≡ some user))
    ⊎ ((user.username ≡ sub)
        × (get_user db sub ≡ some user)
        × ((¬ IsNumber sub) ⊎ (get_user_by_id db (decimal sub) ≡ none)))

by_name :
    (sub : String) (db : Db) (user : User)
    → (¬ IsNumber sub) ⊎ (get_user_by_id db (decimal sub) ≡ none)
    → get_user db sub ≡ some user
    → IsNamed sub db user
unfolding IsNamed
by_name sub db user other h = inr (
  (eq_iff user.username sub).0 (find_sound (λ u. str_eq u.username sub) db.users user h),
  h,
  other,
)

user_of_subject-IsNamed :
    (sub : String) (db : Db) (user : User)
    → user_of_subject sub db ≡ some user
    → IsNamed sub db user
unfolding user_of_subject IsNamed
user_of_subject-IsNamed sub db user h = elim (Option-cases (int_of_digits sub)) [
  | inl e ↦ by_name sub db user (inl (int_of_digits-none sub e)) (rw (e, user_of_subject) at h)
  | inr (n, e) ↦
      let h1 = rw (e, user_of_subject) at h in
      let (value, full, digits) = int_of_digits-decimal sub n e in
      elim (Option-cases (get_user_by_id db n)) [
        | inl absent ↦
            by_name sub db user (inr (ap (get_user_by_id db) (sym value) ∙ absent))
              (rw (absent, user_of_subject) at h1)
        | inr (u, found) ↦
            let same : u ≡ user = some-inj u user (rw (found, user_of_subject) at h1) in
            let found' : get_user_by_id db (decimal sub) ≡ some user =
              ap (get_user_by_id db) (sym value) ∙ (found ∙ ap some same) in
            inl (
              (full, digits),
              (==_iff user.id (decimal sub)).0
                  (find_sound (λ x. x.id == decimal sub) db.users user found'),
              found',
            )
      ]
]

-- The characters of ASCII alone.
abbrev pub IsAscii : String → Type 0
IsAscii Text.[] = Unit
IsAscii (Text.◌∷◌ c s) = (code c < 128) × IsAscii s

-- An endpoint that answers behind a token with a subject in ASCII has run for an active user and
-- has given what it gives for that user; it is the user whose number the subject is, in decimal
-- digits, or, where it is no number or no user has that number, whose name it is.
pub with_active_user-IsNamed {ℓ} :
    {A : Type ℓ} (c : Crypto) (now : ℕ) (token sub : String) (func : User → Handler A) (answer : A)
    (db : Db)
    → c.decode token now ≡ some sub
    → IsAscii sub
    → (with_active_user c now token func db).0 ≡ ok answer
    → (user : User) × IsNamed sub db user
      × (user.is_active ≡ true)
      × (with_active_user c now token func db ≡ func user db)
unfolding with_active_user get_current_user
with_active_user-IsNamed c now token sub func answer db e ascii h =
    let h1 = rw (e, with_active_user, get_current_user) at h in
    elim (Option-cases (user_of_subject sub db)) [
      | inl k ↦ cc (rw k at h1)
      | inr (user, k) ↦
          let h2 = rw k at h1 in
          elim (Bool-cases user.is_active) [
            | inr idle ↦ cc (rw idle at h2)
            | inl active ↦ (
              user,
              user_of_subject-IsNamed sub db user k,
              active,
              rw (e, with_active_user, get_current_user) (rw k (rw active)),
            )
          ]
    ]

module _ (settings : SecuritySettings) (password : String) where
  -- The rules of the settings that are on hold of the password.
  pub IsStrong : Type 0
  IsStrong =
      (ltb (text_length password) settings.password_min_length ≡ false)
      × (not settings.password_require_uppercase || has_upper password ≡ true)
      × (not settings.password_require_lowercase || has_lower password ≡ true)
      × (not settings.password_require_numbers || has_number password ≡ true)
      × (not settings.password_require_special || has_special password ≡ true)

  password_problem-IsStrong :
      settings.password_complexity_enabled ≡ true
      → password_problem settings password ≡ none
      → IsStrong
  unfolding password_problem IsStrong
  password_problem-IsStrong enabled h =
      (ground arith, ground arith, ground arith, ground arith, ground arith)

-- Where the first row of the settings enforces a policy, a change of a password that succeeds has been asked for
-- with the old password, and the new one obeys the rules that are on; the user's row then holds
-- its hash.
pub change_password-IsStrong :
    (c : Crypto) (settings : SecuritySettings) (now : ℕ) (user : User)
    (old_password new_password : String) (db : Db)
    → (change_password c (some settings) now user old_password new_password db).0 ≡ ok tt
    → settings.password_complexity_enabled ≡ true
    → (c.verify old_password user.hashed_password ≡ true)
      × IsStrong settings new_password
      × ((change_password c (some settings) now user old_password new_password db).1.users
          ≡ (assign user.id
              (λ u. record u {
                hashed_password = some (c.hash new_password);
                password_changed_at = some now;
              })
              db).users)
unfolding change_password log_event
change_password-IsStrong c settings now user old_password new_password db h enabled =
    elim (Bool-cases (c.verify old_password user.hashed_password)) [
      | inr e ↦ cc (rw e at h)
      | inl e ↦
          let h' = rw e at h in
          elim (Option-cases (password_problem settings new_password)) [
            | inr (problem, k) ↦ cc (rw (k, change_password) at h')
            | inl k ↦ (
              e,
              password_problem-IsStrong settings new_password enabled k,
              rw e (rw (k, change_password)),
            )
          ]
    ]
