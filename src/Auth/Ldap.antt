-- ===== src/Auth/Ldap.antt =====
-- netops-backend/auth/ldap_auth.py. The library `ldap` is a record of functions.
use Prim.Native.Char.{Char, code}
use Prim.Native.String as Text
use net_soc_ops.Prelude.{
  ℕ, suc, String, Bool, true, false, ◌&&◌, ◌||◌, Option, none, some, List, [], ◌∷◌, ◌++◌, any,
  str_eq, ◌==◌, if◌then◌else◌,
}
use net_soc_ops.Prelude.Results.{Result, ok, err}
use net_soc_ops.Auth.Store.{User, LdapConfig, Db}
use net_soc_ops.Auth.Tokens.{get_user}
use net_soc_ops.Auth.Totp.{assign}
use net_soc_ops.Auth.Users.{is_taken}

-- An entry of a search: its name, and the first `mail` and `department`, if any.
pub record Entry : Type 0 where
  pub dn : String
  pub mail : Option String
  pub department : Option String

pub data BindError : Type 0 where
  invalid_credentials : BindError
  other_error : String → BindError

-- `initialize` with the options and `start_tls_s`, `simple_bind_s` and `search_s` at a server's
-- address, with the text of the exception they raise.
pub record Directory : Type 0 where
  pub connect : String → Result String (Unit {0})
  pub simple_bind : String → String → String → Result BindError (Unit {0})
  pub search : String → String → String → Result String (List Entry)

append_text : String → String → String
append_text Text.[] t = t
append_text (Text.◌∷◌ c s) t = Text.◌∷◌ c (append_text s t)

starts_with : String → String → Bool
starts_with s Text.[] = true
starts_with Text.[] (Text.◌∷◌ c p) = false
starts_with (Text.◌∷◌ d s) (Text.◌∷◌ c p) = code d == code c && starts_with s p

-- `s.replace(char, "\\" + char)`.
escape_char : Char → String → String
escape_char ch Text.[] = ""
escape_char ch (Text.◌∷◌ c s) =
    let rest = escape_char ch s in
    if code c == code ch then append_text "\\" (Text.◌∷◌ c rest) else Text.◌∷◌ c rest

-- `s.replace("\\", "")`.
drop_backslashes : String → String
drop_backslashes Text.[] = ""
drop_backslashes (Text.◌∷◌ c s) =
    let rest = drop_backslashes s in if code c == 92 then rest else Text.◌∷◌ c rest

-- One special character after the other, the backslash among them.
escape_all : String → String → String
unfolding escape_char
escape_all Text.[] s = s
escape_all (Text.◌∷◌ ch specials) s = escape_all specials (escape_char ch s)

unfoldable pub bind_dn_formats : LdapConfig → List String
unfolding escape_all drop_backslashes append_text
bind_dn_formats config =
    let bind_dn = escape_all "\" (),+=<>;\\#-" config.bind_dn in
    bind_dn
    ∷ drop_backslashes bind_dn
    ∷ append_text "cn=" bind_dn
    ∷ append_text "uid=" bind_dn
    ∷ append_text "cn=" (append_text bind_dn (append_text "," config.search_base))
    ∷ []

unfoldable pub server_url_of : LdapConfig → String
unfolding starts_with append_text
server_url_of config =
    if starts_with config.server_url "ldap://" || starts_with config.server_url "ldaps://"
    then config.server_url
    else append_text "ldap://" config.server_url

abbrev pub binds : Result BindError (Unit {0}) → Bool
binds (ok u) = true
binds (err e) = false

unfoldable pub search_filter : String → String
unfolding append_text
search_filter username =
    append_text "(&(objectClass=person)(sAMAccountName=" (append_text username "))")

-- The bind with the user's own name and password.
unfoldable pub bind_as_user : Directory → String → Entry → String → Option String
bind_as_user d url entry password = elim (d.simple_bind url entry.dn password) [
  | ok u ↦ none
  | err e ↦ some (bind_problem e)
]
  where
    bind_problem : BindError → String
    bind_problem invalid_credentials = "用户名或密码错误"
    bind_problem (other_error text) = "用户认证失败"

-- What of the server the function finds: the entry that the user has bound as, or the message.
unfoldable pub ldap_entry : Directory → LdapConfig → String → String → Result String Entry
unfolding bind_as_user server_url_of bind_dn_formats search_filter
ldap_entry d config username password =
    let url = server_url_of config in
    elim (d.connect url) [
      | err text ↦ err "LDAP认证失败"
      | ok c ↦
          if any (λ dn. binds (d.simple_bind url dn config.bind_password)) (bind_dn_formats config)
          then found url (d.search url config.search_base (search_filter username))
          else err "LDAP绑定失败：无效的凭据"
    ]
  where
    found : String → Result String (List Entry) → Result String Entry
    found url (err text) = err "LDAP搜索失败"
    found url (ok []) = err "用户不存在"
    found url (ok (entry ∷ more)) = elim (bind_as_user d url entry password) [
      | none ↦ ok entry
      | some message ↦ err message
    ]

unfoldable pub ldap_user : String → Entry → ℕ → User
ldap_user username entry id = record {
  id = id;
  username = username;
  email = entry.mail;
  hashed_password = none;
  is_active = true;
  role = "operator";
  is_ldap_user = true;
  department = entry.department;
  has_2fa = false;
  totp_secret = none;
  last_login = none;
  password_changed_at = none;
}

-- How an authentication fails: with a message, or in the commit, whose exception the function
-- catches without a rollback, so that the session raises at its next use.
pub data Refusal : Type 0 where
  refused : String → Refusal
  broken_session : Refusal

-- An address that another row holds makes the commit raise.
unfoldable pub store_ldap_user : String → Entry → Db → Result Refusal User × Db
unfolding ldap_user
store_ldap_user username entry db = elim (get_user db username) [
  | none ↦ if is_taken username entry.mail db.users then (err broken_session, db) else (
    ok (ldap_user username entry db.next_user),
    record db {
      users = db.users ++ ldap_user username entry db.next_user ∷ [];
      next_user = suc db.next_user;
    },
  )
  | some user ↦
      if any (λ u. (if u.id == user.id then false else is_taken_by u entry.mail)) db.users
      then (err broken_session, db)
      else (
        ok (record user { email = entry.mail; department = entry.department }),
        assign user.id (λ u. record u { email = entry.mail; department = entry.department }) db,
      )
]
  where
    is_taken_by : User → Option String → Bool
    is_taken_by u mail = elim mail [
      | none ↦ false
      | some m ↦ elim u.email [ none ↦ false | some e ↦ str_eq m e ]
    ]

unfoldable pub ldap_authenticate : Directory → String → String → Db → Result Refusal User × Db
unfolding ldap_entry store_ldap_user
ldap_authenticate d username password db = from_config db.ldap_config
  where
    with_entry : Result String Entry → Result Refusal User × Db
    with_entry (err message) = (err (refused message), db)
    with_entry (ok entry) = store_ldap_user username entry db

    from_config : List LdapConfig → Result Refusal User × Db
    from_config [] = (err (refused "LDAP未配置"), db)
    from_config (config ∷ more) = with_entry (ldap_entry d config username password)
