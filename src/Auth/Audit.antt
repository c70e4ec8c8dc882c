-- ===== src/Auth/Audit.antt =====
-- netops-backend/auth/audit.py.
pub mod Cleanup
use net_soc_ops.Prelude.{
  ℕ, ◌+◌, ◌-◌, ◌*◌, String, Bool, true, not, ◌&&◌, Option, none, some, List, [], ◌∷◌, ◌++◌, length,
  select, str_eq, ltb, leb, if◌then◌else◌,
}
use net_soc_ops.Auth.Store.{User, AuditLog, Db}

abbrev event_type_category_table : List (String × String)
event_type_category_table =
    ("login_success", "auth.login")
    ∷ ("first_login", "auth.first_login")
    ∷ ("logout", "auth.logout")
    ∷ ("login_failed", "auth.login_failed")
    ∷ ("ldap_login", "auth.login")
    ∷ ("ldap_login_success", "auth.login")
    ∷ ("ldap_login_failed", "auth.login_failed")
    ∷ ("ldap_login_2fa_required", "auth.2fa")
    ∷ ("2fa_failed", "auth.2fa")
    ∷ ("totp_setup", "auth.2fa")
    ∷ ("totp_verify", "auth.2fa")
    ∷ ("totp_enabled", "auth.2fa")
    ∷ ("create_user", "user_mgmt")
    ∷ ("delete_user", "user_mgmt")
    ∷ ("update_user", "user_mgmt")
    ∷ ("update_role", "user_mgmt")
    ∷ ("update_department", "user_mgmt")
    ∷ ("toggle_user_status", "user_mgmt")
    ∷ ("reset_password", "user_mgmt")
    ∷ ("toggle_2fa", "user_mgmt")
    ∷ ("change_password", "user_mgmt")
    ∷ ("create_ldap_config", "ldap_config")
    ∷ ("update_ldap_config", "ldap_config")
    ∷ ("delete_ldap_config", "ldap_config")
    ∷ ("create_ldap_template", "ldap_config")
    ∷ ("update_ldap_template", "ldap_config")
    ∷ ("delete_ldap_template", "ldap_config")
    ∷ []

-- `d.get(k, default)`.
unfoldable pub get_text : String → List (String × String) → String → String
get_text k [] default = default
get_text k ((j, v) ∷ d) default = if str_eq j k then v else get_text k d default

unfoldable pub get_event_type_category : String → String
unfolding get_text
get_event_type_category event_type = get_text event_type event_type_category_table "other"

-- Who an event is about: a user of the table, or a bare name.
pub data Subject : Type 0 where
  of_user : User → Subject
  of_name : String → Subject

abbrev subject_id : Subject → Option ℕ
subject_id (of_user u) = some u.id
subject_id (of_name n) = none

abbrev subject_name : Subject → Option String
subject_name (of_user u) = some u.username
subject_name (of_name n) = some n

-- The address and the agent of the client are left out.
unfoldable pub log_event : ℕ → String → Subject → List (String × String) → Bool → Db → Db
log_event now event_type subject details success db = record db {
  audit_logs =
      db.audit_logs
      ++ record {
        timestamp = now;
        user_id = subject_id subject;
        username = subject_name subject;
        event_type = event_type;
        details = details;
        success = success;
      }
        ∷ [];
}

abbrev days : ℕ → ℕ
days n = n * 86400

-- `cleanup_old_logs`: the number of rows deleted, and the rest. A month is 30 days.
unfoldable pub cleanup_old_logs : ℕ → ℕ → Db → ℕ × Db
cleanup_old_logs now months db =
    let cutoff = now - days (months * 30) in
    (
      length (select (λ l. ltb l.timestamp cutoff) db.audit_logs),
      record db { audit_logs = select (λ l. not (ltb l.timestamp cutoff)) db.audit_logs },
    )
