-- ===== src/Config/Store.antt =====
-- The tables of netops-backend/database/config_module_models.py, and what a handler replies.
use net_soc_ops.Prelude.{ℕ, String, Bool, Option, List}

pub record Backup : Type 0 where
  pub id : ℕ
  pub device_id : String
  pub device_name : Option String
  pub device_host : Option String
  pub job_execution_id : Option String
  pub content : String
  pub source : String
  pub remark : Option String
  pub created_at : ℕ

pub record Policy : Type 0 where
  pub id : ℕ
  pub name : String
  pub rule_type : String
  pub rule_content : String
  pub device_type : Option String
  pub description : Option String
  pub group : Option String
  pub enabled : Bool

pub record Report : Type 0 where
  pub id : ℕ
  pub name : String
  pub group : Option String
  pub comments : Option String
  pub device_type : Option String
  pub enabled : Bool

pub record ReportPolicy : Type 0 where
  pub id : ℕ
  pub report_id : ℕ
  pub policy_id : ℕ
  pub sort_order : ℕ

pub record ComplianceResult : Type 0 where
  pub id : ℕ
  pub policy_id : ℕ
  pub backup_id : Option ℕ
  pub device_id : String
  pub report_id : Option ℕ
  pub passed : Bool
  pub detail : String

-- Each table with its next key.
pub record Db : Type 0 where
  pub backups : List Backup
  pub next_backup : ℕ
  pub policies : List Policy
  pub next_policy : ℕ
  pub reports : List Report
  pub next_report : ℕ
  pub report_policies : List ReportPolicy
  pub next_link : ℕ
  pub results : List ComplianceResult
  pub next_result : ℕ

-- The statuses 404 and 400, what the database raises when a row is deleted that others name, and the
-- `ValueError` of `json.loads`.
pub data Failure : Type 0 where
  not_found bad_request integrity_error value_error : Failure
