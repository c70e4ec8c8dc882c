-- ===== src/Config/Schedules.antt =====
-- The endpoints of schedules in netops-backend/routes/config_module.py, and the end of a report's
-- schedules with the report. `dump` is `json.dumps` of a list of device keys, `load` is `json.loads`.
pub mod Bound
use net_soc_ops.Prelude.{
  ℕ, suc, String, Bool, true, false, not, Option, none, some, List, [], ◌∷◌, ◌++◌, find, select,
  modify_first, length, get_or, str_eq, ◌==◌, if◌then◌else◌,
}
use net_soc_ops.Prelude.Results.{Result, ok, err, ◌>>=◌}
use net_soc_ops.Config.Store.{Report, Db, Failure, not_found, bad_request, value_error}
use net_soc_ops.Config.Reports.{find_report, delete_compliance_report}
use net_soc_ops.Config.Compliance.{Target, Resolved, is_empty, resolve_backups_for_run, run_backups}

pub record Schedule : Type 0 where
  pub id : ℕ
  pub name : String
  pub report_id : ℕ
  pub target_type : String
  pub target_device_ids : Option String
  pub cron_expr : Option String
  pub interval_seconds : Option ℕ
  pub enabled : Bool
  pub last_run_at : Option ℕ

-- The tables, with that of the schedules.
pub record Plans : Type 0 where
  pub db : Db
  pub schedules : List Schedule
  pub next_schedule : ℕ

pub record ScheduleCreate : Type 0 where
  pub name : String
  pub report_id : ℕ
  pub target_type : String
  pub target_device_ids : Option (List String)
  pub cron_expr : Option String
  pub interval_seconds : Option ℕ
  pub enabled : Option Bool

pub record ScheduleUpdate : Type 0 where
  pub name : Option String
  pub target_type : Option String
  pub target_device_ids : Option (List String)
  pub cron_expr : Option String
  pub interval_seconds : Option ℕ
  pub enabled : Option Bool

-- An empty list counts as none.
abbrev ids_text : (List String → String) → Option (List String) → Option String
ids_text dump none = none
ids_text dump (some []) = none
ids_text dump (some (d ∷ ds)) = some (dump (d ∷ ds))

unfoldable pub create_compliance_schedule :
    (List String → String) → ScheduleCreate → Plans → Result Failure Plans
create_compliance_schedule dump body p = elim (find_report body.report_id p.db) [
  | none ↦ err not_found
  | some report ↦ ok (record p {
    schedules =
        p.schedules
        ++ record {
          id = p.next_schedule;
          name = body.name;
          report_id = body.report_id;
          target_type = body.target_type;
          target_device_ids = ids_text dump body.target_device_ids;
          cron_expr = body.cron_expr;
          interval_seconds = body.interval_seconds;
          enabled = get_or body.enabled true;
          last_run_at = none;
        }
          ∷ [];
    next_schedule = suc p.next_schedule;
  })
]

abbrev pub find_schedule : ℕ → Plans → Option Schedule
find_schedule id p = find (λ s. s.id == id) p.schedules

abbrev set_or {ℓ} : {A : Type ℓ} → Option A → Option A → Option A
set_or none old = old
set_or (some x) old = some x

abbrev ids_or : (List String → String) → Option (List String) → Option String → Option String
ids_or dump none old = old
ids_or dump (some ds) old = some (dump ds)

-- The assignments to `s`.
unfoldable pub changed_schedule : (List String → String) → ScheduleUpdate → Schedule → Schedule
changed_schedule dump body s = record s {
  name = get_or body.name s.name;
  target_type = get_or body.target_type s.target_type;
  target_device_ids = ids_or dump body.target_device_ids s.target_device_ids;
  cron_expr = set_or body.cron_expr s.cron_expr;
  interval_seconds = set_or body.interval_seconds s.interval_seconds;
  enabled = get_or body.enabled s.enabled;
}

unfoldable pub update_compliance_schedule :
    (List String → String) → ℕ → ScheduleUpdate → Plans → Result Failure Plans
unfolding changed_schedule
update_compliance_schedule dump id body p = elim (find_schedule id p) [
  | none ↦ err not_found
  | some s ↦ ok (record p {
    schedules = modify_first (λ x. x.id == id) (changed_schedule dump body) p.schedules;
  })
]

unfoldable pub delete_compliance_schedule : ℕ → Plans → Result Failure Plans
delete_compliance_schedule id p = elim (find_schedule id p) [
  | none ↦ err not_found
  | some s ↦ ok (record p { schedules = select (λ x. not (x.id == id)) p.schedules })
]

-- The deletion of a report takes its schedules with it.
unfoldable pub delete_report : ℕ → Plans → Result Failure Plans
unfolding delete_compliance_report
delete_report id p = do
  db' ← delete_compliance_report id p.db
  ok (record p { db = db'; schedules = select (λ s. not (s.report_id == id)) p.schedules })

-- The stored list of device keys; an empty text counts as none.
abbrev pub device_ids_of :
    (String → Option (List String)) → Option String → Result Failure (List String)
device_ids_of load none = ok []
device_ids_of load (some s) =
    if str_eq s "" then ok [] else elim (load s) [ none ↦ err value_error | some ds ↦ ok ds ]

-- What a schedule runs, on its own device keys or on the type of device of its report.
abbrev pub target_of : Schedule → List String → Target
target_of s device_ids = record {
  backup_id = none;
  device_id = none;
  device_ids = device_ids;
  report_id = some s.report_id;
  target_by_device_type = str_eq s.target_type "by_device_type";
  policy_ids = [];
}

abbrev pub require_enabled : Option Report → Result Failure Report
require_enabled none = err bad_request
require_enabled (some report) = if report.enabled then ok report else err bad_request

abbrev pub require_schedule : ℕ → Plans → Result Failure Schedule
require_schedule id p = elim (find_schedule id p) [ none ↦ err not_found | some s ↦ ok s ]

-- The results and the time of the run, unless there is no policy.
unfoldable pub stored_run :
    (String → String → Option (Option String)) → ℕ → ℕ → Plans → Resolved → ℕ × Plans
unfolding run_backups
stored_run find_match now id p r = if is_empty r.policies then (0, p) else (
  length r.backups,
  record p {
    db = run_backups find_match r.report_id r.backups r.policies p.db;
    schedules =
        modify_first (λ x. x.id == id) (λ x. record x { last_run_at = some now }) p.schedules;
  },
)

-- The reply is the number of devices.
unfoldable pub run_compliance_schedule_now :
    (String → Option (List String))
    → (String → List (Option String × String))
    → (String → String → Option (Option String))
    → ℕ
    → ℕ
    → Plans
    → Result Failure (ℕ × Plans)
unfolding resolve_backups_for_run stored_run
run_compliance_schedule_now load devices_of_type find_match now id p = do
  s ← require_schedule id p
  report ← require_enabled (find_report s.report_id p.db)
  device_ids ← device_ids_of load s.target_device_ids
  r ← resolve_backups_for_run devices_of_type (target_of s device_ids) p.db
  ok (stored_run find_match now id p r)
