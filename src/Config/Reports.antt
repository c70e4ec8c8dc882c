-- ===== src/Config/Reports.antt =====
-- The endpoints of reports and results in netops-backend/routes/config_module.py. The schedules of a
-- report, which go with it, are in Schedules.
use net_soc_ops.Prelude.{
  ℕ, suc, String, Bool, true, false, not, Option, none, some, List, [], ◌∷◌, ◌++◌, find, select,
  update, modify_first, any, length, get_or, ◌==◌, if◌then◌else◌,
}
use net_soc_ops.Prelude.Results.{Result, ok, err}
use net_soc_ops.Config.Store.{Report, ComplianceResult, Db, Failure, not_found, integrity_error}

pub record ReportBody : Type 0 where
  pub name : String
  pub group : Option String
  pub comments : Option String
  pub device_type : Option String
  pub enabled : Option Bool
  pub policy_ids : Option (List ℕ)

pub record ReportUpdate : Type 0 where
  pub name : Option String
  pub group : Option String
  pub comments : Option String
  pub device_type : Option String
  pub enabled : Option Bool
  pub policy_ids : Option (List ℕ)

abbrev pub has_policy : Db → ℕ → Bool
has_policy db id = any (λ p. p.id == id) db.policies

-- The loop that adds the links, with the place of each; a policy that does not exist violates the
-- foreign key.
unfoldable pub add_links : ℕ → ℕ → List ℕ → Db → Result Failure Db
add_links report_id i [] db = ok db
add_links report_id i (pid ∷ ids) db =
    let rest = add_links report_id (suc i) ids (record db {
      report_policies =
          db.report_policies
          ++ record { id = db.next_link; report_id = report_id; policy_id = pid; sort_order = i }
            ∷ [];
      next_link = suc db.next_link;
    }) in
    if has_policy db pid then rest else err integrity_error

unfoldable pub set_report_policies : ℕ → Option (List ℕ) → Db → Result Failure Db
unfolding add_links
set_report_policies report_id none db = ok db
set_report_policies report_id (some policy_ids) db = add_links report_id 0 policy_ids (record db {
  report_policies = select (λ l. not (l.report_id == report_id)) db.report_policies;
})

unfoldable pub insert_report : ReportBody → Db → Db
insert_report body db = record db {
  reports =
      db.reports
      ++ record {
        id = db.next_report;
        name = body.name;
        group = body.group;
        comments = body.comments;
        device_type = body.device_type;
        enabled = get_or body.enabled true;
      }
        ∷ [];
  next_report = suc db.next_report;
}

-- The report is committed before its links: what raises then leaves it without them.
unfoldable pub create_compliance_report : ReportBody → Db → Result Failure ℕ × Db
unfolding insert_report set_report_policies
create_compliance_report body db =
    elim (set_report_policies db.next_report body.policy_ids (insert_report body db)) [
      | ok db' ↦ (ok db.next_report, db')
      | err e ↦ (err e, insert_report body db)
    ]

abbrev pub find_report : ℕ → Db → Option Report
find_report id db = find (λ r. r.id == id) db.reports

abbrev set_or {ℓ} : {A : Type ℓ} → Option A → Option A → Option A
set_or none old = old
set_or (some x) old = some x

-- The assignments to `r`.
unfoldable pub changed_report : ReportUpdate → Report → Report
changed_report body r = record r {
  name = get_or body.name r.name;
  group = set_or body.group r.group;
  comments = set_or body.comments r.comments;
  device_type = set_or body.device_type r.device_type;
  enabled = get_or body.enabled r.enabled;
}

unfoldable pub update_compliance_report : ℕ → ReportUpdate → Db → Result Failure Db
unfolding changed_report set_report_policies
update_compliance_report id body db = elim (find_report id db) [
  | none ↦ err not_found
  | some r ↦
      set_report_policies id body.policy_ids
        (record db { reports = modify_first (λ x. x.id == id) (changed_report body) db.reports })
]

unfoldable pub update_compliance_report_enabled : ℕ → Bool → Db → Result Failure Db
update_compliance_report_enabled id enabled db = elim (find_report id db) [
  | none ↦ err not_found
  | some r ↦ ok (record db {
    reports = modify_first (λ x. x.id == id) (λ x. record x { enabled = enabled }) db.reports;
  })
]

abbrev names_report : ℕ → ComplianceResult → Bool
names_report id r = elim r.report_id [ none ↦ false | some k ↦ k == id ]

-- The results of the report lose their reference.
unfoldable pub delete_compliance_report : ℕ → Db → Result Failure Db
delete_compliance_report id db = elim (find_report id db) [
  | none ↦ err not_found
  | some r ↦ ok (record db {
    reports = select (λ x. not (x.id == id)) db.reports;
    report_policies = select (λ l. not (l.report_id == id)) db.report_policies;
    results = update (names_report id) (λ x. record x { report_id = none }) db.results;
  })
]

unfoldable pub delete_compliance_result : ℕ → Db → Result Failure Db
delete_compliance_result id db = elim (find (λ r. r.id == id) db.results) [
  | none ↦ err not_found
  | some r ↦ ok (record db { results = select (λ x. not (x.id == id)) db.results })
]

abbrev is_one_of : List ℕ → ComplianceResult → Bool
is_one_of ids r = any (λ i. i == r.id) ids

unfoldable pub batch_delete_compliance_results : List ℕ → Db → ℕ × Db
batch_delete_compliance_results ids db = (
  length (select (is_one_of ids) db.results),
  record db { results = select (λ r. not (is_one_of ids r)) db.results },
)
