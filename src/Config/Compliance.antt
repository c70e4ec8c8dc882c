-- ===== src/Config/Compliance.antt =====
-- The run of policies in netops-backend/routes/config_module.py: what is run on which backups, and
-- the results. `devices_of_type` is what `_get_backup_devices_filtered_by_device_type` makes of the
-- configuration database, pairs of a host and a key; `find_match` is `re.search`.
pub mod Enabled
pub mod Counted
use net_soc_ops.Prelude.{
  ℕ, zero, suc, ◌+◌, String, Bool, true, false, not, ◌&&◌, ◌||◌, Option, none, some, List, [], ◌∷◌,
  ◌++◌, map, strip, find, select, any, get_or, leb, ltb, str_eq, ◌==◌, length, if◌then◌else◌,
}
use net_soc_ops.Prelude.Results.{Result, ok, err, ◌>>=◌}
use net_soc_ops.Config.Store.{
  Backup, Policy, Report, ReportPolicy, ComplianceResult, Db, Failure, not_found, bad_request,
}
use net_soc_ops.Config.Backups.{has_host, has_device, find_backup}
use net_soc_ops.Config.Policies.{run_policy_on_content}
use net_soc_ops.Config.Reports.{find_report}

-- The arguments of `_resolve_backups_for_run`; a key of 0 counts as none.
pub record Target : Type 0 where
  pub backup_id : Option ℕ
  pub device_id : Option String
  pub device_ids : List String
  pub report_id : Option ℕ
  pub target_by_device_type : Bool
  pub policy_ids : List ℕ

-- What a run is made of: the backups, the policies, and the key of the report.
pub record Resolved : Type 0 where
  pub backups : List Backup
  pub policies : List Policy
  pub report_id : Option ℕ

-- `order_by(created_at.desc()).first()`.
unfoldable pub latest : (Backup → Bool) → List Backup → Option Backup
latest p [] = none
latest p (b ∷ bs) =
    let rest = latest p bs in
    if p b
    then elim rest [
      | none ↦ some b
      | some best ↦ some (if leb best.created_at b.created_at then b else best)
    ]
    else rest

-- `order_by(sort_order, id)`.
abbrev link_le : ReportPolicy → ReportPolicy → Bool
link_le k l = ltb k.sort_order l.sort_order || (k.sort_order == l.sort_order && leb k.id l.id)

abbrev insert_link : ReportPolicy → List ReportPolicy → List ReportPolicy
insert_link k [] = k ∷ []
insert_link k (l ∷ ls) = if link_le k l then k ∷ l ∷ ls else l ∷ insert_link k ls

abbrev sort_links : List ReportPolicy → List ReportPolicy
sort_links [] = []
sort_links (l ∷ ls) = insert_link l (sort_links ls)

-- `pid_order`: the last place of a key.
abbrev last_place : ℕ → ℕ → List ℕ → ℕ → ℕ
last_place id i [] found = found
last_place id i (x ∷ ids) found = last_place id (suc i) ids (if x == id then i else found)

abbrev pub place : List ℕ → Policy → ℕ
place ids p = last_place p.id 0 ids 999

abbrev pub insert_policy : List ℕ → Policy → List Policy → List Policy
insert_policy ids p [] = p ∷ []
insert_policy ids p (q ∷ qs) =
    if leb (place ids p) (place ids q) then p ∷ q ∷ qs else q ∷ insert_policy ids p qs

-- `policies.sort`, which is stable.
abbrev pub sort_policies : List ℕ → List Policy → List Policy
sort_policies ids [] = []
sort_policies ids (p ∷ ps) = insert_policy ids p (sort_policies ids ps)

abbrev pub is_in : List ℕ → Policy → Bool
is_in ids p = any (λ i. i == p.id) ids

-- The keys of the report's links.
unfoldable pub linked_ids : ℕ → Db → List ℕ
linked_ids report_id db =
    map (λ l. l.policy_id) (sort_links (select (λ l. l.report_id == report_id) db.report_policies))

-- The enabled policies of the report, in the order of its links.
unfoldable pub own_policies : ℕ → Db → List Policy
unfolding linked_ids
own_policies report_id db =
    let ids = linked_ids report_id db in
    sort_policies ids (select (λ p. is_in ids p && p.enabled) db.policies)

abbrev pub given : Option ℕ → Option ℕ
given none = none
given (some zero) = none
given (some (suc n)) = some (suc n)

-- The report that a run names, if it names one.
unfoldable pub chosen_report : Option ℕ → Db → Result Failure (Option Report)
chosen_report none db = ok none
chosen_report (some report_id) db = elim (find_report report_id db) [
  | none ↦ err not_found
  | some r ↦ if r.enabled then ok (some r) else err bad_request
]

abbrev pub policies_of : Option Report → Db → List Policy
unfolding own_policies
policies_of none db = []
policies_of (some r) db = own_policies r.id db

abbrev pub key_of : Option Report → Option ℕ
key_of none = none
key_of (some r) = some r.id

-- A loop that collects the latest backup of each device, where there is one.
unfoldable pub collect : (String → Option Backup) → List String → List Backup
collect newest [] = []
collect newest (d ∷ ds) =
    let rest = collect newest ds in elim (newest d) [ none ↦ rest | some b ↦ b ∷ rest ]

-- The device's key, with the space around it removed; an empty one is passed over.
abbrev pub newest_of_id : Db → String → Option Backup
newest_of_id db did =
    let d = strip did in if str_eq d "" then none else latest (has_device d) db.backups

unfoldable pub collect_pairs : Db → List (Option String × String) → List Backup
unfolding latest strip
collect_pairs db [] = []
collect_pairs db ((dh, did) ∷ ds) =
    let rest = collect_pairs db ds in
    let host = strip (get_or dh "") in
    elim (latest (if str_eq host "" then has_device did else has_host host) db.backups) [
      | none ↦ rest
      | some b ↦ b ∷ rest
    ]

abbrev pub is_empty {ℓ} : {A : Type ℓ} → List A → Bool
is_empty [] = true
is_empty (x ∷ xs) = false

-- What is run where the report has no policy, or there is no report.
unfoldable pub fallback : List ℕ → Db → List Policy
fallback policy_ids db =
    let requested = select (is_in policy_ids) db.policies in
    if is_empty requested then db.policies else requested

abbrev pub or_fallback : List Policy → List ℕ → Db → List Policy
or_fallback policies policy_ids db = if is_empty policies then fallback policy_ids db else policies

-- Whether the report names a type of device.
abbrev pub type_of : Option Report → Option String
type_of none = none
type_of (some r) = elim r.device_type [
  | none ↦ none
  | some d ↦ if str_eq d "" then none else some d
]

unfoldable pub resolve_by_type :
    (String → List (Option String × String)) → String → Option Report → Db → Result Failure Resolved
unfolding collect_pairs own_policies
resolve_by_type devices_of_type device_type report db =
    if is_empty (policies_of report db)
    then err bad_request
    else ok (record {
      backups = collect_pairs db (devices_of_type device_type);
      policies = policies_of report db;
      report_id = key_of report;
    })

unfoldable pub resolve_by_ids : List String → List ℕ → Option Report → Db → Result Failure Resolved
unfolding collect latest strip own_policies fallback
resolve_by_ids device_ids policy_ids report db =
    let found = collect (newest_of_id db) device_ids in
    if is_empty found
    then err not_found
    else if is_empty (policies_of report db)
    then elim report [
      | some r ↦ err bad_request
      | none ↦ ok (record { backups = found; policies = fallback policy_ids db; report_id = none })
    ]
    else ok
        (record { backups = found; policies = policies_of report db; report_id = key_of report })

-- The one backup that a run names, by its own key or by its device.
unfoldable pub named_backup : Target → Db → Result Failure Backup
unfolding latest
named_backup target db = elim (given target.backup_id) [
  | some id ↦ elim (find_backup id db) [ none ↦ err not_found | some b ↦ ok b ]
  | none ↦ elim target.device_id [
    | none ↦ err bad_request
    | some d ↦
        if str_eq d ""
        then err bad_request
        else elim (latest (has_device d) db.backups) [ none ↦ err not_found | some b ↦ ok b ]
  ]
]

unfoldable pub resolve_one : Target → Option Report → Db → Result Failure Resolved
unfolding named_backup own_policies fallback
resolve_one target report db = do
  b ← named_backup target db
  ok (record {
    backups = b ∷ [];
    policies = or_fallback (policies_of report db) target.policy_ids db;
    report_id = key_of report;
  })

-- The kinds of targets, in the order of the tests.
unfoldable pub resolve_target :
    (String → List (Option String × String)) → Target → Option Report → Db → Result Failure Resolved
unfolding resolve_by_type resolve_by_ids resolve_one
resolve_target devices_of_type target report db =
    let others =
      if is_empty target.device_ids
      then resolve_one target report db
      else resolve_by_ids target.device_ids target.policy_ids report db in
    if target.target_by_device_type
    then elim (type_of report) [
      | none ↦ others
      | some device_type ↦ resolve_by_type devices_of_type device_type report db
    ]
    else others

unfoldable pub resolve_backups_for_run :
    (String → List (Option String × String)) → Target → Db → Result Failure Resolved
unfolding chosen_report resolve_target
resolve_backups_for_run devices_of_type target db = do
  report ← chosen_report (given target.report_id) db
  resolve_target devices_of_type target report db

-- `db.add(ConfigComplianceResult(...))`.
unfoldable pub add_result :
    (String → String → Option (Option String)) → Option ℕ → Backup → Policy → Db → Db
unfolding run_policy_on_content
add_result find_match report_id b p db =
    let (passed, detail) = run_policy_on_content find_match p b.content in
    record db {
      results =
          db.results
          ++ record {
            id = db.next_result;
            policy_id = p.id;
            backup_id = some b.id;
            device_id = b.device_id;
            report_id = report_id;
            passed = passed;
            detail = detail;
          }
            ∷ [];
      next_result = suc db.next_result;
    }

unfoldable pub run_policies :
    (String → String → Option (Option String)) → Option ℕ → Backup → List Policy → Db → Db
unfolding add_result
run_policies find_match report_id b [] db = db
run_policies find_match report_id b (p ∷ ps) db =
    run_policies find_match report_id b ps (add_result find_match report_id b p db)

unfoldable pub run_backups :
    (String → String → Option (Option String)) → Option ℕ → List Backup → List Policy → Db → Db
unfolding run_policies
run_backups find_match report_id [] ps db = db
run_backups find_match report_id (b ∷ bs) ps db =
    run_backups find_match report_id bs ps (run_policies find_match report_id b ps db)

-- The reply is the number of devices.
unfoldable pub run_resolved :
    (String → String → Option (Option String)) → Db → Resolved → Result Failure (ℕ × Db)
unfolding run_backups
run_resolved find_match db r =
    if is_empty r.policies
    then ok (0, db)
    else ok (length r.backups, run_backups find_match r.report_id r.backups r.policies db)

unfoldable pub run_compliance :
    (String → List (Option String × String))
    → (String → String → Option (Option String))
    → Target
    → Db
    → Result Failure (ℕ × Db)
unfolding resolve_backups_for_run run_resolved
run_compliance devices_of_type find_match target db = do
  r ← resolve_backups_for_run devices_of_type target db
  run_resolved find_match db r
