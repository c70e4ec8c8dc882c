-- ===== src/Config/Schedules/Bound.antt =====
-- What a schedule's run stores.
use mathlib.Core.Path.{subst}
use net_soc_ops.Prelude.{
  ℕ, suc, String, ◌≡◌, refl, ap, sym, ◌∙◌, inl, inr, Bool, true, false, Option, none, some, List,
  [], ◌∷◌, ◌++◌, All, find, Bool-cases, Option-cases, if◌then◌else◌, str_eq, ◌==◌, ==_iff,
  find_sound,
}
use net_soc_ops.Prelude.Results.{ok, ok-inj, err, >>=-eq-ok}
use net_soc_ops.Config.Store.{Backup, Policy, Report, ComplianceResult, Db, bad_request}
use net_soc_ops.Config.Reports.{find_report}
use net_soc_ops.Config.Compliance.{
  Resolved, is_empty, type_of, chosen_report, named_backup, resolve_by_ids, resolve_one,
  resolve_target, resolve_backups_for_run, add_result, run_policies, run_backups,
}
use net_soc_ops.Config.Compliance.Enabled.{IsOwn, Owns, by_type-Owns, by_ids-Owns}
use net_soc_ops.Config.Schedules.{
  Schedule, Plans, find_schedule, require_schedule, require_enabled, device_ids_of, target_of,
  stored_run, run_compliance_schedule_now,
}

-- The results that are new, all with a property.
abbrev pub Adds :
    (ComplianceResult → Type 0) → List ComplianceResult → List ComplianceResult → Type 0
Adds Q rs rs' = (new : List ComplianceResult) × (rs' ≡ rs ++ new) × All Q new

-- A result of the report, for an enabled policy that the report links.
abbrev pub IsOfReport : ℕ → Db → ComplianceResult → Type 0
IsOfReport report_id db x =
    (x.report_id ≡ some report_id) × (p : Policy) × (x.policy_id ≡ p.id) × IsOwn report_id db p

append_nil : (rs : List ComplianceResult) → rs ≡ rs ++ []
append_nil [] = refl
append_nil (r ∷ rs) = ap (λ x. r ∷ x) (append_nil rs)

append_cons :
    (rs : List ComplianceResult) (r : ComplianceResult) (new : List ComplianceResult)
    → (rs ++ r ∷ []) ++ new ≡ rs ++ r ∷ new
append_cons [] r new = refl
append_cons (x ∷ rs) r new = ap (λ y. x ∷ y) (append_cons rs r new)

append_assoc : (rs new more : List ComplianceResult) → (rs ++ new) ++ more ≡ rs ++ (new ++ more)
append_assoc [] new more = refl
append_assoc (x ∷ rs) new more = ap (λ y. x ∷ y) (append_assoc rs new more)

All-both :
    (Q : ComplianceResult → Type 0) (new more : List ComplianceResult)
    → All Q new
    → All Q more
    → All Q (new ++ more)
All-both Q [] more h k = k
All-both Q (x ∷ new) more (hx, h) k = (hx, All-both Q new more h k)

Adds-then :
    (Q : ComplianceResult → Type 0) (rs rs' rs'' : List ComplianceResult)
    → Adds Q rs rs'
    → Adds Q rs' rs''
    → Adds Q rs rs''
Adds-then Q rs rs' rs'' (new, e, h) (more, e', k) =
    (new ++ more, e' ∙ (ap (λ x. x ++ more) e ∙ append_assoc rs new more), All-both Q new more h k)

module _ (find_match : String → String → Option (Option String)) (report_id : ℕ) (db0 : Db) where
  run_policies-Adds :
      (b : Backup) (ps : List Policy) (db : Db)
      → All (IsOwn report_id db0) ps
      → Adds
          (IsOfReport report_id db0)
          db.results
          (run_policies find_match (some report_id) b ps db).results
  unfolding run_policies add_result
  run_policies-Adds b [] db h = ([], append_nil db.results, tt)
  run_policies-Adds b (p ∷ ps) db (own, h) =
      Adds-then (IsOfReport report_id db0) db.results
        (add_result find_match (some report_id) b p db).results _
        (_, refl, ((refl, p, refl, own), tt))
        (run_policies-Adds b ps (add_result find_match (some report_id) b p db) h)

  run_backups-Adds :
      (bs : List Backup) (ps : List Policy) (db : Db)
      → All (IsOwn report_id db0) ps
      → Adds
          (IsOfReport report_id db0)
          db.results
          (run_backups find_match (some report_id) bs ps db).results
  unfolding run_backups
  run_backups-Adds [] ps db h = ([], append_nil db.results, tt)
  run_backups-Adds (b ∷ bs) ps db h =
      Adds-then (IsOfReport report_id db0) db.results
        (run_policies find_match (some report_id) b ps db).results _ (run_policies-Adds b ps db h)
        (run_backups-Adds bs ps (run_policies find_match (some report_id) b ps db) h)

-- What a schedule's run is made of: the report's own policies.
schedule-Owns :
    (devices_of_type : String → List (Option String × String)) (s : Schedule)
    (device_ids : List String) (report : Report) (db : Db)
    → Owns db report (resolve_target devices_of_type (target_of s device_ids) (some report) db)
unfolding resolve_target resolve_one named_backup
schedule-Owns devices_of_type s device_ids report db =
    elim (Bool-cases (str_eq s.target_type "by_device_type")) [
      | inr e ↦ rw e others
      | inl e ↦ rw e (elim (Option-cases (type_of (some report))) [
        | inl e' ↦ rw e' others
        | inr (device_type, e') ↦ rw e' (by_type-Owns devices_of_type device_type report db)
      ])
    ]
  where
    others : Owns db report (
        if is_empty device_ids
        then resolve_one (target_of s device_ids) (some report) db
        else resolve_by_ids device_ids [] (some report) db)
    others = elim (Bool-cases (is_empty device_ids)) [
      | inl e ↦ rw e tt
      | inr e ↦ rw e (by_ids-Owns device_ids [] report db)
    ]

stored_run-Adds :
    (find_match : String → String → Option (Option String)) (now id report_id : ℕ) (p : Plans)
    (r : Resolved)
    → r.report_id ≡ some report_id
    → All (IsOwn report_id p.db) r.policies
    → Adds (IsOfReport report_id p.db) p.db.results (stored_run find_match now id p r).1.db.results
unfolding stored_run
stored_run-Adds find_match now id report_id p r named own =
    elim (Bool-cases (is_empty r.policies)) [
      | inl e ↦ rw e ([], append_nil p.db.results, tt)
      | inr e ↦
          rw e (rw named (run_backups-Adds find_match report_id p.db r.backups r.policies p.db own))
    ]

found_key :
    (id : ℕ) (rs : List Report) (report : Report)
    → find (λ r. r.id == id) rs ≡ some report
    → report.id ≡ id
found_key id rs report h = (==_iff report.id id).0 (find_sound (λ r. r.id == id) rs report h)

require_schedule-found :
    (id : ℕ) (s s' : Schedule) (p : Plans)
    → find_schedule id p ≡ some s
    → require_schedule id p ≡ ok s'
    → s ≡ s'
require_schedule-found id s s' p found e = ok-inj s s' (rw (found, require_schedule) at e)

passed_test :
    (c : Bool) (x report : Report)
    → (if c then ok x else err bad_request) ≡ ok report
    → (c ≡ true) × (x ≡ report)
passed_test true x report e = (refl, ok-inj x report e)
passed_test false x report e = cc

require_enabled-found :
    (found : Option Report) (report : Report)
    → require_enabled found ≡ ok report
    → (found ≡ some report) × (report.enabled ≡ true)
require_enabled-found none report e = cc
require_enabled-found (some x) report e =
    let (on, same) = passed_test x.enabled x report e in
    (ap some same, subst (λ y. y.enabled ≡ true) same on)

resolved-Owns :
    (devices_of_type : String → List (Option String × String)) (s : Schedule)
    (device_ids : List String) (before : ℕ) (report : Report) (db : Db) (r : Resolved)
    → s.report_id ≡ suc before
    → find_report s.report_id db ≡ some report
    → report.enabled ≡ true
    → resolve_backups_for_run devices_of_type (target_of s device_ids) db ≡ ok r
    → (r.report_id ≡ some s.report_id) × All (IsOwn s.report_id db) r.policies
unfolding resolve_backups_for_run chosen_report
resolved-Owns devices_of_type s device_ids before report db r key found on h =
    let found' = rw key at found in
    let h1 = rw key at h in
    let h2 = rw (found', chosen_report) at h1 in
    let h3 = rw on at h2 in
    let owns = rw h3 at (schedule-Owns devices_of_type s device_ids report db) in
    let same = found_key s.report_id db.reports report found in rw (← same) owns

-- A run of a schedule that succeeds keeps the results that are there, and each result that it adds
-- is one of the schedule's report, for an enabled policy that the report links: other than a run of
-- the report on one backup, it never takes other policies. The key of the report must not be 0.
pub run_compliance_schedule_now-Adds :
    (load : String → Option (List String))
    (devices_of_type : String → List (Option String × String))
    (find_match : String → String → Option (Option String)) (now id before : ℕ) (s : Schedule)
    (p p' : Plans) (device_count : ℕ)
    → find_schedule id p ≡ some s
    → s.report_id ≡ suc before
    → run_compliance_schedule_now load devices_of_type find_match now id p ≡ ok (device_count, p')
    → Adds (IsOfReport s.report_id p.db) p.db.results p'.db.results
unfolding run_compliance_schedule_now
run_compliance_schedule_now-Adds load devices_of_type find_match now id before s p p' device_count
      found key h =
    let (s', e1, h1) = >>=-eq-ok (require_schedule id p) _ h in
    let same = require_schedule-found id s s' p found e1 in
    let (report, e2, h2) = >>=-eq-ok (require_enabled (find_report s'.report_id p.db)) _ h1 in
    let (there, on) = require_enabled-found (find_report s'.report_id p.db) report e2 in
    let (device_ids, e3, h3) = >>=-eq-ok (device_ids_of load s'.target_device_ids) _ h2 in
    let (r, e4, h4) =
      >>=-eq-ok (resolve_backups_for_run devices_of_type (target_of s' device_ids) p.db) _ h3 in
    let key' : s'.report_id ≡ suc before = rw (← same) key in
    let (named, own) =
      resolved-Owns devices_of_type s' device_ids before report p.db r key' there on e4 in
    let adds = stored_run-Adds find_match now id s'.report_id p r named own in
    let after : (stored_run find_match now id p r).1 ≡ p' =
      ap (λ x. x.1) (ok-inj _ (device_count, p') h4) in
    subst (λ x. Adds (IsOfReport x.report_id p.db) p.db.results p'.db.results) (sym same)
      (subst (λ x. Adds (IsOfReport s'.report_id p.db) p.db.results x.db.results) after adds)
