-- ===== src/Config/Examples.antt =====
-- The theorems on backups and compliance at a small database, and tests.
use net_soc_ops.Prelude.{
  ℕ, String, ◌≡◌, refl, ◌⊎◌, ◌≤◌, true, false, Option, none, some, List, [], ◌∷◌, ◌++◌, length, All,
  map, strip, lower, arith,
}
use net_soc_ops.Prelude.Results.{ok, err}
use net_soc_ops.Config.Store.{
  Backup, Policy, Report, ReportPolicy, ComplianceResult, Db, integrity_error,
}
use net_soc_ops.Config.Backups.{
  BackupCreate, device_key, has_host, is_of_device, make_room, store_backup, create_backup,
  delete_backup, remove_backup,
}
use net_soc_ops.Config.Backups.Limit.{count, AreFew, create_backup-AreFew}
use net_soc_ops.Config.Policies.{is_part, run_policy_on_content}
use net_soc_ops.Config.Reports.{find_report, delete_compliance_report}
use net_soc_ops.Config.Compliance.{
  Target, Resolved, latest, collect, resolve_by_ids, linked_ids, own_policies, chosen_report,
  named_backup, fallback, resolve_one, resolve_target, resolve_backups_for_run, add_result,
  run_policies, run_backups, run_resolved, run_compliance,
}
use net_soc_ops.Config.Compliance.Enabled.{Takes, resolve_backups_for_run-Names}
use net_soc_ops.Config.Compliance.Counted.{rows_from, run_compliance-pairs}
use net_soc_ops.Config.Xml.{
  Element, node, end, child, namespace, find_el, findall_el, text_of, pattern_rules, rules_of,
  parse_report_policies_from_root, report_root, exported_policies, export_compliance_report_xml,
  import_compliance_report_xml,
}
use net_soc_ops.Config.Xml.Read.{IsPlain, rule_of, numbered, import-export}
use net_soc_ops.Config.Schedules.{
  Schedule, Plans, delete_report, stored_run, run_compliance_schedule_now,
}
use net_soc_ops.Config.Schedules.Bound.{Adds, IsOfReport, run_compliance_schedule_now-Adds}

abbrev first_backup : Backup
first_backup = record {
  id = 1;
  device_id = "d1";
  device_name = none;
  device_host = none;
  job_execution_id = none;
  content = "hostname core\nntp server 10.0.0.1";
  source = "api";
  remark = none;
  created_at = 5;
}

abbrev ntp : Policy
ntp = record {
  id = 1;
  name = "ntp";
  rule_type = "must_contain";
  rule_content = "ntp server";
  device_type = none;
  description = none;
  group = none;
  enabled = true;
}

abbrev telnet : Policy
telnet = record {
  id = 2;
  name = "telnet";
  rule_type = "must_not_contain";
  rule_content = "telnet";
  device_type = none;
  description = none;
  group = none;
  enabled = false;
}

abbrev report : Report
report = record {
  id = 1;
  name = "base";
  group = none;
  comments = none;
  device_type = none;
  enabled = true;
}

abbrev link : ℕ → ReportPolicy
link policy_id = record {
  id = policy_id;
  report_id = 1;
  policy_id = policy_id;
  sort_order = policy_id;
}

-- One backup and two policies of one report, where the second policy is disabled.
abbrev db_with : List ReportPolicy → List ComplianceResult → Db
db_with links results = record {
  backups = first_backup ∷ [];
  next_backup = 2;
  policies = ntp ∷ telnet ∷ [];
  next_policy = 3;
  reports = report ∷ [];
  next_report = 2;
  report_policies = links;
  next_link = 3;
  results = results;
  next_result = 1;
}

abbrev db : Db
db = db_with (link 1 ∷ link 2 ∷ []) []

abbrev target : Target
target = record {
  backup_id = some 1;
  device_id = none;
  device_ids = [];
  report_id = some 1;
  target_by_device_type = false;
  policy_ids = [];
}

no_devices : String → List (Option String × String)
no_devices device_type = []

no_match : String → String → Option (Option String)
no_match rule text = some none

abbrev own_run : Resolved
own_run = record { backups = first_backup ∷ []; policies = ntp ∷ []; report_id = some 1 }

resolves : resolve_backups_for_run no_devices target db ≡ ok own_run
unfolding resolve_backups_for_run chosen_report resolve_target resolve_one named_backup own_policies
    linked_ids
resolves = refl

resolve_backups_for_run-Names_example :
    (r : Report) × (find_report 1 db ≡ some r)
    × (r.enabled ≡ true)
    × (own_run.report_id ≡ some r.id)
    × Takes r db target own_run
resolve_backups_for_run-Names_example =
    resolve_backups_for_run-Names no_devices target db 1 own_run refl resolves

-- A report whose links are all to disabled policies: the run takes every policy, this one included.
fallback_test :
    resolve_backups_for_run no_devices target (db_with (link 2 ∷ []) [])
    ≡ ok (record own_run { policies = ntp ∷ telnet ∷ [] })
unfolding resolve_backups_for_run chosen_report resolve_target resolve_one named_backup own_policies
    linked_ids fallback
fallback_test = refl

abbrev passes : ComplianceResult
passes = record {
  id = 1;
  policy_id = 1;
  backup_id = some 1;
  device_id = "d1";
  report_id = some 1;
  passed = true;
  detail = "包含";
}

abbrev after_run : Db
after_run = record (db_with (link 1 ∷ link 2 ∷ []) (passes ∷ [])) { next_result = 2 }

runs : run_compliance no_devices no_match target db ≡ ok (1, after_run)
unfolding run_compliance run_resolved run_backups run_policies add_result run_policy_on_content
    is_part strip resolve_backups_for_run chosen_report resolve_target resolve_one named_backup
    own_policies linked_ids
runs = refl

run_compliance-pairs_example :
    (after_run.results ≡ rows_from no_match (some 1) 1 ((first_backup, ntp) ∷ []))
    × ((◌≡◌ {A = ℕ} 1 (length own_run.backups)) ⊎ ((own_run.policies ≡ []) × (◌≡◌ {A = ℕ} 1 0)))
run_compliance-pairs_example =
    run_compliance-pairs no_devices no_match target db after_run 1 own_run resolves runs

-- A backup that a result names stays.
delete_test : delete_backup 1 after_run ≡ err integrity_error
unfolding delete_backup remove_backup
delete_test = refl

abbrev body : BackupCreate
body = record {
  device_id = "d1";
  device_name = none;
  device_host = some "10.0.0.1";
  job_execution_id = none;
  content = "hostname core";
  source = none;
  remark = none;
}

abbrev after_create : Db
after_create = record db {
  backups =
      first_backup
      ∷ record {
        id = 2;
        device_id = "d1";
        device_name = none;
        device_host = some "10.0.0.1";
        job_execution_id = none;
        content = "hostname core";
        source = "api";
        remark = none;
        created_at = 9;
      }
      ∷ [];
  next_backup = 3;
}

trimmed : strip "10.0.0.1" ≡ "10.0.0.1"
unfolding strip
trimmed = refl

creates : create_backup 9 body db ≡ ok after_create
unfolding create_backup device_key is_of_device make_room store_backup strip
creates = refl

few : AreFew db
few host full = omega arith

create_backup-AreFew_example : count (has_host "10.0.0.1") after_create.backups ≤ 90
create_backup-AreFew_example =
    create_backup-AreFew 9 body db after_create trimmed few creates "10.0.0.1" refl

abbrev plan : Option ℕ → Schedule
plan last_run_at = record {
  id = 1;
  name = "nightly";
  report_id = 1;
  target_type = "device_ids";
  target_device_ids = some "[d1]";
  cron_expr = none;
  interval_seconds = some 3600;
  enabled = true;
  last_run_at = last_run_at;
}

abbrev plans : Plans
plans = record { db = db; schedules = plan none ∷ []; next_schedule = 2 }

abbrev plans_after : Plans
plans_after = record { db = after_run; schedules = plan (some 9) ∷ []; next_schedule = 2 }

-- `json.loads` where every text is the list of one key.
one_key : String → Option (List String)
one_key s = some ("d1" ∷ [])

schedule_runs :
    run_compliance_schedule_now one_key no_devices no_match 9 1 plans ≡ ok (1, plans_after)
unfolding run_compliance_schedule_now one_key stored_run run_backups run_policies add_result
    run_policy_on_content is_part strip resolve_backups_for_run chosen_report resolve_target
    resolve_by_ids collect latest own_policies linked_ids
schedule_runs = refl

run_compliance_schedule_now-Adds_example : Adds (IsOfReport 1 db) [] (passes ∷ [])
run_compliance_schedule_now-Adds_example =
    run_compliance_schedule_now-Adds one_key no_devices no_match 9 1 0 (plan none) plans plans_after
      1 refl refl schedule_runs

-- With the report go its links and its schedules.
delete_report_test :
    delete_report 1 plans
    ≡ ok (record plans { db = record db { reports = []; report_policies = [] }; schedules = [] })
unfolding delete_report delete_compliance_report
delete_report_test = refl

-- A printer that forgets, and a parser for its one document.
some_print : Element → String
some_print e = "<PolicyReport/>"

abbrev exported : Element
exported = report_root report (exported_policies 1 db)

some_parse : String → Option Element
some_parse s = some exported

parses : some_parse (some_print exported) ≡ some exported
unfolding some_parse
parses = refl

both-IsPlain : All IsPlain (exported_policies 1 db)
unfolding exported_policies linked_ids
both-IsPlain = ((refl, refl, refl, refl, tt), ((refl, refl, refl, refl, tt), tt))

import-export_example :
    (text : String) × (db' : Db) × (export_compliance_report_xml some_print 1 db ≡ ok text)
    × (import_compliance_report_xml some_parse text db ≡ ok db')
    × (db'.policies ≡ db.policies ++ numbered 3 (map rule_of (exported_policies 1 db)))
import-export_example = import-export some_print some_parse 1 report db refl parses both-IsPlain

-- The NCM format: rules below a policy, in a namespace.
parse_test :
    parse_report_policies_from_root (
      node "{n}PolicyReport" [] "" (
        child
          (node "{n}AssignedPolicies" [] "" (
            child
              (node "{n}Policy" [] "" (
                child
                  (node "{n}AssignedPolicyRules" [] "" (
                    child
                      (node "{n}PolicyRule" [] "" (
                        child
                          (node "{n}SimplePatternText" [] " ntp " end)
                          (child (node "{n}PatternType" [] "RegEx" end) end)))
                      end))
                  end))
              end))
          end))
    ≡ record { name = "ntp"; rule_type = "regex"; rule_content = "ntp"; device_type = none } ∷ []
unfolding parse_report_policies_from_root find_el findall_el namespace rules_of pattern_rules
    text_of lower strip is_part
parse_test = refl
