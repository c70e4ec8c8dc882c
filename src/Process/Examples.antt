-- ===== src/Process/Examples.antt =====
-- The theorems on processes and jobs at a small table.
use net_soc_ops.Prelude.{
  ℕ, ◌+◌, String, ◌≡◌, refl, true, false, Option, none, some, [], ◌∷◌, AreDistinct, elem, ◌||◌,
  str_eq, if◌then◌else◌, arith,
}
use net_soc_ops.Prelude.Results.{ok, err}
use net_soc_ops.Process.Store.{ProcessDefinition, ProcessDefinitionVersion, Job, Db, Json}
use net_soc_ops.Process.Definitions.{
  not_found, row_of, ProcessDefinitionUpdate, get_process_definition, update_process_definition,
  delete_process_definition, disable_process_definition, rollback_process_version, update_live,
}
use net_soc_ops.Process.Definitions.Deleted.{delete-IsGone}
use net_soc_ops.Process.Definitions.History.{AreBelow, update-AreBelow}
use net_soc_ops.Process.Jobs.{get_job, move, pause_job, resume_job, terminate_job, create_job}
use net_soc_ops.Process.Jobs.Status.{
  served, resumes, terminates, resume-pause, terminate_job-IsFinal,
}
use net_soc_ops.Process.Publish.{job_type_of, publish_job, publish_process_definition}
use net_soc_ops.Process.Publish.OneJob.{job_count, publish-OneJob}
use net_soc_ops.Process.Devices.{
  SshConfig, Node, device_list, backup_device_list, devices_of_nodes, device_of, hosts, all_devices,
}
use net_soc_ops.Process.Devices.Distinct.{all_devices-AreDistinct, all_devices-elem}

-- A library that gives each text back, and finds no types.
abbrev json : Json
json = record { reload = λ s. some s; node_types = λ s. none }

abbrev no_run : String → Option ℕ
no_run s = none

abbrev process : ProcessDefinition
process = record {
  id = "p";
  name = "backup";
  description = none;
  version = 2;
  status = "draft";
  nodes = some "[1]";
  edges = none;
  variables = none;
  created_by = "alice";
  updated_by = none;
  created_at = 1;
  updated_at = 1;
  deleted_at = none;
}

abbrev first_version : ProcessDefinitionVersion
first_version = record {
  id = "v";
  process_id = "p";
  version = 1;
  nodes = "[]";
  edges = "[]";
  variables = "{}";
  created_by = "alice";
  created_at = 1;
}

abbrev job : Job
job = record {
  id = 1;
  name = "backup";
  job_type = "config_backup";
  status = "active";
  process_definition_id = none;
  run_type = "once";
  schedule_config = none;
  next_run_at = none;
  updated_at = 1;
}

abbrev table : Db
table = record {
  process_definitions = process ∷ [];
  process_definition_versions = first_version ∷ [];
  jobs = job ∷ [];
  next_job = 2;
}

abbrev change : ProcessDefinitionUpdate
change = record {
  name = none;
  description = none;
  nodes = some "[2]";
  edges = none;
  variables = none;
}

abbrev without : Db
without = record table { process_definitions = record process { deleted_at = some 5 } ∷ [] }

delete-IsGone_example :
    (get_process_definition "p" without ≡ err not_found)
    × (update_process_definition json 9 "w" "alice" "p" change without ≡ err not_found)
    × (delete_process_definition 9 "p" without ≡ err not_found)
    × (disable_process_definition 9 "p" without ≡ err not_found)
unfolding delete_process_definition update_live
delete-IsGone_example = delete-IsGone json 5 9 "w" "alice" "p" change table without refl

-- A driver that cannot adapt an object.
lists_only : String → Option String
lists_only s = if str_eq s "{}" then none else some s

rollback_test :
    rollback_process_version lists_only 9 "alice" "p" 1 table ≡ err (500, "Internal Server Error")
unfolding rollback_process_version lists_only
rollback_test = refl

update-AreBelow_example :
    (after : Db) × (p : ProcessDefinition) × (update_process_definition json 5 "w" "alice" "p"
        change table
      ≡ ok after)
    × (row_of "p" after ≡ some p)
    × (p.version ≡ 2 + 1)
    × AreBelow "p" p.version after
update-AreBelow_example =
    update-AreBelow json 5 "w" "alice" "p" change process table refl refl (refl, tt)

resume-pause_test :
    ((resume_job 9 1 (pause_job 5 1 table).1).0 ≡ true)
    × (get_job 1 (resume_job 9 1 (pause_job 5 1 table).1).1
        ≡ some (record job { status = "active"; updated_at = 9 }))
    × ((pause_job 9 1 (pause_job 5 1 table).1).0 ≡ false)
unfolding pause_job move
resume-pause_test = resume-pause 5 9 1 job table refl refl

terminate_job-IsFinal_example :
    let db' = served (resumes 6 1 ∷ terminates 7 1 ∷ []) (terminate_job 5 1 table).1 in
    (get_job 1 db' ≡ some (record job { status = "terminated"; updated_at = 5 }))
    × (pause_job 9 1 db' ≡ (false, db'))
    × (resume_job 9 1 db' ≡ (false, db'))
    × (terminate_job 9 1 db' ≡ (false, db'))
unfolding terminate_job move
terminate_job-IsFinal_example =
    terminate_job-IsFinal 5 9 1 job (resumes 6 1 ∷ terminates 7 1 ∷ []) table refl refl

abbrev published : Db
published = record table {
  process_definitions = record process { status = "published"; updated_at = 5 } ∷ [];
  jobs =
      job
      ∷ record {
        id = 2;
        name = "backup";
        job_type = "config_backup";
        status = "created";
        process_definition_id = some "p";
        run_type = "once";
        schedule_config = none;
        next_run_at = none;
        updated_at = 5;
      }
      ∷ [];
  next_job = 3;
}

publish-OneJob_example : job_count "p" published ≡ 1
unfolding publish_process_definition update_live publish_job create_job job_type_of
publish-OneJob_example = publish-OneJob json no_run 5 "p" table published refl (omega arith)

abbrev ssh : SshConfig
ssh = record {
  device_type = none;
  device_type_camel = none;
  port = none;
  username = none;
  password = none;
  enable_secret = none;
  enable_secret_camel = none;
}

abbrev connection : Node
connection = record {
  kind = "deviceConnect";
  id = some "n";
  ssh_config = ssh;
  selected_devices = "10.0.0.1" ∷ "10.0.0.2" ∷ [];
  use_device_from_node_id = none;
}

abbrev backup : Node
backup = record connection { kind = "configBackup"; selected_devices = [] }

all_devices-AreDistinct_example : AreDistinct (hosts (all_devices (connection ∷ backup ∷ [])))
unfolding device_list devices_of_nodes device_of
all_devices-AreDistinct_example =
    all_devices-AreDistinct (connection ∷ backup ∷ []) (refl, (refl, tt))

all_devices-elem_test :
    elem "10.0.0.2" (hosts (all_devices (connection ∷ backup ∷ [])))
    ≡ elem "10.0.0.2" (hosts (device_list (connection ∷ backup ∷ [])))
      || elem "10.0.0.2" (hosts (backup_device_list (connection ∷ backup ∷ [])))
all_devices-elem_test = all_devices-elem (connection ∷ backup ∷ []) "10.0.0.2"
