-- ===== src/Process/RunExamples.antt =====
-- The theorems on executions at a small table, and tests.
use net_soc_ops.Prelude.{
  String, ◌≡◌, refl, ◌+◌, Bool, true, false, Option, none, some, List, [], ◌∷◌, find, ◌==◌,
}
use net_soc_ops.Prelude.Int.{pos}
use net_soc_ops.Process.Store.{ProcessDefinition, Job}
use net_soc_ops.Process.Definitions.{live_row}
use net_soc_ops.Process.Devices.{Node, SshConfig, validate}
use net_soc_ops.Process.Jobs.{get_job, terminate_job, move}
use net_soc_ops.Process.Runs.{
  JobExecution, Runs, Runner, Script, exited, outcome_of_nodes, outcome_of_job, begin_execution,
  delete_job_cascade, execute_job_task, close, set_job_created, end_execution, execute_job,
  get_job_executions_stats,
}
use net_soc_ops.Process.Runs.Ended.{IsEnded, execute_job-IsEnded}
use net_soc_ops.Process.Runs.Orderly.{
  here, next, begins, deletes, tasks, AreOrderly, get_job_executions_stats-total,
}

abbrev bare : SshConfig
bare = record {
  device_type = none;
  device_type_camel = none;
  port = none;
  username = none;
  password = none;
  enable_secret = none;
  enable_secret_camel = none;
}

abbrev node : String → Node
node kind = record {
  kind = kind;
  id = none;
  ssh_config = bare;
  selected_devices = [];
  use_device_from_node_id = none;
}

load : String → Option (List Node)
load s = some (node "start" ∷ node "deviceConnect" ∷ node "configBackup" ∷ node "end" ∷ [])

same_text : String → Option String
same_text s = some s

code_of : List Node → Option String
code_of nodes = some "code"

run_code : String → Script
run_code code = exited (pos 0)

quiet : List Node → Bool
quiet nodes = false

runner : Runner
runner = record {
  load_nodes = load;
  reload = same_text;
  generate_code = code_of;
  run = run_code;
  raises = quiet;
}

abbrev process : ProcessDefinition
process = record {
  id = "p";
  name = "backup";
  description = none;
  version = 1;
  status = "published";
  nodes = some "[]";
  edges = some "[]";
  variables = none;
  created_by = "admin";
  updated_by = none;
  created_at = 1;
  updated_at = 1;
  deleted_at = none;
}

abbrev job_with : String → Job
job_with status = record {
  id = 1;
  name = "backup";
  job_type = "config_backup";
  status = status;
  process_definition_id = some "p";
  run_type = "once";
  schedule_config = none;
  next_run_at = none;
  updated_at = 1;
}

abbrev begin : Runs
begin = record {
  db = record {
    process_definitions = process ∷ [];
    process_definition_versions = [];
    jobs = job_with "created" ∷ [];
    next_job = 2;
  };
  executions = [];
  next_execution = 1;
}

-- Another request terminates the job while its script runs.
abbrev terminating : Runs → Runs
unfolding terminate_job
terminating r = record r { db = (terminate_job 1 1 r.db).1 }

abbrev running : JobExecution
running = record {
  id = 1;
  job_id = 1;
  status = "running";
  start_time = 5;
  end_time = none;
  error_message = none;
}

quiet-false : (nodes : List Node) → runner.raises nodes ≡ false
unfolding runner quiet
quiet-false nodes = refl

execute_job-IsEnded_example :
    ((execute_job runner terminating 5 9 1 begin).0 ≡ some true)
    × ((e : JobExecution) × (find
            (λ x. x.id == 1)
            (execute_job runner terminating 5 9 1 begin).1.executions
          ≡ some e)
        × IsEnded 9 e)
unfolding begin_execution terminating
execute_job-IsEnded_example =
    execute_job-IsEnded runner terminating 5 9 1 begin (job_with "created") running quiet-false refl
      refl

terminated : Job
terminated = record {
  id = 1;
  name = "backup";
  job_type = "config_backup";
  status = "terminated";
  process_definition_id = some "p";
  run_type = "once";
  schedule_config = none;
  next_run_at = none;
  updated_at = 1;
}

-- The job that was terminated is created again.
execute_job_test :
    get_job 1 (execute_job runner terminating 5 9 1 begin).1.db
    ≡ some (record terminated { status = "created" })
unfolding execute_job outcome_of_job outcome_of_nodes live_row validate begin_execution
    end_execution set_job_created close terminated terminating terminate_job move runner load
    same_text code_of run_code quiet
execute_job_test = refl

-- An execution begins, another job is deleted, a task of the queue ends the execution.
abbrev busy : Runs
busy = execute_job_task 9 1 1 (delete_job_cascade 2 (begin_execution 5 1 begin)).1

get_job_executions_stats-total_example :
    AreOrderly busy
    × (let stats = get_job_executions_stats 1 9 none busy in
        stats.success + stats.failed + stats.running ≡ stats.total)
get_job_executions_stats-total_example =
    get_job_executions_stats-total 1 9 none begin busy tt
      (next (next (next here (begins begin 5 1)) (deletes _ 2)) (tasks _ 9 1 1))
