-- ===== src/Process/Runs.antt =====
-- The execution of jobs in netops-backend/app/services/job.py: `execute_job`, the end of an
-- execution, and the statistics. Logs and results are left out, and so are the times of the last
-- runs. What the scan and inspection nodes do is left out as well, but for whether they raise.
pub mod Ended
pub mod Orderly
use Prim.Native.String.{◌++◌ as ◌<>◌}
use net_soc_ops.Prelude.{
  ℕ, zero, suc, ◌+◌, String, Bool, true, false, not, ◌&&◌, ◌||◌, Option, none, some, List, [], ◌∷◌,
  ◌++◌, find, select, update, any, length, leb, ltb, str_eq, ◌==◌, if◌then◌else◌,
}
use net_soc_ops.Prelude.Int.{ℤ, pos}
use net_soc_ops.Process.Store.{ProcessDefinition, Job, Db}
use net_soc_ops.Process.Definitions.{live_row}
use net_soc_ops.Process.Devices.{Node, validate}
use net_soc_ops.Process.Jobs.{get_job, delete_job}

-- A message of the program's own, or the text of an exception.
pub data Message : Type 0 where
  literal : String → Message
  exception_text : Message

pub record JobExecution : Type 0 where
  pub id : ℕ
  pub job_id : ℕ
  pub status : String
  pub start_time : ℕ
  pub end_time : Option ℕ
  pub error_message : Option Message

-- The tables, with that of the executions.
pub record Runs : Type 0 where
  pub db : Db
  pub executions : List JobExecution
  pub next_execution : ℕ

-- How `subprocess.run` ends: `TimeoutExpired` and any other exception are the last two.
pub data Script : Type 0 where
  exited : ℤ → Script
  timed_out broken : Script

-- What an execution calls: `json.loads` of the nodes and of another column, `generate_code`, the
-- subprocess, and whether a scan or inspection node raises; `none` is an exception.
pub record Runner : Type 0 where
  pub load_nodes : String → Option (List Node)
  pub reload : String → Option String
  pub generate_code : List Node → Option String
  pub run : String → Script
  pub raises : List Node → Bool

-- The ways through `execute_job`.
pub data Outcome : Type 0 where
  no_process : Outcome
  failed : Message → Outcome
  script_failed : Outcome
  raised : Outcome
  completed : Outcome

abbrev joined : List String → String
joined [] = ""
joined (s ∷ []) = s
joined (s ∷ t ∷ ss) = s <> ("; " <> joined (t ∷ ss))

-- A column that is empty counts as an empty list; `none` is an exception.
abbrev nodes_of : Runner → Option String → Option (List Node)
nodes_of runner none = some []
nodes_of runner (some s) = if str_eq s "" then some [] else runner.load_nodes s

abbrev loads : Runner → Option String → Bool
loads runner none = true
loads runner (some s) =
    if str_eq s "" then true else elim (runner.reload s) [ none ↦ false | some x ↦ true ]

-- `has_traditional`.
abbrev is_traditional : Node → Bool
is_traditional n =
    str_eq n.kind "deviceConnect" || str_eq n.kind "configBackup" || str_eq n.kind "configDeploy"

-- After the script: the scans and inspections.
abbrev outcome_of_rest : Runner → List Node → Outcome
outcome_of_rest runner nodes = if runner.raises nodes then raised else completed

abbrev outcome_of_script : Runner → List Node → Script → Outcome
outcome_of_script runner nodes (exited (pos zero)) = outcome_of_rest runner nodes
outcome_of_script runner nodes (exited code) = script_failed
outcome_of_script runner nodes timed_out = failed (literal "执行超时")
outcome_of_script runner nodes broken = failed exception_text

abbrev outcome_of_code : Runner → List Node → Option String → Outcome
outcome_of_code runner nodes none = failed exception_text
outcome_of_code runner nodes (some code) = outcome_of_script runner nodes (runner.run code)

abbrev outcome_of_errors : Runner → List Node → List String → Outcome
outcome_of_errors runner nodes [] = outcome_of_code runner nodes (runner.generate_code nodes)
outcome_of_errors runner nodes (e ∷ es) = failed (literal ("流程校验失败: " <> joined (e ∷ es)))

-- The nodes of the process are known.
unfoldable pub outcome_of_nodes : Runner → List Node → Outcome
unfolding validate
outcome_of_nodes runner nodes =
    if any is_traditional nodes
    then outcome_of_errors runner nodes (validate nodes)
    else outcome_of_rest runner nodes

abbrev outcome_of_process : Runner → Option ProcessDefinition → Outcome
outcome_of_process runner none = failed (literal "流程定义不存在或已删除")
outcome_of_process runner (some process) =
    if loads runner process.edges && loads runner process.variables
    then elim (nodes_of runner process.nodes) [
      | none ↦ failed exception_text
      | some nodes ↦ outcome_of_nodes runner nodes
    ]
    else failed exception_text

unfoldable pub outcome_of_job : Runner → Job → Db → Outcome
unfolding live_row outcome_of_nodes
outcome_of_job runner job db = elim job.process_definition_id [
  | none ↦ no_process
  | some process_id ↦
      if str_eq process_id ""
      then no_process
      else outcome_of_process runner (live_row process_id db)
]

-- The first commit: the execution is running, and the job is active.
unfoldable pub begin_execution : ℕ → ℕ → Runs → Runs
begin_execution now job_id r = record r {
  db = record (r.db) {
    jobs = update (λ j. j.id == job_id) (λ j. record j { status = "active" }) r.db.jobs;
  };
  executions =
      r.executions
      ++ record {
        id = r.next_execution;
        job_id = job_id;
        status = "running";
        start_time = now;
        end_time = none;
        error_message = none;
      }
        ∷ [];
  next_execution = suc r.next_execution;
}

-- The assignments to the execution.
unfoldable pub close : ℕ → String → Option Message → ℕ → Runs → Runs
close later status message execution_id r = record r {
  executions =
      update (λ e. e.id == execution_id)
        (λ e. record e { status = status; end_time = some later; error_message = message })
        r.executions;
}

unfoldable pub set_execution_failed : ℕ → ℕ → Message → Runs → Runs
unfolding close
set_execution_failed later execution_id message r =
    close later "failed" (some message) execution_id r

-- `job.status = "created"`.
unfoldable pub set_job_created : ℕ → Runs → Runs
set_job_created job_id r = record r {
  db = record (r.db) {
    jobs = update (λ j. j.id == job_id) (λ j. record j { status = "created" }) r.db.jobs;
  };
}

unfoldable pub end_execution : ℕ → ℕ → ℕ → Outcome → Runs → Runs
unfolding close set_execution_failed set_job_created
end_execution later job_id execution_id no_process r = close later "completed" none execution_id r
end_execution later job_id execution_id (failed message) r =
    set_execution_failed later execution_id message r
end_execution later job_id execution_id script_failed r =
    set_job_created job_id (close later "failed" (some (literal "脚本执行失败")) execution_id r)
end_execution later job_id execution_id raised r = r
end_execution later job_id execution_id completed r =
    set_job_created job_id (close later "completed" none execution_id r)

abbrev pub reply_of : Outcome → Option Bool
reply_of raised = none
reply_of _ = some true

-- `during` is what other requests commit between the first commit and the last; `none` is an
-- exception.
unfoldable pub execute_job : Runner → (Runs → Runs) → ℕ → ℕ → ℕ → Runs → Option Bool × Runs
unfolding begin_execution outcome_of_job end_execution
execute_job runner during now later job_id r = elim (get_job job_id r.db) [
  | none ↦ (some false, r)
  | some job ↦
      let outcome = outcome_of_job runner job (begin_execution now job_id r).db in
      (
        reply_of outcome,
        end_execution later job_id r.next_execution outcome (during (begin_execution now job_id r)),
      )
]

-- The deletion of a job takes its executions with it (`cascade` of the relationship).
unfoldable pub delete_job_cascade : ℕ → Runs → Bool × Runs
unfolding delete_job
delete_job_cascade job_id r = elim (get_job job_id r.db) [
  | none ↦ (false, r)
  | some j ↦ (
    true,
    record r {
      db = (delete_job job_id r.db).1;
      executions = select (λ e. not (e.job_id == job_id)) r.executions;
    },
  )
]

abbrev pub is_execution : ℕ → JobExecution → Bool
is_execution execution_id e = e.id == execution_id

-- The task of the queue: the execution is completed, and the job is active.
unfoldable pub execute_job_task : ℕ → ℕ → ℕ → Runs → Runs
execute_job_task later job_id execution_id r = elim (get_job job_id r.db) [
  | none ↦ r
  | some j ↦ elim (find (is_execution execution_id) r.executions) [
    | none ↦ r
    | some e ↦ record r {
      db = record (r.db) {
        jobs = update (λ x. x.id == job_id) (λ x. record x { status = "active" }) r.db.jobs;
      };
      executions =
          update (is_execution execution_id)
            (λ x. record x { status = "completed"; end_time = some later }) r.executions;
    }
  ]
]

pub record Stats : Type 0 where
  pub total : ℕ
  pub success : ℕ
  pub failed : ℕ
  pub running : ℕ

abbrev pub has_status : String → JobExecution → Bool
has_status status e = str_eq e.status status

abbrev pub is_of_job : Option ℕ → JobExecution → Bool
is_of_job none e = true
is_of_job (some job_id) e = e.job_id == job_id

-- The executions that started from `dt_from` on and before `dt_to_end`; the rate is left out.
unfoldable pub get_job_executions_stats : ℕ → ℕ → Option ℕ → Runs → Stats
get_job_executions_stats dt_from dt_to_end job_id r =
    let q =
      select (λ e. leb dt_from e.start_time && ltb e.start_time dt_to_end && is_of_job job_id e)
        r.executions in
    record {
      total = length q;
      success = length (select (has_status "completed") q);
      failed = length (select (has_status "failed") q);
      running = length (select (has_status "running") q);
    }
