-- ===== src/Process/Publish.antt =====
-- `publish_process_definition` of netops-backend/app/api/process_management.py: the status, and the
-- job of the process.
pub mod OneJob
use net_soc_ops.Prelude.{
  ℕ, String, Bool, true, false, not, ◌&&◌, Option, none, some, List, [], ◌∷◌, elem, str_eq,
  if◌then◌else◌,
}
use net_soc_ops.Prelude.Results.{Result, ok, err}
use net_soc_ops.Process.Store.{ProcessDefinition, Job, Db, Json}
use net_soc_ops.Process.Definitions.{Failure, row_of, update_live}
use net_soc_ops.Process.Jobs.{
  JobCreate, JobUpdate, create_job, update_job, get_job_by_process_definition_id,
}

abbrev job_type_of_types : List String → String
job_type_of_types types =
    if elem "penetrationTest" types
    then "penetration_task"
    else if elem "statusCheck" types && not (elem "deviceConnect" types)
    then "daily_inspection"
    else "config_backup"

-- The type of the job, from the types of the nodes; a text that does not load gives the default.
unfoldable pub job_type_of : Json → Option String → String
job_type_of json none = "config_backup"
job_type_of json (some nodes_raw) =
    if str_eq nodes_raw "" then "config_backup" else elim (json.node_types nodes_raw) [
      | none ↦ "config_backup"
      | some types ↦ job_type_of_types types
    ]

abbrev name_and_nodes : String → Option ProcessDefinition → String × Option String
name_and_nodes process_id none = (process_id, none)
name_and_nodes process_id (some p) = (p.name, p.nodes)

-- The job of the process is renamed, or created.
unfoldable pub publish_job : (String → Option ℕ) → ℕ → String → String → String → Db → Db
unfolding create_job update_job
publish_job next_run now process_id name job_type db =
    elim (get_job_by_process_definition_id process_id db) [
      | some existing ↦
          (update_job next_run now existing.id
            record {
              name = some name;
              job_type = some job_type;
              status = none;
              run_type = none;
              schedule_config = none;
            }
            db).1
      | none ↦
          create_job next_run now
            record {
              name = name;
              job_type = job_type;
              process_definition_id = some process_id;
              run_type = some "once";
              schedule_config = none;
            }
            db
    ]

unfoldable pub publish_process_definition :
    Json → (String → Option ℕ) → ℕ → String → Db → Result Failure Db
unfolding update_live publish_job job_type_of
publish_process_definition json next_run now process_id db =
    elim (update_live process_id (λ p. record p { status = "published"; updated_at = now }) db) [
      | err e ↦ err e
      | ok db' ↦
          let (name, nodes) = name_and_nodes process_id (row_of process_id db') in
          ok (publish_job next_run now process_id name (job_type_of json nodes) db')
    ]
