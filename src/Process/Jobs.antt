-- ===== src/Process/Jobs.antt =====
-- The jobs of netops-backend/app/services/job.py: the methods that keep the table. `next_run` is
-- what `_compute_next_run_at` yields for a schedule, from `croniter` and the time of the call.
pub mod Status
use net_soc_ops.Prelude.{
  ℕ, suc, ◌+◌, String, Bool, true, false, not, ◌&&◌, Option, none, some, List, [], ◌∷◌, ◌++◌, find,
  select, update, any, str_eq, ◌==◌, if◌then◌else◌,
}
use net_soc_ops.Process.Store.{Job, Db}

pub record JobCreate : Type 0 where
  pub name : String
  pub job_type : String
  pub process_definition_id : Option String
  pub run_type : Option String
  pub schedule_config : Option String

-- The fields of a `JobUpdate` that the request has set.
pub record JobUpdate : Type 0 where
  pub name : Option String
  pub job_type : Option String
  pub status : Option String
  pub run_type : Option String
  pub schedule_config : Option (Option String)

abbrev pub get_job : ℕ → Db → Option Job
get_job job_id db = find (λ j. j.id == job_id) db.jobs

abbrev or_once : Option String → String
or_once none = "once"
or_once (some r) = if str_eq r "" then "once" else r

-- The next run of a schedule, where there is one.
abbrev next_of : (String → Option ℕ) → Option String → Option ℕ
next_of next_run none = none
next_of next_run (some config) = next_run config

unfoldable pub create_job : (String → Option ℕ) → ℕ → JobCreate → Db → Db
create_job next_run now job db = record db {
  jobs =
      db.jobs
      ++ record {
        id = db.next_job;
        name = job.name;
        job_type = job.job_type;
        status = "created";
        process_definition_id = job.process_definition_id;
        run_type = or_once job.run_type;
        schedule_config = job.schedule_config;
        next_run_at = next_of next_run job.schedule_config;
        updated_at = now;
      }
        ∷ [];
  next_job = suc db.next_job;
}

abbrev pub is_job_of : String → Job → Bool
is_job_of process_definition_id j = elim j.process_definition_id [
  | none ↦ false
  | some p ↦ str_eq p process_definition_id
]

abbrev pub get_job_by_process_definition_id : String → Db → Option Job
get_job_by_process_definition_id process_definition_id db =
    find (is_job_of process_definition_id) db.jobs

abbrev set_or {ℓ} : {A : Type ℓ} → Option A → A → A
set_or none old = old
set_or (some a) old = a

-- A schedule that has a next run sets it; any other leaves the old one.
abbrev rescheduled : (String → Option ℕ) → Option (Option String) → Option ℕ → Option ℕ
rescheduled next_run none old = old
rescheduled next_run (some none) old = old
rescheduled next_run (some (some config)) old = elim (next_run config) [
  | none ↦ old
  | some t ↦ some t
]

unfoldable pub changed : (String → Option ℕ) → ℕ → JobUpdate → Job → Job
changed next_run now job j = record j {
  name = set_or job.name j.name;
  job_type = set_or job.job_type j.job_type;
  status = set_or job.status j.status;
  run_type = set_or job.run_type j.run_type;
  schedule_config = set_or job.schedule_config j.schedule_config;
  next_run_at = rescheduled next_run job.schedule_config j.next_run_at;
  updated_at = now;
}

unfoldable pub update_job : (String → Option ℕ) → ℕ → ℕ → JobUpdate → Db → Option Job × Db
unfolding changed
update_job next_run now job_id job db = elim (get_job job_id db) [
  | none ↦ (none, db)
  | some j ↦ (
    some (changed next_run now job j),
    record db { jobs = update (λ x. x.id == job_id) (changed next_run now job) db.jobs },
  )
]

-- The executions of the job, which go with it, are in Runs (`delete_job_cascade`).
unfoldable pub delete_job : ℕ → Db → Bool × Db
delete_job job_id db = elim (get_job job_id db) [
  | none ↦ (false, db)
  | some j ↦ (true, record db { jobs = select (λ x. not (x.id == job_id)) db.jobs })
]

-- The methods that move a job from one status to another, if its status allows it.
unfoldable pub move : (String → Bool) → String → ℕ → ℕ → Db → Bool × Db
move allowed status now job_id db = elim (get_job job_id db) [
  | none ↦ (false, db)
  | some j ↦
      if allowed j.status
      then (
        true,
        record db {
          jobs =
              update (λ x. x.id == job_id) (λ x. record x { status = status; updated_at = now })
                db.jobs;
        },
      )
      else (false, db)
]

unfoldable pub pause_job : ℕ → ℕ → Db → Bool × Db
unfolding move
pause_job = move (λ s. str_eq s "active") "paused"

unfoldable pub resume_job : ℕ → ℕ → Db → Bool × Db
unfolding move
resume_job = move (λ s. str_eq s "paused") "active"

unfoldable pub terminate_job : ℕ → ℕ → Db → Bool × Db
unfolding move
terminate_job = move (λ s. not (str_eq s "terminated")) "terminated"
