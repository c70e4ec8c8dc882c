-- ===== src/Process/Store.antt =====
-- The tables of netops-backend/app/models/process_management.py and netops-backend/app/models/job.py.
use net_soc_ops.Prelude.{ℕ, String, Option, List}

-- A column of JSONB is given by the text of its value; `deleted_at` and the like hold times.
pub record ProcessDefinition : Type 0 where
  pub id : String
  pub name : String
  pub description : Option String
  pub version : ℕ
  pub status : String
  pub nodes : Option String
  pub edges : Option String
  pub variables : Option String
  pub created_by : String
  pub updated_by : Option String
  pub created_at : ℕ
  pub updated_at : ℕ
  pub deleted_at : Option ℕ

pub record ProcessDefinitionVersion : Type 0 where
  pub id : String
  pub process_id : String
  pub version : ℕ
  pub nodes : String
  pub edges : String
  pub variables : String
  pub created_by : String
  pub created_at : ℕ

pub record Job : Type 0 where
  pub id : ℕ
  pub name : String
  pub job_type : String
  pub status : String
  pub process_definition_id : Option String
  pub run_type : String
  pub schedule_config : Option String
  pub next_run_at : Option ℕ
  pub updated_at : ℕ

pub record Db : Type 0 where
  pub process_definitions : List ProcessDefinition
  pub process_definition_versions : List ProcessDefinitionVersion
  pub jobs : List Job
  pub next_job : ℕ

-- What the program uses of the library of JSON on the text of a column: `dumps(loads(text))`, and
-- the `type` of each element of a list of objects; `none` where it raises.
pub record Json : Type 0 where
  pub reload : String → Option String
  pub node_types : String → Option (List String)
