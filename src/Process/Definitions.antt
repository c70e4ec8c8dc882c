-- ===== src/Process/Definitions.antt =====
-- netops-backend/app/api/process_management.py: the endpoints on process definitions. The texts of
-- `uuid4`, the time and the name of the caller are arguments; a failure is the status and detail of
-- an `HTTPException`.
pub mod History
pub mod Deleted
use net_soc_ops.Prelude.{
  ℕ, suc, ◌+◌, String, Bool, true, false, not, ◌&&◌, Option, none, some, List, [], ◌∷◌, ◌++◌, find,
  select, update, any, get_or, is_some, leb, str_eq, ◌==◌, if◌then◌else◌,
}
use net_soc_ops.Prelude.Results.{Result, ok, err}
use net_soc_ops.Process.Store.{ProcessDefinition, ProcessDefinitionVersion, Job, Db, Json}

abbrev pub Failure : Type 0
Failure = ℕ × String

abbrev pub not_found : Failure
not_found = (404, "流程定义不存在")

-- The body of a creation, with the JSON texts of its parts.
pub record ProcessDefinitionCreate : Type 0 where
  pub name : String
  pub description : Option String
  pub nodes : String
  pub edges : String
  pub variables : String

pub record ProcessDefinitionUpdate : Type 0 where
  pub name : Option String
  pub description : Option String
  pub nodes : Option String
  pub edges : Option String
  pub variables : Option String

-- `SELECT * … WHERE id = :id`, first row.
abbrev pub row_of : String → Db → Option ProcessDefinition
row_of process_id db = find (λ p. str_eq p.id process_id) db.process_definitions

-- The same with `deleted_at IS NULL`.
abbrev pub is_live : String → ProcessDefinition → Bool
is_live process_id p = str_eq p.id process_id && not (is_some p.deleted_at)

unfoldable pub live_row : String → Db → Option ProcessDefinition
live_row process_id db = find (is_live process_id) db.process_definitions

unfoldable pub create_process_definition : ℕ → String → String → ProcessDefinitionCreate → Db → Db
create_process_definition now process_id username process db = record db {
  process_definitions =
      db.process_definitions
      ++ record {
        id = process_id;
        name = process.name;
        description = process.description;
        version = 1;
        status = "draft";
        nodes = some process.nodes;
        edges = some process.edges;
        variables = some process.variables;
        created_by = username;
        updated_by = some username;
        created_at = now;
        updated_at = now;
        deleted_at = none;
      }
        ∷ [];
}

unfoldable pub get_process_definitions : Db → List ProcessDefinition
get_process_definitions db = select (λ p. not (is_some p.deleted_at)) db.process_definitions

unfoldable pub get_process_definition : String → Db → Result Failure ProcessDefinition
unfolding live_row
get_process_definition process_id db = elim (live_row process_id db) [
  | none ↦ err not_found
  | some p ↦ ok p
]

-- A column as `_row_to_process_dict` reads it and `json.dumps` writes it again.
abbrev pub column : Json → String → Option String → String
column json default none = default
column json default (some s) =
    let reloaded = get_or (json.reload s) default in if str_eq s "" then default else reloaded

-- `ep.get('updated_by') or username`.
abbrev author : Option String → String → String
author none username = username
author (some a) username = if str_eq a "" then username else a

unfoldable pub snapshot : Json → ℕ → String → String → ProcessDefinition → ProcessDefinitionVersion
snapshot json now version_id username ep = record {
  id = version_id;
  process_id = ep.id;
  version = ep.version;
  nodes = column json "[]" ep.nodes;
  edges = column json "[]" ep.edges;
  variables = column json "{}" ep.variables;
  created_by = author ep.updated_by username;
  created_at = now;
}

-- `COALESCE(:new, old)`.
abbrev coalesce {ℓ} : {A : Type ℓ} → Option A → Option A → Option A
coalesce none old = old
coalesce (some a) old = some a

unfoldable pub updated :
    ℕ → String → ProcessDefinitionUpdate → ProcessDefinition → ProcessDefinition
updated now username process p = record p {
  name = get_or process.name p.name;
  description = coalesce process.description p.description;
  version = p.version + 1;
  nodes = coalesce process.nodes p.nodes;
  edges = coalesce process.edges p.edges;
  variables = coalesce process.variables p.variables;
  updated_by = some username;
  updated_at = now;
}

-- The version of what was, then the new state. Both are one commit.
unfoldable pub update_process_definition :
    Json → ℕ → String → String → String → ProcessDefinitionUpdate → Db → Result Failure Db
unfolding live_row snapshot updated
update_process_definition json now version_id username process_id process db =
    elim (live_row process_id db) [
      | none ↦ err not_found
      | some ep ↦ ok record db {
        process_definition_versions =
            db.process_definition_versions ++ snapshot json now version_id username ep ∷ [];
        process_definitions =
            update (λ p. str_eq p.id process_id) (updated now username process)
              db.process_definitions;
      }
    ]

-- `UPDATE … WHERE id = :id AND deleted_at IS NULL`, with status 404 if no row is covered.
unfoldable pub update_live :
    String → (ProcessDefinition → ProcessDefinition) → Db → Result Failure Db
update_live process_id f db =
    if any (is_live process_id) db.process_definitions
    then ok record db { process_definitions = update (is_live process_id) f db.process_definitions }
    else err not_found

unfoldable pub delete_process_definition : ℕ → String → Db → Result Failure Db
unfolding update_live
delete_process_definition now process_id db =
    update_live process_id (λ p. record p { deleted_at = some now }) db

unfoldable pub disable_process_definition : ℕ → String → Db → Result Failure Db
unfolding update_live
disable_process_definition now process_id db =
    update_live process_id (λ p. record p { status = "disabled"; updated_at = now }) db

-- `ORDER BY version DESC`; among equal numbers the order of the table is taken.
abbrev insert_desc :
    ProcessDefinitionVersion → List ProcessDefinitionVersion → List ProcessDefinitionVersion
insert_desc v [] = v ∷ []
insert_desc v (w ∷ ws) = if leb w.version v.version then v ∷ w ∷ ws else w ∷ insert_desc v ws

abbrev sort_desc : List ProcessDefinitionVersion → List ProcessDefinitionVersion
sort_desc [] = []
sort_desc (v ∷ vs) = insert_desc v (sort_desc vs)

unfoldable pub get_process_versions : String → Db → List ProcessDefinitionVersion
get_process_versions process_id db =
    sort_desc (select (λ v. str_eq v.process_id process_id) db.process_definition_versions)

abbrev pub is_version : String → ℕ → ProcessDefinitionVersion → Bool
is_version process_id version v = str_eq v.process_id process_id && v.version == version

-- `bind` is what the driver sends for the Python value that a JSONB column yields, given by their
-- texts; `none` is a value that it cannot adapt, as it cannot an object.
abbrev bound : (String → Option String) → ProcessDefinitionVersion → Option ProcessDefinitionVersion
bound bind v = elim (bind v.nodes) [
  | none ↦ none
  | some nodes ↦ elim (bind v.edges) [
    | none ↦ none
    | some edges ↦ elim (bind v.variables) [
      | none ↦ none
      | some variables ↦ some (record v { nodes = nodes; edges = edges; variables = variables })
    ]
  ]
]

unfoldable pub restored :
    ℕ → String → ProcessDefinitionVersion → ProcessDefinition → ProcessDefinition
restored now username v p = record p {
  nodes = some v.nodes;
  edges = some v.edges;
  variables = some v.variables;
  version = v.version;
  updated_by = some username;
  updated_at = now;
}

-- The columns are bound as they were read, without `json.dumps`; what the driver raises is answered
-- with status 500.
unfoldable pub rollback_process_version :
    (String → Option String) → ℕ → String → String → ℕ → Db → Result Failure Db
unfolding restored
rollback_process_version bind now username process_id version db =
    elim (find (is_version process_id version) db.process_definition_versions) [
      | none ↦ err (404, "指定版本不存在")
      | some row ↦ elim (bound bind row) [
        | none ↦ err (500, "Internal Server Error")
        | some v ↦ ok record db {
          process_definitions =
              update (λ p. str_eq p.id process_id) (restored now username v) db.process_definitions;
        }
      ]
    ]
