-- ===== src/Config/Backups.antt =====
-- The endpoints of backups in netops-backend/routes/config_module.py. A handler that raises commits
-- nothing.
pub mod Limit
use net_soc_ops.Prelude.{
  ℕ, suc, String, Bool, true, false, not, ◌&&◌, Option, none, some, List, [], ◌∷◌, ◌++◌, strip,
  find, select, any, length, get_or, leb, str_eq, ◌==◌, if◌then◌else◌,
}
use net_soc_ops.Prelude.Results.{Result, ok, err, ◌>>=◌, ◌>>◌}
use net_soc_ops.Config.Store.{
  Backup, ComplianceResult, Db, Failure, not_found, bad_request, integrity_error,
}

pub record BackupCreate : Type 0 where
  pub device_id : String
  pub device_name : Option String
  pub device_host : Option String
  pub job_execution_id : Option String
  pub content : String
  pub source : Option String
  pub remark : Option String

unfoldable pub device_key : Option String → String → String
unfolding strip
device_key none device_id = device_id
device_key (some device_host) device_id =
    let host = strip device_host in if str_eq host "" then device_id else host

abbrev pub has_host : String → Backup → Bool
has_host host b = elim b.device_host [ none ↦ false | some h ↦ str_eq h host ]

abbrev pub has_device : String → Backup → Bool
has_device device_id b = str_eq b.device_id device_id

-- The backups of the device of a body.
unfoldable pub is_of_device : Option String → String → Backup → Bool
unfolding strip
is_of_device none device_id = has_device device_id
is_of_device (some device_host) device_id =
    if str_eq (strip device_host) "" then has_device device_id else has_host (strip device_host)

-- `q.order_by(created_at.asc()).first()`.
unfoldable pub oldest : (Backup → Bool) → List Backup → Option Backup
oldest p [] = none
oldest p (b ∷ bs) =
    let rest = oldest p bs in
    if p b
    then elim rest [
      | none ↦ some b
      | some first ↦ some (if leb b.created_at first.created_at then b else first)
    ]
    else rest

-- The foreign key of the results: a backup that a result names cannot be deleted.
abbrev pub names_backup : ℕ → ComplianceResult → Bool
names_backup id r = elim r.backup_id [ none ↦ false | some b ↦ b == id ]

unfoldable pub remove_backup : ℕ → Db → Result Failure Db
remove_backup id db =
    if any (names_backup id) db.results
    then err integrity_error
    else ok (record db { backups = select (λ b. not (b.id == id)) db.backups })

-- With ninety backups or more, the oldest goes.
unfoldable pub make_room : (Backup → Bool) → Db → Result Failure Db
unfolding remove_backup oldest
make_room p db =
    if leb 90 (length (select p db.backups))
    then elim (oldest p db.backups) [ none ↦ ok db | some b ↦ remove_backup b.id db ]
    else ok db

abbrev pub source_or : Option String → String
source_or none = "api"
source_or (some s) = if str_eq s "" then "api" else s

abbrev pub new_backup : ℕ → BackupCreate → Db → Backup
new_backup now body db = record {
  id = db.next_backup;
  device_id = body.device_id;
  device_name = body.device_name;
  device_host = body.device_host;
  job_execution_id = body.job_execution_id;
  content = body.content;
  source = source_or body.source;
  remark = body.remark;
  created_at = now;
}

unfoldable pub store_backup : ℕ → BackupCreate → Db → Db
store_backup now body db = record db {
  backups = db.backups ++ new_backup now body db ∷ [];
  next_backup = suc db.next_backup;
}

unfoldable pub create_backup : ℕ → BackupCreate → Db → Result Failure Db
unfolding device_key is_of_device make_room store_backup
create_backup now body db =
    if str_eq (device_key body.device_host body.device_id) "" then err bad_request else do
      db' ← make_room (is_of_device body.device_host body.device_id) db
      ok (store_backup now body db')

abbrev pub find_backup : ℕ → Db → Option Backup
find_backup id db = find (λ b. b.id == id) db.backups

unfoldable pub get_backup : ℕ → Db → Result Failure Backup
get_backup id db = elim (find_backup id db) [ none ↦ err not_found | some b ↦ ok b ]

unfoldable pub delete_backup : ℕ → Db → Result Failure Db
unfolding remove_backup
delete_backup id db = elim (find_backup id db) [
  | none ↦ err not_found
  | some b ↦ remove_backup id db
]
