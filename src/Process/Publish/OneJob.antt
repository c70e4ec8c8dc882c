-- ===== src/Process/Publish/OneJob.antt =====
-- How many jobs a process has.
use net_soc_ops.Prelude.{
  ℕ, ◌≤◌, String, ◌≡◌, refl, sym, inl, inr, Option, none, some, any, select, length,
  length-select-append, length-select-update, find-select, find-none-select, eq_refl, ◌==◌, arith,
  Bool-cases, Option-cases,
}
use net_soc_ops.Prelude.Results.{ok, Result-cases, ok-inj}
use net_soc_ops.Process.Store.{ProcessDefinition, Job, Db, Json}
use net_soc_ops.Process.Definitions.{is_live, update_live}
use net_soc_ops.Process.Jobs.{
  JobUpdate, get_job, is_job_of, get_job_by_process_definition_id, create_job, update_job, changed,
}
use net_soc_ops.Process.Publish.{publish_job, publish_process_definition}

abbrev pub job_count : String → Db → ℕ
job_count process_id db = length (select (is_job_of process_id) db.jobs)

update_job-keeps :
    (next_run : String → Option ℕ) (now job_id : ℕ) (job : JobUpdate) (process_id : String)
    (db : Db)
    → job_count process_id (update_job next_run now job_id job db).1 ≡ job_count process_id db
unfolding update_job changed
update_job-keeps next_run now job_id job process_id db = elim (Option-cases (get_job job_id db)) [
  | inl e ↦ rw (e, update_job)
  | inr (j, e) ↦
      rw (e, update_job)
        (length-select-update (is_job_of process_id) (λ x. x.id == job_id)
          (changed next_run now job) db.jobs (λ x. refl))
]

publish_job-count :
    (next_run : String → Option ℕ) (now : ℕ) (process_id name job_type : String) (db : Db)
    → job_count process_id db ≤ 1
    → job_count process_id (publish_job next_run now process_id name job_type db) ≡ 1
unfolding publish_job create_job
publish_job-count next_run now process_id name job_type db few =
    elim (Option-cases (get_job_by_process_definition_id process_id db)) [
      | inl e ↦
          let empty = find-none-select (is_job_of process_id) db.jobs e in
          let fresh : Job = record {
            id = db.next_job;
            name = name;
            job_type = job_type;
            status = "created";
            process_definition_id = some process_id;
            run_type = "once";
            schedule_config = none;
            next_run_at = none;
            updated_at = now;
          } in
          rw (e, publish_job)
            (rw (length-select-append (is_job_of process_id) db.jobs fresh (eq_refl process_id))
              (omega (arith, empty)))
      | inr (j, e) ↦
          let full = find-select (is_job_of process_id) db.jobs j e in
          rw (e, publish_job)
            (rw (update_job-keeps next_run now j.id _ process_id db) (omega (arith, full, few)))
    ]

update_live-jobs :
    (process_id : String) (f : ProcessDefinition → ProcessDefinition) (db db' : Db)
    → update_live process_id f db ≡ ok db'
    → job_count process_id db' ≡ job_count process_id db
unfolding update_live
update_live-jobs process_id f db db' h =
    elim (Bool-cases (any (is_live process_id) db.process_definitions)) [
      | inr e ↦ cc (rw e at h)
      | inl e ↦ rw (sym (ok-inj _ db' (rw e at h))) refl
    ]

-- To publish a process leaves it with exactly one job, however often it is done, if it had one at
-- most.
pub publish-OneJob :
    (json : Json) (next_run : String → Option ℕ) (now : ℕ) (process_id : String) (db after : Db)
    → publish_process_definition json next_run now process_id db ≡ ok after
    → job_count process_id db ≤ 1
    → job_count process_id after ≡ 1
unfolding publish_process_definition
publish-OneJob json next_run now process_id db after h few =
    let f : ProcessDefinition → ProcessDefinition =
      λ p. record p { status = "published"; updated_at = now } in
    elim (Result-cases (update_live process_id f db)) [
      | inl (e, k) ↦ cc (rw (k, publish_process_definition) at h)
      | inr (db', k) ↦
          let few' = rw (sym (update_live-jobs process_id f db db' k)) at few in
          let same = ok-inj _ after (rw (k, publish_process_definition) at h) in
          rw (sym same) (publish_job-count next_run now process_id _ _ db' few')
    ]
