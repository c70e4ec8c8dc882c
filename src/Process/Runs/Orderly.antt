-- ===== src/Process/Runs/Orderly.antt =====
-- The executions under any interleaving of the commits, and their statistics.
use net_soc_ops.Prelude.{
  ℕ, ◌+◌, String, ◌≡◌, refl, inl, inr, ◌⊎◌, true, ◌&&◌, Option, none, some, List, [], ◌∷◌, All, not,
  find, All-append, All-select, All-update, length, select, is_some, leb, ltb, Option-cases, ◌==◌,
  arith,
}
use net_soc_ops.Process.Store.{Db}
use net_soc_ops.Process.Jobs.{get_job}
use net_soc_ops.Process.Runs.{
  Message, literal, JobExecution, Runs, Runner, Outcome, no_process, failed, script_failed, raised,
  completed, begin_execution, close, set_execution_failed, set_job_created, end_execution,
  delete_job_cascade, is_execution, execute_job_task, execute_job, has_status, is_of_job,
  get_job_executions_stats,
}

-- One commit: the first of an execution, the last of one, the deletion of a job with its
-- executions, a task of the queue, or any other request on processes and jobs.
pub data Step : Runs → Runs → Type 0 where
  begins : (r : Runs) (now job_id : ℕ) → Step r (begin_execution now job_id r)
  ends :
      (r : Runs) (later job_id execution_id : ℕ) (outcome : Outcome)
      → Step r (end_execution later job_id execution_id outcome r)
  deletes : (r : Runs) (job_id : ℕ) → Step r (delete_job_cascade job_id r).1
  tasks :
      (r : Runs) (later job_id execution_id : ℕ)
      → Step r (execute_job_task later job_id execution_id r)
  serves : (r : Runs) (db : Db) → Step r (record r { db = db })

-- Any sequence of commits of executions and requests that run at the same time.
pub data Reach (r : Runs) : Runs → Type 0 where
  here : Reach r r
  next : {s t : Runs} → Reach r s → Step s t → Reach r t

-- An execution is running and has no end, or is over and has one.
abbrev pub IsOrderly : JobExecution → Type 0
IsOrderly e =
    ((e.status ≡ "running") × (e.end_time ≡ none))
    ⊎ (((e.status ≡ "completed") ⊎ (e.status ≡ "failed")) × (is_some e.end_time ≡ true))

abbrev pub AreOrderly : Runs → Type 0
AreOrderly r = All IsOrderly r.executions

close-AreOrderly :
    (later : ℕ) (status : String) (message : Option Message) (execution_id : ℕ) (r : Runs)
    → (status ≡ "completed") ⊎ (status ≡ "failed")
    → AreOrderly r
    → AreOrderly (close later status message execution_id r)
unfolding close
close-AreOrderly later status message execution_id r over h =
    All-update IsOrderly (λ e. e.id == execution_id) _ r.executions (λ e k. inr (over, refl)) h

end_execution-AreOrderly :
    (later job_id execution_id : ℕ) (outcome : Outcome) (r : Runs)
    → AreOrderly r
    → AreOrderly (end_execution later job_id execution_id outcome r)
unfolding end_execution set_execution_failed set_job_created
end_execution-AreOrderly later job_id id no_process r h =
    close-AreOrderly later "completed" none id r (inl refl) h
end_execution-AreOrderly later job_id id (failed message) r h =
    close-AreOrderly later "failed" (some message) id r (inr refl) h
end_execution-AreOrderly later job_id id script_failed r h =
    close-AreOrderly later "failed" (some (literal "脚本执行失败")) id r (inr refl) h
end_execution-AreOrderly later job_id id raised r h = h
end_execution-AreOrderly later job_id id completed r h =
    close-AreOrderly later "completed" none id r (inl refl) h

delete_job_cascade-AreOrderly :
    (job_id : ℕ) (r : Runs) → AreOrderly r → AreOrderly (delete_job_cascade job_id r).1
unfolding delete_job_cascade
delete_job_cascade-AreOrderly job_id r h = elim (Option-cases (get_job job_id r.db)) [
  | inl e ↦ rw (e, delete_job_cascade) h
  | inr (j, e) ↦
      rw (e, delete_job_cascade)
        (All-select IsOrderly (λ x. not (x.job_id == job_id)) r.executions h)
]

execute_job_task-AreOrderly :
    (later job_id execution_id : ℕ) (r : Runs)
    → AreOrderly r
    → AreOrderly (execute_job_task later job_id execution_id r)
unfolding execute_job_task
execute_job_task-AreOrderly later job_id execution_id r h =
    elim (Option-cases (get_job job_id r.db)) [
      | inl e ↦ rw (e, execute_job_task) h
      | inr (j, e) ↦
          rw (e, execute_job_task)
            (elim (Option-cases (find (is_execution execution_id) r.executions)) [
              | inl k ↦ rw k h
              | inr (x, k) ↦ rw k (
                  All-update IsOrderly (is_execution execution_id) _ r.executions
                    (λ y l. inr (inl refl, refl)) h)
            ])
    ]

Step-AreOrderly : {r s : Runs} → Step r s → AreOrderly r → AreOrderly s
unfolding begin_execution
Step-AreOrderly (begins r now job_id) h =
    All-append IsOrderly r.executions _ h (inl (refl, refl), tt)
Step-AreOrderly (ends r later job_id execution_id outcome) h =
    end_execution-AreOrderly later job_id execution_id outcome r h
Step-AreOrderly (deletes r job_id) h = delete_job_cascade-AreOrderly job_id r h
Step-AreOrderly (tasks r later job_id execution_id) h =
    execute_job_task-AreOrderly later job_id execution_id r h
Step-AreOrderly (serves r db) h = h

pub Reach-AreOrderly : {r s : Runs} → AreOrderly r → Reach r s → AreOrderly s
Reach-AreOrderly h here = h
Reach-AreOrderly h (next reach step) = Step-AreOrderly step (Reach-AreOrderly h reach)

join : {r s t : Runs} → Reach r s → Reach s t → Reach r t
join first here = first
join first (next reach step) = next (join first reach) step

-- `execute_job` is such a sequence, if what happens meanwhile is.
pub execute_job-Reach :
    (runner : Runner) (during : Runs → Runs) (now later job_id : ℕ) (r : Runs)
    → ((s : Runs) → Reach s (during s))
    → Reach r (execute_job runner during now later job_id r).1
unfolding execute_job
execute_job-Reach runner during now later job_id r meanwhile =
    elim (Option-cases (get_job job_id r.db)) [
      | inl absent ↦ rw (absent, execute_job) here
      | inr (job, found) ↦
          rw (found, execute_job)
            (next
              (join (next here (begins r now job_id)) (meanwhile (begin_execution now job_id r)))
              (ends _ later job_id r.next_execution _))
    ]

counted :
    (es : List JobExecution)
    → All IsOrderly es
    → length (select (has_status "completed") es)
        + length (select (has_status "failed") es)
        + length (select (has_status "running") es)
      ≡ length es
counted [] h = refl
counted (e ∷ es) (inl (running, unended), h) = rw running (omega (arith, counted es h))
counted (e ∷ es) (inr (inl done, over), h) = rw done (omega (arith, counted es h))
counted (e ∷ es) (inr (inr done, over), h) = rw done (omega (arith, counted es h))

-- From executions of which each is running without an end or over with one, any interleaving of
-- the commits of executions, of tasks of the queue, of deletions of jobs, which take their
-- executions with them, and of other requests leads to such executions; and in the statistics of
-- any days and job then the completed, failed and running executions add up to the total.
pub get_job_executions_stats-total :
    (dt_from dt_to_end : ℕ) (job_id : Option ℕ) (r s : Runs)
    → AreOrderly r
    → Reach r s
    → AreOrderly s
      × (let stats = get_job_executions_stats dt_from dt_to_end job_id s in
          stats.success + stats.failed + stats.running ≡ stats.total)
unfolding get_job_executions_stats
get_job_executions_stats-total dt_from dt_to_end job_id r s h reach =
    let orderly = Reach-AreOrderly h reach in
    (
      orderly,
      counted _ (
          All-select IsOrderly
            (λ e. leb dt_from e.start_time && ltb e.start_time dt_to_end && is_of_job job_id e)
            s.executions orderly),
    )
