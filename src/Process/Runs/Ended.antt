-- ===== src/Process/Runs/Ended.antt =====
-- How an execution ends, and what it leaves of the job.
use net_soc_ops.Prelude.{
  ℕ, suc, String, ◌≡◌, refl, inl, inr, ◌⊎◌, true, false, ◌&&◌, Option, none, some, List, [], ◌∷◌,
  find, find-update, find_sound, any, Bool-cases, Option-cases, str_eq, ◌==◌,
}
use net_soc_ops.Prelude.Int.{ℤ, pos, negsuc}
use net_soc_ops.Process.Store.{ProcessDefinition, Job, Db}
use net_soc_ops.Process.Definitions.{live_row}
use net_soc_ops.Process.Devices.{Node, validate}
use net_soc_ops.Process.Jobs.{get_job}
use net_soc_ops.Process.Runs.{
  Message, literal, JobExecution, Runs, Runner, Script, exited, timed_out, broken, Outcome,
  no_process, failed, script_failed, raised, completed, nodes_of, loads, is_traditional,
  outcome_of_rest, outcome_of_script, outcome_of_code, outcome_of_errors, outcome_of_nodes,
  outcome_of_process, outcome_of_job, begin_execution, close, set_execution_failed, set_job_created,
  end_execution, reply_of, execute_job,
}

abbrev IsFinal : Outcome → Type 0
IsFinal raised = ¬ Unit {0}
IsFinal _ = Unit

module _ (runner : Runner) (calm : (nodes : List Node) → runner.raises nodes ≡ false) where
  rest-IsFinal : (nodes : List Node) → IsFinal (outcome_of_rest runner nodes)
  rest-IsFinal nodes = rw (calm nodes) tt

  script-IsFinal :
      (nodes : List Node) (script : Script) → IsFinal (outcome_of_script runner nodes script)
  script-IsFinal nodes (exited (pos ℕ.zero)) = rest-IsFinal nodes
  script-IsFinal nodes (exited (pos (suc n))) = tt
  script-IsFinal nodes (exited (negsuc n)) = tt
  script-IsFinal nodes timed_out = tt
  script-IsFinal nodes broken = tt

  code-IsFinal :
      (nodes : List Node) (code : Option String) → IsFinal (outcome_of_code runner nodes code)
  code-IsFinal nodes none = tt
  code-IsFinal nodes (some code) = script-IsFinal nodes (runner.run code)

  errors-IsFinal :
      (nodes : List Node) (errors : List String) → IsFinal (outcome_of_errors runner nodes errors)
  errors-IsFinal nodes [] = code-IsFinal nodes (runner.generate_code nodes)
  errors-IsFinal nodes (e ∷ es) = tt

  nodes-IsFinal : (nodes : List Node) → IsFinal (outcome_of_nodes runner nodes)
  unfolding outcome_of_nodes
  nodes-IsFinal nodes = elim (Bool-cases (any is_traditional nodes)) [
    | inl e ↦ rw e (errors-IsFinal nodes (validate nodes))
    | inr e ↦ rw e (rest-IsFinal nodes)
  ]

  process-IsFinal :
      (process : Option ProcessDefinition) → IsFinal (outcome_of_process runner process)
  process-IsFinal none = tt
  process-IsFinal (some process) =
      elim (Bool-cases (loads runner process.edges && loads runner process.variables)) [
        | inr e ↦ rw e tt
        | inl e ↦ rw e (elim (Option-cases (nodes_of runner process.nodes)) [
          | inl e' ↦ rw e' tt
          | inr (nodes, e') ↦ rw e' (nodes-IsFinal nodes)
        ])
      ]

  outcome-IsFinal : (job : Job) (db : Db) → IsFinal (outcome_of_job runner job db)
  unfolding outcome_of_job
  outcome-IsFinal job db = elim (Option-cases job.process_definition_id) [
    | inl e ↦ rw e tt
    | inr (process_id, e) ↦ rw e (elim (Bool-cases (str_eq process_id "")) [
      | inl e' ↦ rw e' tt
      | inr e' ↦ rw e' (process-IsFinal (live_row process_id db))
    ])
  ]

-- The execution is over: it succeeded or failed, and has its end.
abbrev pub IsEnded : ℕ → JobExecution → Type 0
IsEnded later e = ((e.status ≡ "completed") ⊎ (e.status ≡ "failed")) × (e.end_time ≡ some later)

abbrev find_execution : ℕ → Runs → Option JobExecution
find_execution id r = find (λ e. e.id == id) r.executions

closed :
    (later : ℕ) (status : String) (message : Option Message) (id : ℕ) (r : Runs) (e : JobExecution)
    → find_execution id r ≡ some e
    → find_execution id (close later status message id r)
      ≡ some (record e { status = status; end_time = some later; error_message = message })
unfolding close
closed later status message id r e found =
    find-update (λ x. x.id == id) (λ x. x.id == id)
      (λ x. record x { status = status; end_time = some later; error_message = message })
      r.executions e (λ x. refl) (find_sound (λ x. x.id == id) r.executions e found) found

end_execution-IsEnded :
    (later job_id id : ℕ) (outcome : Outcome) (r : Runs) (e : JobExecution)
    → IsFinal outcome
    → find_execution id r ≡ some e
    → (e' : JobExecution) × (find_execution id (end_execution later job_id id outcome r) ≡ some e')
      × IsEnded later e'
unfolding end_execution set_execution_failed set_job_created
end_execution-IsEnded later job_id id no_process r e final found =
    (_, closed later "completed" none id r e found, (inl refl, refl))
end_execution-IsEnded later job_id id (failed message) r e final found =
    (_, closed later "failed" (some message) id r e found, (inr refl, refl))
end_execution-IsEnded later job_id id script_failed r e final found =
    (_, closed later "failed" (some (literal "脚本执行失败")) id r e found, (inr refl, refl))
end_execution-IsEnded later job_id id raised r e final found = absurd (final tt)
end_execution-IsEnded later job_id id completed r e final found =
    (_, closed later "completed" none id r e found, (inl refl, refl))

final_reply : (outcome : Outcome) → IsFinal outcome → reply_of outcome ≡ some true
final_reply no_process h = refl
final_reply (failed message) h = refl
final_reply script_failed h = refl
final_reply raised h = absurd (h tt)
final_reply completed h = refl

-- If no scan or inspection node raises, an execution of a job that exists answers true and ends as
-- completed or failed with its end time, whatever the process, its script and the generator do, as
-- long as the requests meanwhile leave its row in the table.
pub execute_job-IsEnded :
    (runner : Runner) (during : Runs → Runs) (now later job_id : ℕ) (r : Runs) (job : Job)
    (e : JobExecution)
    → ((nodes : List Node) → runner.raises nodes ≡ false)
    → get_job job_id r.db ≡ some job
    → find (λ x. x.id == r.next_execution) (during (begin_execution now job_id r)).executions
      ≡ some e
    → ((execute_job runner during now later job_id r).0 ≡ some true)
      × ((e' : JobExecution) × (find
              (λ x. x.id == r.next_execution)
              (execute_job runner during now later job_id r).1.executions
            ≡ some e')
          × IsEnded later e')
unfolding execute_job
execute_job-IsEnded runner during now later job_id r job e calm found there =
    let outcome = outcome_of_job runner job (begin_execution now job_id r).db in
    let final = outcome-IsFinal runner calm job (begin_execution now job_id r).db in
    rw (found, execute_job)
      (
        final_reply outcome final,
        end_execution-IsEnded later job_id r.next_execution outcome
            (during (begin_execution now job_id r)) e final there,
      )

-- What the end of an execution makes of the job that the other requests have left: the last two
-- of the ends that commit set its status.
abbrev left_by : Outcome → Job → Job
left_by script_failed j = record j { status = "created" }
left_by completed j = record j { status = "created" }
left_by _ j = j

-- The script of a process ran to an end, with whatever code, or the process needs none.
abbrev pub HasRun : Runner → List Node → Type 0
HasRun runner nodes =
    (any is_traditional nodes ≡ false)
    ⊎ ((validate nodes ≡ [])
        × (text : String) × (runner.generate_code nodes ≡ some text)
        × (code : ℤ) × (runner.run text ≡ exited code))
