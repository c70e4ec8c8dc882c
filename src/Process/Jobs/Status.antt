-- ===== src/Process/Jobs/Status.antt =====
-- The moves between the statuses of a job.
use net_soc_ops.Prelude.{
  List, [], ◌∷◌, find, update, sym, ◌∙◌, ==_iff, Option-cases, arith, ap, ℕ, String, ◌≡◌, refl, inl,
  inr, Bool, true, false, not, some, find-update, find_sound, str_eq, ◌==◌, Bool-cases,
}
use net_soc_ops.Process.Store.{Job, Db}
use net_soc_ops.Process.Jobs.{get_job, move, pause_job, resume_job, terminate_job}

module _ (allowed : String → Bool) (status : String) (now job_id : ℕ) (j : Job) (db : Db) where
  move-refuses :
      get_job job_id db ≡ some j
      → allowed j.status ≡ false
      → move allowed status now job_id db ≡ (false, db)
  unfolding move
  move-refuses found h = rw (found, move) (rw h)

  move-allowed :
      get_job job_id db ≡ some j
      → (move allowed status now job_id db).0 ≡ true
      → allowed j.status ≡ true
  move-allowed found h = elim (Bool-cases (allowed j.status)) [
    | inl e ↦ e
    | inr e ↦ cc (rw (move-refuses found e) at h)
  ]

  move-runs :
      get_job job_id db ≡ some j
      → allowed j.status ≡ true
      → ((move allowed status now job_id db).0 ≡ true)
        × (get_job job_id (move allowed status now job_id db).1
            ≡ some (record j { status = status; updated_at = now }))
  unfolding move
  move-runs found h = (
    rw (found, move) (rw h),
    rw (found, move)
        (rw h (
          find-update (λ x. x.id == job_id) (λ x. x.id == job_id)
            (λ x. record x { status = status; updated_at = now }) db.jobs j (λ x. refl)
            (find_sound (λ x. x.id == job_id) db.jobs j found) found)),
  )

-- A job that has been paused is resumed at the next call, and is active then; it is not paused a
-- second time before that.
pub resume-pause :
    (now later job_id : ℕ) (j : Job) (db : Db)
    → get_job job_id db ≡ some j
    → (pause_job now job_id db).0 ≡ true
    → ((resume_job later job_id (pause_job now job_id db).1).0 ≡ true)
      × (get_job job_id (resume_job later job_id (pause_job now job_id db).1).1
          ≡ some (record j { status = "active"; updated_at = later }))
      × ((pause_job later job_id (pause_job now job_id db).1).0 ≡ false)
unfolding pause_job resume_job
resume-pause now later job_id j db found h =
    let is_active : String → Bool = λ s. str_eq s "active" in
    let is_paused : String → Bool = λ s. str_eq s "paused" in
    let db' = (move is_active "paused" now job_id db).1 in
    let paused = record j { status = "paused"; updated_at = now } in
    let (ran, after) =
      move-runs is_active "paused" now job_id j db found
        (move-allowed is_active "paused" now job_id j db found h) in
    let (ran', after') = move-runs is_paused "active" later job_id paused db' after refl in
    let refused = move-refuses is_active "paused" later job_id paused db' after refl in
    (ran', after', ap (λ r. r.0) refused)

-- The three calls that move a job, with the time and the job of each.
pub data Call : Type 0 where
  pauses resumes terminates : ℕ → ℕ → Call

unfoldable pub served : List Call → Db → Db
unfolding pause_job resume_job terminate_job
served [] db = db
served (pauses now job_id ∷ calls) db = served calls (pause_job now job_id db).1
served (resumes now job_id ∷ calls) db = served calls (resume_job now job_id db).1
served (terminates now job_id ∷ calls) db = served calls (terminate_job now job_id db).1

find-other :
    (p q : Job → Bool) (f : Job → Job) (xs : List Job) (u : Job)
    → ((x : Job) → p (f x) ≡ p x)
    → q u ≡ false
    → find p xs ≡ some u
    → find p (update q f xs) ≡ some u
find-other p q f [] u keeps other h = cc
find-other p q f (x ∷ xs) u keeps other h =
    ground (arith, find-other p q f xs u keeps other, keeps x)

-- A call on any job leaves a row whose status it does not allow as it is.
move-leaves :
    (allowed : String → Bool) (status : String) (now id job_id : ℕ) (j : Job) (db : Db)
    → get_job job_id db ≡ some j
    → allowed j.status ≡ false
    → get_job job_id (move allowed status now id db).1 ≡ some j
unfolding move
move-leaves allowed status now id job_id j db found h = elim (Bool-cases (j.id == id)) [
  | inl same ↦
      let own = (==_iff j.id job_id).0 (find_sound (λ x. x.id == job_id) db.jobs j found) in
      let e : id ≡ job_id = sym ((==_iff j.id id).0 same) ∙ own in
      rw e (rw (move-refuses allowed status now job_id j db found h) found)
  | inr other ↦ elim (Option-cases (get_job id db)) [
    | inl e ↦ rw (e, move) found
    | inr (k, e) ↦ elim (Bool-cases (allowed k.status)) [
      | inr off ↦ rw (e, move) (rw off found)
      | inl on ↦
          rw (e, move)
            (rw on (
              find-other (λ x. x.id == job_id) (λ x. x.id == id)
                (λ x. record x { status = status; updated_at = now }) db.jobs j (λ x. refl) other
                found))
    ]
  ]
]

served-leaves :
    (calls : List Call) (job_id : ℕ) (j : Job) (db : Db)
    → get_job job_id db ≡ some j
    → j.status ≡ "terminated"
    → get_job job_id (served calls db) ≡ some j
unfolding served pause_job resume_job terminate_job
served-leaves [] job_id j db found over = found
served-leaves (pauses now id ∷ calls) job_id j db found over =
    served-leaves calls job_id j (pause_job now id db).1
      (move-leaves (λ s. str_eq s "active") "paused" now id job_id j db found (rw over refl)) over
served-leaves (resumes now id ∷ calls) job_id j db found over =
    served-leaves calls job_id j (resume_job now id db).1
      (move-leaves (λ s. str_eq s "paused") "active" now id job_id j db found (rw over refl)) over
served-leaves (terminates now id ∷ calls) job_id j db found over =
    served-leaves calls job_id j (terminate_job now id db).1
      (move-leaves (λ s. not (str_eq s "terminated")) "terminated" now id job_id j db found
        (rw over refl))
      over

-- A job that has been terminated stays so, with the time of its termination, under any sequence of
-- calls that pause, resume and terminate jobs, this one and others; and after them each of the
-- three calls on it is refused and changes nothing. The update and the execution of a job, which
-- set its status without a test, are not among the calls.
pub terminate_job-IsFinal :
    (now later job_id : ℕ) (j : Job) (calls : List Call) (db : Db)
    → get_job job_id db ≡ some j
    → (terminate_job now job_id db).0 ≡ true
    → let db' = served calls (terminate_job now job_id db).1 in
      (get_job job_id db' ≡ some (record j { status = "terminated"; updated_at = now }))
      × (pause_job later job_id db' ≡ (false, db'))
      × (resume_job later job_id db' ≡ (false, db'))
      × (terminate_job later job_id db' ≡ (false, db'))
unfolding pause_job resume_job terminate_job
terminate_job-IsFinal now later job_id j calls db found h =
    let is_open : String → Bool = λ s. not (str_eq s "terminated") in
    let db' = served calls (move is_open "terminated" now job_id db).1 in
    let ended = record j { status = "terminated"; updated_at = now } in
    let (ran, terminated) =
      move-runs is_open "terminated" now job_id j db found
        (move-allowed is_open "terminated" now job_id j db found h) in
    let after = served-leaves calls job_id ended _ terminated refl in
    (
      after,
      move-refuses (λ s. str_eq s "active") "paused" later job_id ended db' after refl,
      move-refuses (λ s. str_eq s "paused") "active" later job_id ended db' after refl,
      move-refuses is_open "terminated" later job_id ended db' after refl,
    )
