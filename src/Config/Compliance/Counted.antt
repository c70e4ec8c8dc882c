-- ===== src/Config/Compliance/Counted.antt =====
-- The results of a run.
use net_soc_ops.Prelude.{
  ℕ, suc, ◌+◌, String, ◌≡◌, refl, ap, sym, ◌∙◌, inl, inr, ◌⊎◌, true, Bool-cases, Option, some, List,
  [], ◌∷◌, ◌++◌, map, length, length-append, arith,
}
use net_soc_ops.Prelude.Results.{ok}
use net_soc_ops.Config.Store.{Backup, Policy, ComplianceResult, Db}
use net_soc_ops.Config.Policies.{run_policy_on_content}
use net_soc_ops.Config.Compliance.{
  Target, Resolved, is_empty, resolve_backups_for_run, add_result, run_policies, run_backups,
  run_resolved, run_compliance,
}

-- Each backup with each policy, the backups first.
abbrev pub pairs : List Backup → List Policy → List (Backup × Policy)
pairs [] ps = []
pairs (b ∷ bs) ps = map (λ p. (b, p)) ps ++ pairs bs ps

append_assoc {ℓ} : {A : Type ℓ} (xs ys zs : List A) → (xs ++ ys) ++ zs ≡ xs ++ (ys ++ zs)
append_assoc [] ys zs = refl
append_assoc (x ∷ xs) ys zs = ap (λ l. x ∷ l) (append_assoc xs ys zs)

append_nil {ℓ} : {A : Type ℓ} (xs : List A) → xs ≡ xs ++ []
append_nil [] = refl
append_nil (x ∷ xs) = ap (λ l. x ∷ l) (append_nil xs)

module _ (find_match : String → String → Option (Option String)) (report_id : Option ℕ) where
  -- The row for a backup and a policy: whose they are, and what the check of the content gives.
  abbrev pub row_of : ℕ → Backup × Policy → ComplianceResult
  row_of id (b, p) = record {
    id = id;
    policy_id = p.id;
    backup_id = some b.id;
    device_id = b.device_id;
    report_id = report_id;
    passed = (run_policy_on_content find_match p b.content).0;
    detail = (run_policy_on_content find_match p b.content).1;
  }

  -- The rows for pairs, with keys from one on.
  abbrev pub rows_from : ℕ → List (Backup × Policy) → List ComplianceResult
  rows_from id [] = []
  rows_from id (x ∷ xs) = row_of id x ∷ rows_from (suc id) xs

  rows_from-append :
      (id : ℕ) (xs ys : List (Backup × Policy))
      → rows_from id (xs ++ ys) ≡ rows_from id xs ++ rows_from (id + length xs) ys
  rows_from-append id [] ys = ap (λ i. rows_from i ys) (omega arith)
  rows_from-append id (x ∷ xs) ys =
      ap (λ l. row_of id x ∷ l)
        (rows_from-append (suc id) xs ys
          ∙ ap (λ i. rows_from (suc id) xs ++ rows_from i ys) (omega arith))

  -- A state whose results are those of another and the rows for some pairs.
  abbrev IsAfter : List (Backup × Policy) → Db → Db → Type 0
  IsAfter xs db db' =
      (db'.results ≡ db.results ++ rows_from db.next_result xs)
      × (db'.next_result ≡ db.next_result + length xs)

  IsAfter-then :
      (xs ys : List (Backup × Policy)) (db db' db'' : Db)
      → IsAfter xs db db'
      → IsAfter ys db' db''
      → IsAfter (xs ++ ys) db db''
  IsAfter-then xs ys db db' db'' (e, k) (e', k') = (
    e'
        ∙ (ap (λ l. l ++ rows_from db'.next_result ys) e
            ∙ (ap (λ i. (db.results ++ rows_from db.next_result xs) ++ rows_from i ys) k
                ∙ (append_assoc db.results (rows_from db.next_result xs) _
                    ∙ ap (λ l. db.results ++ l) (sym (rows_from-append db.next_result xs ys))))),
    k' ∙ (ap (λ i. i + length ys) k ∙ omega (arith, length-append xs ys)),
  )

  run_policies-IsAfter :
      (b : Backup) (ps : List Policy) (db : Db)
      → IsAfter (map (λ p. (b, p)) ps) db (run_policies find_match report_id b ps db)
  unfolding run_policies add_result
  run_policies-IsAfter b [] db = (append_nil db.results, omega arith)
  run_policies-IsAfter b (p ∷ ps) db =
      IsAfter-then ((b, p) ∷ []) (map (λ q. (b, q)) ps) db (add_result find_match report_id b p db)
        (run_policies find_match report_id b ps (add_result find_match report_id b p db))
        (refl, omega arith) (run_policies-IsAfter b ps (add_result find_match report_id b p db))

  run_backups-IsAfter :
      (bs : List Backup) (ps : List Policy) (db : Db)
      → IsAfter (pairs bs ps) db (run_backups find_match report_id bs ps db)
  unfolding run_backups
  run_backups-IsAfter [] ps db = (append_nil db.results, omega arith)
  run_backups-IsAfter (b ∷ bs) ps db =
      IsAfter-then (map (λ p. (b, p)) ps) (pairs bs ps) db
        (run_policies find_match report_id b ps db)
        (run_backups find_match report_id bs ps (run_policies find_match report_id b ps db))
        (run_policies-IsAfter b ps db)
        (run_backups-IsAfter bs ps (run_policies find_match report_id b ps db))

no_policies : (ps : List Policy) → is_empty ps ≡ true → ps ≡ []
no_policies [] h = refl
no_policies (p ∷ ps) h = cc

no_pairs : (bs : List Backup) → pairs bs [] ≡ []
no_pairs [] = refl
no_pairs (b ∷ bs) = no_pairs bs

-- A run that succeeds adds one result for each pair of a backup and a policy that are resolved,
-- the backups first, and no other, with consecutive keys. Each has the keys of its policy, backup
-- and report, the key of the backup's device, and what the check of that policy on the content of
-- that backup gives. The number of devices that the run answers is that of the backups, or 0 where
-- there is no policy.
pub run_compliance-pairs :
    (devices_of_type : String → List (Option String × String))
    (find_match : String → String → Option (Option String)) (target : Target) (db db' : Db)
    (device_count : ℕ) (r : Resolved)
    → resolve_backups_for_run devices_of_type target db ≡ ok r
    → run_compliance devices_of_type find_match target db ≡ ok (device_count, db')
    → (db'.results
        ≡ db.results
          ++ rows_from find_match r.report_id db.next_result (pairs r.backups r.policies))
      × ((device_count ≡ length r.backups) ⊎ ((r.policies ≡ []) × (device_count ≡ 0)))
unfolding run_compliance run_resolved
run_compliance-pairs devices_of_type find_match target db db' device_count r resolved h =
    let h1 : run_resolved find_match db r ≡ ok (device_count, db') = rw resolved at h in
    elim (Bool-cases (is_empty r.policies)) [
      | inl e ↦
          let h2 = rw e at h1 in
          let same : db ≡ db' = cc h2 in
          let none_run = no_policies r.policies e in
          (
            rw (← same) (rw none_run (rw (no_pairs r.backups) (append_nil db.results))),
            inr (none_run, cc h2),
          )
      | inr e ↦
          let h2 = rw e at h1 in
          let run : Db = run_backups find_match r.report_id r.backups r.policies db in
          let same : run ≡ db' = cc h2 in
          (
            rw (← same) (run_backups-IsAfter find_match r.report_id r.backups r.policies db).0,
            inl (cc h2),
          )
    ]
