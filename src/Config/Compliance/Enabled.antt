-- ===== src/Config/Compliance/Enabled.antt =====
-- Which policies a run takes.
use net_soc_ops.Prelude.{
  ℕ, String, ◌≡◌, refl, inl, inr, ◌⊎◌, Bool, true, false, ◌&&◌, Option, none, some, List, [], ◌∷◌,
  All, select, Bool-cases, Option-cases, leb, arith, if◌then◌else◌,
}
use net_soc_ops.Prelude.Results.{Result-cases, Result, ok, err}
use net_soc_ops.Config.Store.{Backup, Policy, Report, Db, Failure}
use net_soc_ops.Config.Reports.{find_report}
use net_soc_ops.Config.Compliance.{
  Target, Resolved, is_in, linked_ids, own_policies, sort_policies, insert_policy, place, given,
  chosen_report, collect, is_empty, fallback, or_fallback, type_of, resolve_by_type, resolve_by_ids,
  named_backup, resolve_one, resolve_target, resolve_backups_for_run, newest_of_id,
}

-- An enabled policy that the report links.
abbrev pub IsOwn : ℕ → Db → Policy → Type 0
IsOwn report_id db p = (is_in (linked_ids report_id db) p ≡ true) × (p.enabled ≡ true)

All-insert :
    (P : Policy → Type 0) (ids : List ℕ) (p : Policy) (ps : List Policy)
    → P p
    → All P ps
    → All P (insert_policy ids p ps)
All-insert P ids p [] k h = (k, tt)
All-insert P ids p (q ∷ qs) k (kq, h) = elim (Bool-cases (leb (place ids p) (place ids q))) [
  | inl e ↦ rw e (k, (kq, h))
  | inr e ↦ rw e (kq, All-insert P ids p qs k h)
]

All-sort :
    (P : Policy → Type 0) (ids : List ℕ) (ps : List Policy)
    → All P ps
    → All P (sort_policies ids ps)
All-sort P ids [] h = tt
All-sort P ids (p ∷ ps) (k, h) = All-insert P ids p (sort_policies ids ps) k (All-sort P ids ps h)

All-picked : (p : Policy → Bool) (ps : List Policy) → All (λ x. p x ≡ true) (select p ps)
All-picked p [] = tt
All-picked p (x ∷ ps) = elim (Bool-cases (p x)) [
  | inl e ↦ rw e (e, All-picked p ps)
  | inr e ↦ rw e (All-picked p ps)
]

All-IsOwn :
    (report_id : ℕ) (db : Db) (ps : List Policy)
    → All (λ p. is_in (linked_ids report_id db) p && p.enabled ≡ true) ps
    → All (IsOwn report_id db) ps
All-IsOwn report_id db [] h = tt
All-IsOwn report_id db (p ∷ ps) (k, h) = ((ground arith, ground arith), All-IsOwn report_id db ps h)

own_policies-IsOwn :
    (report_id : ℕ) (db : Db) → All (IsOwn report_id db) (own_policies report_id db)
unfolding own_policies
own_policies-IsOwn report_id db = All-sort (IsOwn report_id db) (linked_ids report_id db) _ (
    All-IsOwn report_id db _
      (All-picked (λ p. is_in (linked_ids report_id db) p && p.enabled) db.policies))

-- The request neither goes by the type of the report's devices nor lists devices.
abbrev pub IsSingle : Target → Report → Type 0
IsSingle target report =
    (is_empty target.device_ids ≡ true)
    × ((target.target_by_device_type ≡ false) ⊎ (type_of (some report) ≡ none))

-- The policies of a run under a report: its own, or, where it has none and the request goes by
-- one backup or device alone, the fallback on that backup.
abbrev pub Takes : Report → Db → Target → Resolved → Type 0
Takes report db target r =
    All (IsOwn report.id db) r.policies
    ⊎ ((own_policies report.id db ≡ [])
        × (r.policies ≡ fallback target.policy_ids db)
        × IsSingle target report
        × (b : Backup) × (named_backup target db ≡ ok b)
        × (r.backups ≡ b ∷ []))

-- What a resolution says where it names a report.
abbrev pub Names : Db → Target → Report → Result Failure Resolved → Type 0
Names db target report (err e) = Unit
Names db target report (ok r) = (r.report_id ≡ some report.id) × Takes report db target r

-- A resolution that names a report takes nothing but the report's own policies.
abbrev pub Owns : Db → Report → Result Failure Resolved → Type 0
Owns db report (err e) = Unit
Owns db report (ok r) = (r.report_id ≡ some report.id) × All (IsOwn report.id db) r.policies

Names-Owns :
    (db : Db) (target : Target) (report : Report) (r : Result Failure Resolved)
    → Owns db report r
    → Names db target report r
Names-Owns db target report (err e) h = tt
Names-Owns db target report (ok r) (named, own) = (named, inl own)

pub by_type-Owns :
    (devices_of_type : String → List (Option String × String)) (device_type : String)
    (report : Report) (db : Db)
    → Owns db report (resolve_by_type devices_of_type device_type (some report) db)
unfolding resolve_by_type
by_type-Owns devices_of_type device_type report db =
    elim (Bool-cases (is_empty (own_policies report.id db))) [
      | inl e ↦ rw e tt
      | inr e ↦ rw e (refl, own_policies-IsOwn report.id db)
    ]

pub by_ids-Owns :
    (device_ids : List String) (policy_ids : List ℕ) (report : Report) (db : Db)
    → Owns db report (resolve_by_ids device_ids policy_ids (some report) db)
unfolding resolve_by_ids
by_ids-Owns device_ids policy_ids report db =
    elim (Bool-cases (is_empty (collect (newest_of_id db) device_ids))) [
      | inl e ↦ rw e tt
      | inr e ↦ rw e (elim (Bool-cases (is_empty (own_policies report.id db))) [
        | inl e' ↦ rw e' tt
        | inr e' ↦ rw e' (refl, own_policies-IsOwn report.id db)
      ])
    ]

fallback-cases :
    (report_id : ℕ) (db : Db) (policy_ids : List ℕ) (own : List Policy)
    → own_policies report_id db ≡ own
    → All (IsOwn report_id db) own
    → All (IsOwn report_id db) (or_fallback own policy_ids db)
      ⊎ ((own_policies report_id db ≡ [])
          × (or_fallback own policy_ids db ≡ fallback policy_ids db))
fallback-cases report_id db policy_ids [] e h = inr (e, refl)
fallback-cases report_id db policy_ids (p ∷ ps) e h = inl h

one-Names :
    (target : Target) (report : Report) (db : Db)
    → IsSingle target report
    → Names db target report (resolve_one target (some report) db)
unfolding resolve_one
one-Names target report db single = elim (Result-cases (named_backup target db)) [
  | inl (e, k) ↦ rw (k, resolve_one) tt
  | inr (b, k) ↦
      rw (k, resolve_one)
        (
          refl,
          elim (fallback-cases report.id db target.policy_ids (own_policies report.id db) refl
              (own_policies-IsOwn report.id db)) [
                | inl own ↦ inl own
                | inr (none_own, taken) ↦ inr (none_own, taken, single, b, k, refl)
              ],
        )
]

if-cases :
    (P : Result Failure Resolved → Type 0) (c : Bool) (x y : Result Failure Resolved)
    → (c ≡ true → P x)
    → (c ≡ false → P y)
    → P (if c then x else y)
if-cases P true x y h k = h refl
if-cases P false x y h k = k refl

target-Names :
    (devices_of_type : String → List (Option String × String)) (target : Target) (report : Report)
    (db : Db)
    → Names db target report (resolve_target devices_of_type target (some report) db)
unfolding resolve_target
target-Names devices_of_type target report db =
    if-cases (Names db target report) target.target_by_device_type _ _
      (λ e. elim (Option-cases (type_of (some report))) [
        | inl e' ↦ rw e' (others (inr e'))
        | inr (device_type, e') ↦
            rw e'
              (Names-Owns db target report _ (by_type-Owns devices_of_type device_type report db))
      ])
      (λ e. others (inl e))
  where
    others :
        (target.target_by_device_type ≡ false) ⊎ (type_of (some report) ≡ none)
        → Names db target report (
            if is_empty target.device_ids
            then resolve_one target (some report) db
            else resolve_by_ids target.device_ids target.policy_ids (some report) db)
    others untyped =
        if-cases (Names db target report) (is_empty target.device_ids) _ _
          (λ e. one-Names target report db (e, untyped))
          (λ e.
            Names-Owns db target report _
              (by_ids-Owns target.device_ids target.policy_ids report db))

-- A run that names a report is refused, or the report exists and is enabled and the run is stored
-- under it. Its policies are enabled ones that the report links, with one exception: where the
-- report has none, and the request lists no devices and does not go by a type of device that the
-- report has, the run is on the one backup that the request names, by its key or by its device, and
-- takes the policies of the request, or else all of the table, disabled ones included.
pub resolve_backups_for_run-Names :
    (devices_of_type : String → List (Option String × String)) (target : Target) (db : Db)
    (report_id : ℕ) (r : Resolved)
    → given target.report_id ≡ some report_id
    → resolve_backups_for_run devices_of_type target db ≡ ok r
    → (report : Report) × (find_report report_id db ≡ some report)
      × (report.enabled ≡ true)
      × (r.report_id ≡ some report.id)
      × Takes report db target r
unfolding resolve_backups_for_run chosen_report
resolve_backups_for_run-Names devices_of_type target db report_id r named h =
    let h1 = rw named at h in
    elim (Option-cases (find_report report_id db)) [
      | inl e ↦ cc (rw (e, chosen_report) at h1)
      | inr (report, e) ↦
          let h2 = rw (e, chosen_report) at h1 in
          elim (Bool-cases report.enabled) [
            | inr e' ↦ cc (rw e' at h2)
            | inl e' ↦
                let says = rw (rw e' at h2) at (target-Names devices_of_type target report db) in
                (report, e, e', says.0, says.1)
          ]
    ]
