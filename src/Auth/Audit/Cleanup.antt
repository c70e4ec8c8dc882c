-- ===== src/Auth/Audit/Cleanup.antt =====
-- The rows that a clean-up takes away.
use net_soc_ops.Prelude.{
  ℕ, ◌+◌, ◌-◌, ◌*◌, ◌≡◌, refl, inl, inr, Bool, true, not, List, [], ◌∷◌, length, select, All, ltb,
  arith, Bool-cases,
}
use net_soc_ops.Auth.Store.{Db}
use net_soc_ops.Auth.Audit.{cleanup_old_logs}

module _ {ℓ} {A : Type ℓ} where
  length-select :
      (p : A → Bool) (xs : List A)
      → length (select p xs) + length (select (λ x. not (p x)) xs) ≡ length xs
  length-select p [] = refl
  length-select p (x ∷ xs) = ground (arith, length-select p xs)

  select-All : (p : A → Bool) (xs : List A) → All (λ x. p x ≡ true) (select p xs)
  select-All p [] = tt
  select-All p (x ∷ xs) =
      let rest = select-All p xs in
      elim (Bool-cases (p x)) [ inl e ↦ rw e (e, rest) | inr e ↦ rw e rest ]

-- A clean-up reports as many rows as it takes away, and leaves none that is older than the months
-- asked for, of thirty days each.
pub cleanup_old_logs_lem :
    (now months : ℕ) (db : Db)
    → let r = cleanup_old_logs now months db in
      (r.0 + length r.1.audit_logs ≡ length db.audit_logs)
      × All (λ l. not (ltb l.timestamp (now - months * 30 * 86400)) ≡ true) r.1.audit_logs
unfolding cleanup_old_logs
cleanup_old_logs_lem now months db = (
  length-select (λ l. ltb l.timestamp (now - months * 30 * 86400)) db.audit_logs,
  select-All (λ l. not (ltb l.timestamp (now - months * 30 * 86400))) db.audit_logs,
)
