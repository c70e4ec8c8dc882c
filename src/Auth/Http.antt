-- ===== src/Auth/Http.antt =====
-- What a request handler does: a reply or an exception, and in both cases what it has committed.
use net_soc_ops.Prelude.{ℕ, String}
use net_soc_ops.Prelude.Results.{Result, ok, err}
use net_soc_ops.Auth.Store.{Db}

-- An exception: `HTTPException` with its status and detail, or one of Python's own, which the
-- framework answers with status 500.
pub data Failure : Type 0 where
  http_exception : ℕ → String → Failure
  attribute_error type_error integrity_error pending_rollback_error : Failure

abbrev pub Handler {ℓ} : Type ℓ → Type ℓ
Handler A = Db → Result Failure A × Db

abbrev pub reply {ℓ} : {A : Type ℓ} → A → Handler A
reply a db = (ok a, db)

abbrev pub raise {ℓ} : {A : Type ℓ} → Failure → Handler A
raise e db = (err e, db)
