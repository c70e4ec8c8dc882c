-- ===== src/Connections/Devices/Retry.antt =====
-- The retries of a connect: how many there are, how long they wait, and what they return.
use native.Mathlib.Nat.{pow-suc}
use net_soc_ops.Prelude.{
  ℕ, zero, suc, ◌+◌, ◌-◌, ◌*◌, ◌^◌, ◌≤◌, String, ◌≡◌, refl, ap, inl, inr, ◌⊎◌, false, Option, none,
  some, List, [], ◌∷◌, ◌==◌, arith,
}
use net_soc_ops.Prelude.Results.{Result, ok, err}
use net_soc_ops.Connections.Devices.{
  Attempt, connected, refused, crashed, Error, refusal, crash, type_error, Tried, retry_from,
  retry_connection,
}

-- `n` waits, of which each is twice the one before.
abbrev pub doublings : ℕ → ℕ → List ℕ
doublings zero delay = []
doublings (suc n) delay = delay ∷ doublings n (delay * 2)

abbrev pub sum : List ℕ → ℕ
sum [] = 0
sum (n ∷ ns) = n + sum ns

power_step : (delay n : ℕ) → delay * 2 * 2 ^ n ≡ delay * 2 ^ suc n
power_step delay n = rw (pow-suc 2 n) (omega arith)

sum-doublings : (n delay : ℕ) → sum (doublings n delay) + delay ≡ delay * 2 ^ n
sum-doublings zero delay = omega arith
sum-doublings (suc n) delay = omega (arith, sum-doublings n (delay * 2), power_step delay n)

-- What the outcome says of the last attempt, and that the loop gives up after the last of them.
abbrev pub Tells : (ℕ → Attempt) → ℕ → ℕ → Result Error ℕ → Type 0
Tells connect limit attempts (ok c) = connect (attempts - 1) ≡ connected c
Tells connect limit attempts (err (refusal e)) =
    (connect (attempts - 1) ≡ refused e) × (attempts ≡ limit)
Tells connect limit attempts (err (crash e)) = connect (attempts - 1) ≡ crashed e
Tells connect limit attempts (err type_error) = ¬ Unit {0}

record IsTried (connect : ℕ → Attempt) (left attempt delay : ℕ) (r : Tried) : Type 0 where
  some_attempt : suc attempt ≤ r.attempts
  few_attempts : r.attempts ≤ attempt + left
  waits : r.waits ≡ doublings (r.attempts - suc attempt) delay
  tells : Tells connect (attempt + left) r.attempts r.outcome

Attempt-cases :
    (a : Attempt)
    → ((c : ℕ) × (a ≡ connected c))
      ⊎ (((e : String) × (a ≡ refused e)) ⊎ ((e : String) × (a ≡ crashed e)))
Attempt-cases (connected c) = inl (c, refl)
Attempt-cases (refused e) = inr (inl (e, refl))
Attempt-cases (crashed e) = inr (inr (e, refl))

no_more : (n : ℕ) → n - n ≡ 0
no_more n = omega arith

last_one : (n : ℕ) → suc n - 1 ≡ n
last_one n = omega arith

at_once :
    (connect : ℕ → Attempt) (left attempt delay : ℕ) (outcome : Result Error ℕ)
    → Tells connect (attempt + suc left) (suc attempt) outcome
    → IsTried connect
        (suc left)
        attempt
        delay
        (record { outcome = outcome; attempts = suc attempt; waits = [] })
at_once connect left attempt delay outcome h = record {
  some_attempt = omega arith;
  few_attempts = omega arith;
  waits = rw (no_more (suc attempt));
  tells = h;
}

longer : (a b : ℕ) → suc (suc a) ≤ b → b - suc a ≡ suc (b - suc (suc a))
longer a b h = omega arith

same_limit : (a left : ℕ) → suc a + suc left ≡ a + suc (suc left)
same_limit a left = omega arith

again :
    (connect : ℕ → Attempt) (left attempt delay : ℕ) (rest : Tried)
    → IsTried connect (suc left) (suc attempt) (delay * 2) rest
    → IsTried connect (suc (suc left)) attempt delay (record rest { waits = delay ∷ rest.waits })
again connect left attempt delay rest h = record {
  some_attempt = let more = h.some_attempt in omega arith;
  few_attempts = let few = h.few_attempts in omega arith;
  waits = rw (longer attempt rest.attempts h.some_attempt) (ap (λ ws. delay ∷ ws) h.waits);
  tells = rw (← same_limit attempt left) h.tells;
}

not_zero : (n : ℕ) → (suc n == 0) ≡ false
not_zero n = ground arith

retry_from-IsTried :
    (connect : ℕ → Attempt) (left attempt delay : ℕ) (last : Option String)
    → IsTried connect (suc left) attempt delay (retry_from connect (suc left) attempt delay last)
unfolding retry_from
retry_from-IsTried connect zero attempt delay last = elim (Attempt-cases (connect attempt)) [
  | inl (c, e) ↦
      rw (e, retry_from) (at_once connect 0 attempt delay (ok c) (rw (last_one attempt) e))
  | inr (inr (x, e)) ↦
      rw (e, retry_from) (at_once connect 0 attempt delay (err (crash x)) (rw (last_one attempt) e))
  | inr (inl (x, e)) ↦
      rw (e, retry_from)
        (at_once connect 0 attempt delay (err (refusal x)) (rw (last_one attempt) e, omega arith))
]
retry_from-IsTried connect (suc left) attempt delay last = elim (Attempt-cases (connect attempt)) [
  | inl (c, e) ↦
      rw (e, retry_from) (at_once connect (suc left) attempt delay (ok c) (rw (last_one attempt) e))
  | inr (inr (x, e)) ↦
      rw (e, retry_from)
        (at_once connect (suc left) attempt delay (err (crash x)) (rw (last_one attempt) e))
  | inr (inl (x, e)) ↦
      rw (e, retry_from)
        (rw (not_zero left) (
          again connect left attempt delay _
            (retry_from-IsTried connect left (suc attempt) (delay * 2) (some x))))
]

zero_add : (n : ℕ) → 0 + n ≡ n
zero_add n = omega arith

total_wait :
    (attempts delay : ℕ) (waits : List ℕ)
    → waits ≡ doublings (attempts - 1) delay
    → sum waits + delay ≡ delay * 2 ^ (attempts - 1)
total_wait attempts delay waits h = rw h (sum-doublings (attempts - 1) delay)

-- With at least one try allowed, the loop makes one at least and no more than are allowed. It waits
-- between two attempts, each time twice as long as before, and so in all the first delay times one
-- less than the power of two of the waits. A connection is that of the last attempt; an exception
-- that is retried is raised only if the last attempt that is allowed has raised it; any other
-- exception is that of the last attempt.
pub retry_connection-bounded :
    (connect : ℕ → Attempt) (max_retries initial_delay : ℕ)
    → 1 ≤ max_retries
    → let r = retry_connection connect max_retries initial_delay in
      (1 ≤ r.attempts)
      × (r.attempts ≤ max_retries)
      × (r.waits ≡ doublings (r.attempts - 1) initial_delay)
      × (sum r.waits + initial_delay ≡ initial_delay * 2 ^ (r.attempts - 1))
      × Tells connect max_retries r.attempts r.outcome
unfolding retry_connection
retry_connection-bounded connect zero initial_delay allowed = absurd (omega (arith, allowed))
retry_connection-bounded connect (suc left) initial_delay allowed =
    let h = retry_from-IsTried connect left 0 initial_delay none in
    (
      h.some_attempt,
      let few = h.few_attempts in omega arith,
      h.waits,
      total_wait _ initial_delay _ h.waits,
      rw (zero_add (suc left)) at h.tells,
    )
