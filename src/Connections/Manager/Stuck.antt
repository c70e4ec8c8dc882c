-- ===== src/Connections/Manager/Stuck.antt =====
-- The clean-up of a pool under any interleaving.
use mathlib.Core.Path.{subst}
use net_soc_ops.Prelude.{
  ℕ, String, ◌≡◌, refl, ap, inl, inr, ◌⊎◌, true, some, List, [], ◌∷◌, ◌++◌, map, is_some, eq_refl,
  get_or,
}
use net_soc_ops.Connections.Manager.{
  Pool, lookup, Action, call_release, acquire, release, remove, loop, clear, release_connection,
  cleanup_pool, release_all, free, mine, Running, running, act, Step, acts, others_take,
  others_give, Reach, here, next,
}

-- What is next: to start the loop, to call the release of a host, or to wait for the lock in it.
abbrev IsInside : String → List Action → Type 0
IsInside host todo =
    ((rest : List Action) × (todo ≡ loop ∷ rest))
    ⊎ ((rest : List Action) × (todo ≡ call_release host ∷ rest))
    ⊎ ((rest : List Action) × (todo ≡ acquire ∷ rest))

-- The task holds the lock of a pool that has a connection, and is on its way into the first release.
pub IsStuck : Running → Type 0
IsStuck (running todo lock p) =
    (lock ≡ mine)
    × (host : String) × (conn : ℕ) × (more : List (String × ℕ)) × (p.connections
        ≡ (host, conn) ∷ more)
    × IsInside host todo

running-inj : (s t : Running) → some s ≡ some t → s ≡ t
running-inj s t h = ap (λ o. get_or o s) h

act-IsStuck : (s t : Running) → IsStuck s → act s ≡ some t → IsStuck t
unfolding act IsStuck release_all release_connection
act-IsStuck (running todo lock p) t (held, host, conn, more, there, inl (rest, looping)) h =
    let step = running-inj _ t (rw looping at h) in
    let calls : release_all p ++ rest
        ≡ call_release host ∷ (map (λ c. call_release c.0) more ++ rest) =
      ap (λ cs. map (λ c. call_release c.0) cs ++ rest) there in
    subst IsStuck step (held, host, conn, more, there, inr (inl (_, calls)))
act-IsStuck (running todo lock p) t (held, host, conn, more, there, inr (inl (rest, calling))) h =
    let step = running-inj _ t (rw calling at h) in
    let found : is_some (lookup host p.connections) ≡ true = rw there (rw (eq_refl host)) in
    let waits : release_connection host p ++ rest ≡ acquire ∷ remove host ∷ release ∷ rest =
      rw found refl in
    subst IsStuck step (held, host, conn, more, there, inr (inr (_, waits)))
act-IsStuck (running todo lock p) t (held, host, conn, more, there, inr (inr (rest, waiting))) h =
    cc (rw held at (rw waiting at h))

Step-IsStuck : (s t : Running) → IsStuck s → Step s t → IsStuck t
unfolding IsStuck
Step-IsStuck s t h (acts e) = act-IsStuck s t h e
Step-IsStuck s t h (others_take todo p e k) = cc (subst IsStuck e h).0
Step-IsStuck s t h (others_give todo p p' e k) = cc (subst IsStuck e h).0

Reach-IsStuck : {s t : Running} → IsStuck s → Reach s t → IsStuck t
Reach-IsStuck h here = h
Reach-IsStuck h (next {t} {u} reach step) = Step-IsStuck t u (Reach-IsStuck h reach) step

inside_not_over : (host : String) (todo : List Action) → IsInside host todo → ¬ (todo ≡ [])
inside_not_over host todo (inl (rest, e)) k = cc
inside_not_over host todo (inr (inl (rest, e))) k = cc
inside_not_over host todo (inr (inr (rest, e))) k = cc

still_inside :
    (t : Running)
    → IsStuck t
    → (todo : List Action) × (p : Pool) × (t ≡ running todo mine p) × (¬ (todo ≡ []))
unfolding IsStuck
still_inside (running todo lock p) (held, host, conn, more, there, inside) =
    (todo, p, ap (λ l. running todo l p) held, inside_not_over host todo inside)

-- A clean-up that takes the free lock of a pool with a connection never comes to its end, whatever
-- steps the other tasks take: in each state that is reached from then on it still holds the lock,
-- and has actions to do.
pub cleanup_pool-IsStuck :
    (p : Pool) (host : String) (conn : ℕ) (more : List (String × ℕ)) (s t : Running)
    → p.connections ≡ (host, conn) ∷ more
    → act (running cleanup_pool free p) ≡ some s
    → Reach s t
    → (todo : List Action) × (p' : Pool) × (t ≡ running todo mine p') × (¬ (todo ≡ []))
unfolding act cleanup_pool IsStuck
cleanup_pool-IsStuck p host conn more s t there entered reach =
    let start = running-inj _ s entered in
    still_inside t (
      Reach-IsStuck
        (subst IsStuck start (refl, host, conn, more, there, inl (clear ∷ release ∷ [], refl)))
        reach)
