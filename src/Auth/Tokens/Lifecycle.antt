-- ===== src/Auth/Tokens/Lifecycle.antt =====
-- When a refresh token is good.
use mathlib.Core.Option
use net_soc_ops.Prelude.{
  find-append_none, ℕ, ◌+◌, String, ◌≡◌, refl, inl, inr, false, none, some, List, [], ◌∷◌, update,
  modify_first, str_eq, ltb, ◌==◌, eq_refl, Bool-cases, Option-cases, if◌then◌else◌,
}
use net_soc_ops.Auth.Store.{RefreshToken, Db}
use net_soc_ops.Auth.Tokens.{
  get_user_by_id, find_token, create_refresh_token, verify_refresh_token, revoke_refresh_token,
  revoke_all_user_refresh_tokens, revoked,
}

-- A fresh token gives its user for a day, and nobody from then on.
pub verify-create :
    (now later : ℕ) (token : String) (user_id : ℕ) (db : Db)
    → find_token token db.refresh_tokens ≡ none
    → verify_refresh_token later token (create_refresh_token now token user_id db)
      ≡ (if ltb (now + 86400) later then none else get_user_by_id db user_id)
unfolding verify_refresh_token create_refresh_token
verify-create now later token user_id db fresh =
    let row : RefreshToken = record {
      user_id = user_id;
      token = token;
      expires_at = now + 86400;
      is_revoked = false;
    } in
    rw (
      find-append_none (λ r. str_eq r.token token) db.refresh_tokens row fresh (eq_refl token),
      verify_refresh_token,
    )

find_token-revoked :
    (token : String) (rows : List RefreshToken) (r : RefreshToken)
    → find_token token rows ≡ some r
    → find_token token (modify_first (λ q. str_eq q.token token) revoked rows) ≡ some (revoked r)
find_token-revoked token [] r h = cc
find_token-revoked token (q ∷ rows) r h = elim (Bool-cases (str_eq q.token token)) [
  | inl e ↦ rw e (rw e (ap_revoked (rw e at h)))
  | inr e ↦ rw e (rw e (find_token-revoked token rows r (rw e at h)))
]
  where
    ap_revoked : some q ≡ some r → some (revoked q) ≡ some (revoked r)
    ap_revoked h' = cc

-- Whatever the token and the time, a token that has been revoked gives nobody.
pub verify-revoke :
    (now : ℕ) (token : String) (db : Db)
    → verify_refresh_token now token (revoke_refresh_token token db).1 ≡ none
unfolding verify_refresh_token revoke_refresh_token
verify-revoke now token db = elim (Option-cases (find_token token db.refresh_tokens)) [
  | inl e ↦ rw (e, revoke_refresh_token) (rw (e, verify_refresh_token))
  | inr (r, e) ↦
      rw (e, revoke_refresh_token)
        (rw (find_token-revoked token db.refresh_tokens r e, verify_refresh_token))
]

find_token-update :
    (token : String) (user_id : ℕ) (rows : List RefreshToken)
    → find_token token (update (λ r. r.user_id == user_id) revoked rows)
      ≡ Option.map (λ r. if r.user_id == user_id then revoked r else r) (find_token token rows)
find_token-update token user_id [] = refl
find_token-update token user_id (r ∷ rows) =
    let ih = find_token-update token user_id rows in
    elim (Bool-cases (r.user_id == user_id)) [
      | inl mine ↦
          rw mine
            (elim (Bool-cases (str_eq r.token token)) [ inl e ↦ rw e (rw mine) | inr e ↦ rw e ih ])
      | inr other ↦
          rw other
            (elim (Bool-cases (str_eq r.token token)) [ inl e ↦ rw e (rw other) | inr e ↦ rw e ih ])
    ]

-- Once all tokens of a user are revoked, none of them gives a user, and each token of another user
-- gives what it gave before.
pub verify-revoke_all :
    (now user_id : ℕ) (token : String) (db : Db) (r : RefreshToken)
    → find_token token db.refresh_tokens ≡ some r
    → verify_refresh_token now token (revoke_all_user_refresh_tokens user_id db).1
      ≡ (if r.user_id == user_id then none else verify_refresh_token now token db)
unfolding verify_refresh_token revoke_all_user_refresh_tokens
verify-revoke_all now user_id token db r e =
    let after = find_token-update token user_id db.refresh_tokens in
    rw (after, verify_refresh_token)
      (rw (e, verify_refresh_token)
        (elim (Bool-cases (r.user_id == user_id)) [ inl mine ↦ rw mine | inr other ↦ rw other ]))
