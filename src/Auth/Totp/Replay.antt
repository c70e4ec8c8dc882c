-- ===== src/Auth/Totp/Replay.antt =====
-- A code is good once.
use net_soc_ops.Prelude.{
  AreDistinct, All, sym, Bool, ◌≤◌, ◌&&◌, not, any, select, leb, ltb, ◌==◌, ℕ, ◌+◌, String, ◌≡◌,
  refl, inl, inr, true, false, some, List, [], ◌∷◌, ◌++◌, elem, str_eq, eq_iff, arith, Bool-cases,
  Option-cases,
}
use net_soc_ops.Auth.Store.{User, UsedTotp, Db, Crypto}
use net_soc_ops.Auth.Totp.{
  seven_days, cleanup_expired_records, is_used, record_totp, verify_totp, remove,
  verify_backup_code,
}

-- What happens between two checks: a clean-up at a time, or a check of any user's code.
pub data Event : Type 0 where
  cleaned : ℕ → Event
  verified : ℕ → User → String → Event

unfoldable pub after : Crypto → List Event → Db → Db
unfolding verify_totp cleanup_expired_records
after c [] db = db
after c (cleaned now ∷ events) db = after c events (cleanup_expired_records now db)
after c (verified now user code ∷ events) db = after c events (verify_totp c now user code db).1

-- No clean-up is later than a time.
abbrev IsUntil : ℕ → Event → Type 0
IsUntil limit (cleaned now) = now ≤ limit
IsUntil limit (verified now user code) = Unit

abbrev pub AreUntil : ℕ → List Event → Type 0
AreUntil limit = All (IsUntil limit)

-- A row of the code that does not end before a time.
abbrev is_kept : ℕ → ℕ → String → List UsedTotp → Bool
is_kept limit user_id code rows =
    any (λ r. r.user_id == user_id && str_eq r.totp_code code && leb limit r.expires_at) rows

is_used-is_kept :
    (limit user_id : ℕ) (code : String) (rows : List UsedTotp)
    → is_kept limit user_id code rows ≡ true
    → is_used user_id code rows ≡ true
is_used-is_kept limit user_id code [] h = cc
is_used-is_kept limit user_id code (r ∷ rows) h =
    ground (arith, is_used-is_kept limit user_id code rows)

is_kept-more :
    (limit user_id : ℕ) (code : String) (rows : List UsedTotp) (r : UsedTotp)
    → is_kept limit user_id code rows ≡ true
    → is_kept limit user_id code (rows ++ r ∷ []) ≡ true
is_kept-more limit user_id code [] r h = cc
is_kept-more limit user_id code (x ∷ rows) r h =
    ground (arith, is_kept-more limit user_id code rows r)

is_kept-last :
    (limit user_id : ℕ) (code : String) (rows : List UsedTotp) (r : UsedTotp)
    → r.user_id ≡ user_id
    → r.totp_code ≡ code
    → r.expires_at ≡ limit
    → is_kept limit user_id code (rows ++ r ∷ []) ≡ true
is_kept-last limit user_id code [] r h k e = ground (arith, eq_iff r.totp_code code)
is_kept-last limit user_id code (x ∷ rows) r h k e =
    ground (arith, is_kept-last limit user_id code rows r h k e)

is_kept-cleaned :
    (limit now user_id : ℕ) (code : String) (rows : List UsedTotp)
    → now ≤ limit
    → is_kept limit user_id code rows ≡ true
    → is_kept limit user_id code (select (λ r. not (ltb r.expires_at now)) rows) ≡ true
is_kept-cleaned limit now user_id code [] le h = cc
is_kept-cleaned limit now user_id code (r ∷ rows) le h =
    ground (arith, is_kept-cleaned limit now user_id code rows le)

is_kept-verified :
    (c : Crypto) (now limit user_id : ℕ) (user : User) (code used : String) (db : Db)
    → is_kept limit user_id used db.used_totp ≡ true
    → is_kept limit user_id used (verify_totp c now user code db).1.used_totp ≡ true
unfolding verify_totp record_totp
is_kept-verified c now limit user_id user code used db h = elim (Option-cases user.totp_secret) [
  | inl e ↦ rw (e, verify_totp) h
  | inr (secret, e) ↦
      rw (e, verify_totp)
        (elim (Bool-cases (str_eq secret "")) [
          | inl e1 ↦ rw e1 h
          | inr e1 ↦ rw e1 (elim (Bool-cases (is_used user.id code db.used_totp)) [
            | inl e2 ↦ rw e2 h
            | inr e2 ↦ rw e2 (elim (Bool-cases (c.totp_valid secret code now)) [
              | inl e3 ↦ rw e3 (is_kept-more limit user_id used db.used_totp _ h)
              | inr e3 ↦ rw e3 h
            ])
          ])
        ])
]

is_kept-after :
    (c : Crypto) (limit user_id : ℕ) (used : String) (events : List Event) (db : Db)
    → AreUntil limit events
    → is_kept limit user_id used db.used_totp ≡ true
    → is_kept limit user_id used (after c events db).used_totp ≡ true
unfolding after cleanup_expired_records
is_kept-after c limit user_id used [] db early h = h
is_kept-after c limit user_id used (cleaned now ∷ events) db (le, early) h =
    is_kept-after c limit user_id used events (cleanup_expired_records now db) early
      (is_kept-cleaned limit now user_id used db.used_totp le h)
is_kept-after c limit user_id used (verified now user code ∷ events) db (e, early) h =
    is_kept-after c limit user_id used events (verify_totp c now user code db).1 early
      (is_kept-verified c now limit user_id user code used db h)

used_refused :
    (c : Crypto) (now : ℕ) (user : User) (code : String) (db : Db)
    → is_used user.id code db.used_totp ≡ true
    → (verify_totp c now user code db).0 ≡ false
unfolding verify_totp
used_refused c now user code db h = ground arith

-- A successful check is one of a new code that the library accepts at that time for a secret that
-- the user has, and all it changes is that it adds one row for the user and the code.
pub verify_totp_sound :
    (c : Crypto) (now : ℕ) (user : User) (code : String) (db : Db)
    → (verify_totp c now user code db).0 ≡ true
    → (secret : String) × (user.totp_secret ≡ some secret)
      × (c.totp_valid secret code now ≡ true)
      × (is_used user.id code db.used_totp ≡ false)
      × ((verify_totp c now user code db).1 ≡ record_totp now user.id code db)
unfolding verify_totp
verify_totp_sound c now user code db h = elim (Option-cases user.totp_secret) [
  | inl none_set ↦ absurd (rw (none_set, verify_totp) at h)
  | inr (secret, set) ↦
      let h' = rw (set, verify_totp) at h in
      elim (Bool-cases (str_eq secret "")) [
        | inl e ↦ absurd (rw e at h')
        | inr e1 ↦ elim (Bool-cases (is_used user.id code db.used_totp)) [
          | inl e ↦ absurd (rw (e1, e) at h')
          | inr e2 ↦ elim (Bool-cases (c.totp_valid secret code now)) [
            | inr e ↦ absurd (rw (e1, e2, e) at h')
            | inl e3 ↦ (secret, set, e3, e2, rw (set, verify_totp) (rw (e1, e2, e3)))
          ]
        ]
      ]
]
  where
    absurd : {A : Type 0} → false ≡ true → A
    absurd h = cc

-- A code that a user has used is refused from then on, with any secret, whatever codes the same
-- and other users give and whatever clean-ups run in between, as long as no clean-up runs later than
-- seven days after the use.
pub verify_totp-replay :
    (c : Crypto) (now later : ℕ) (user user' : User) (code : String) (events : List Event) (db : Db)
    → (verify_totp c now user code db).0 ≡ true
    → user'.id ≡ user.id
    → AreUntil (now + seven_days) events
    → (verify_totp c later user' code (after c events (verify_totp c now user code db).1)).0 ≡ false
unfolding record_totp
verify_totp-replay c now later user user' code events db h same early =
    let (secret, set, valid, fresh, recorded) = verify_totp_sound c now user code db h in
    let stored : is_kept (now + seven_days) user'.id code
          (verify_totp c now user code db).1.used_totp
        ≡ true =
      rw recorded
        (is_kept-last (now + seven_days) user'.id code db.used_totp _ (sym same) refl refl) in
    used_refused c later user' code (after c events (verify_totp c now user code db).1) (
      is_used-is_kept (now + seven_days) user'.id code _ (
        is_kept-after c (now + seven_days) user'.id code events (verify_totp c now user code db).1
          early stored))

elem-remove :
    (code : String) (xs : List String) → AreDistinct xs → elem code (remove code xs) ≡ false
elem-remove code [] h = refl
elem-remove code (x ∷ xs) (fresh, h) = elim (Bool-cases (str_eq code x)) [
  | inl e ↦ let same = (eq_iff code x).0 e in rw e (rw same fresh)
  | inr e ↦ rw e (rw e (elem-remove code xs h))
]

-- After a call with a backup code, a second call with it on the codes that are left is refused,
-- where the codes are distinct.
pub verify_backup_code-once :
    (codes : List String) (code : String)
    → AreDistinct codes
    → (verify_backup_code (verify_backup_code codes code).1 code).0 ≡ false
unfolding verify_backup_code
verify_backup_code-once codes code h = ground (arith, elem-remove code codes h)
