-- ===== src/Config/Backups/Limit.antt =====
-- The number of backups of a host.
use net_soc_ops.Prelude.{
  ℕ, suc, ◌≤◌, String, ◌≡◌, refl, ap, ◌∙◌, inl, inr, Bool, true, false, not, ◌&&◌, ◌||◌, Option,
  none, some, List, [], ◌∷◌, ◌++◌, strip, select, any, length, Bool-cases, Option-cases, leb,
  leb_iff, ==_iff, str_eq, eq_iff, ◌==◌, arith,
}
use net_soc_ops.Prelude.Results.{ok, ok-inj, >>=-eq-ok}
use net_soc_ops.Config.Store.{Backup, Db}
use net_soc_ops.Config.Backups.{
  BackupCreate, device_key, has_host, is_of_device, oldest, names_backup, remove_backup, make_room,
  new_backup, store_backup, create_backup,
}

-- The number of backups that a condition picks.
abbrev pub count : (Backup → Bool) → List Backup → ℕ
count p bs = length (select p bs)

count-append :
    (p : Backup → Bool) (bs : List Backup) (b : Backup) → count p (bs ++ b ∷ []) ≤ suc (count p bs)
count-append p [] b = ground arith
count-append p (x ∷ bs) b = ground (arith, count-append p bs b)

count-append-other :
    (p : Backup → Bool) (bs : List Backup) (b : Backup)
    → p b ≡ false
    → count p (bs ++ b ∷ []) ≡ count p bs
count-append-other p [] b h = ground arith
count-append-other p (x ∷ bs) b h = ground (arith, count-append-other p bs b)

count-select : (p q : Backup → Bool) (bs : List Backup) → count p (select q bs) ≤ count p bs
count-select p q [] = omega arith
count-select p q (b ∷ bs) = ground (arith, count-select p q bs)

-- The oldest is one of the rows.
oldest-any :
    (p : Backup → Bool) (bs : List Backup) (b : Backup)
    → oldest p bs ≡ some b
    → any (λ y. p y && (y.id == b.id)) bs ≡ true
unfolding oldest
oldest-any p [] b h = cc
oldest-any p (x ∷ bs) b h = elim (Bool-cases (p x)) [
  | inr e ↦ rw e (oldest-any p bs b (rw e at h))
  | inl e ↦ elim (Option-cases (oldest p bs)) [
    | inl alone ↦
        let same : x ≡ b = cc (rw alone at (rw e at h)) in
        rw (← same) (rw e (rw ((==_iff x.id x.id).1 refl)))
    | inr (first, found) ↦
        let h' = rw found at (rw e at h) in
        elim (Bool-cases (leb x.created_at first.created_at)) [
          | inl le ↦
              let same : x ≡ b = cc (rw le at h') in
              rw (← same) (rw e (rw ((==_iff x.id x.id).1 refl)))
          | inr gt ↦
              let same : first ≡ b = cc (rw gt at h') in
              rw e (later x (oldest-any p bs b (found ∙ ap some same)))
        ]
  ]
]
  where
    later : (y : Backup) → {c : Bool} → c ≡ true → ((y.id == b.id) || c) ≡ true
    later y e = ground arith

-- Dropping the key of a row that the condition picks makes the count smaller.
count-drop :
    (p : Backup → Bool) (id : ℕ) (bs : List Backup)
    → any (λ y. p y && (y.id == id)) bs ≡ true
    → suc (count p (select (λ x. not (x.id == id)) bs)) ≤ count p bs
count-drop p id [] h = cc
count-drop p id (b ∷ bs) h =
    ground (arith, count-drop p id bs, count-select p (λ x. not (x.id == id)) bs)

oldest-none : (p : Backup → Bool) (bs : List Backup) → oldest p bs ≡ none → count p bs ≡ 0
unfolding oldest
oldest-none p [] h = refl
oldest-none p (x ∷ bs) h = elim (Bool-cases (p x)) [
  | inr e ↦ rw e (oldest-none p bs (rw e at h))
  | inl e ↦ elim (Option-cases (oldest p bs)) [
    | inl alone ↦ cc (rw alone at (rw e at h))
    | inr (first, found) ↦ cc (rw found at (rw e at h))
  ]
]

removed :
    (id : ℕ) (db db' : Db)
    → remove_backup id db ≡ ok db'
    → select (λ b. not (b.id == id)) db.backups ≡ db'.backups
unfolding remove_backup
removed id db db' h = elim (Bool-cases (any (names_backup id) db.results)) [
  | inl e ↦ cc (rw e at h)
  | inr e ↦ ap (λ d. d.backups) (ok-inj _ db' (rw e at h))
]

make_room-count :
    (p q : Backup → Bool) (db db' : Db)
    → make_room p db ≡ ok db'
    → count q db'.backups ≤ count q db.backups
unfolding make_room
make_room-count p q db db' h = elim (Bool-cases (leb 90 (count p db.backups))) [
  | inr e ↦ let same = ok-inj db db' (rw e at h) in rw (← same) (omega arith)
  | inl e ↦
      let h1 = rw e at h in
      elim (Option-cases (oldest p db.backups)) [
        | inl e' ↦ let same = ok-inj db db' (rw e' at h1) in rw (← same) (omega arith)
        | inr (b, e') ↦
            let rest = removed b.id db db' (rw e' at h1) in
            rw (← rest) (count-select q (λ x. not (x.id == b.id)) db.backups)
      ]
]

make_room-below :
    (p : Backup → Bool) (db db' : Db)
    → make_room p db ≡ ok db'
    → count p db.backups ≤ 90
    → suc (count p db'.backups) ≤ 90
unfolding make_room
make_room-below p db db' h few = elim (Bool-cases (leb 90 (count p db.backups))) [
  | inr e ↦
      let same = ok-inj db db' (rw e at h) in
      rw (← same) (ground (arith, leb_iff 90 (count p db.backups)))
  | inl e ↦
      let h1 = rw e at h in
      elim (Option-cases (oldest p db.backups)) [
        | inl e' ↦
            let zero' = oldest-none p db.backups e' in
            absurd (ground (arith, leb_iff 90 (count p db.backups)))
        | inr (b, e') ↦
            let rest = removed b.id db db' (rw e' at h1) in
            let less = count-drop p b.id db.backups (oldest-any p db.backups b e') in
            rw (← rest) (omega arith)
      ]
]

-- No host has more than ninety backups.
abbrev pub AreFew : Db → Type 0
AreFew db = (host : String) → str_eq host "" ≡ false → count (has_host host) db.backups ≤ 90

-- The host of a body has no space around it.
abbrev pub IsTrimmed : Option String → Type 0
IsTrimmed none = Unit
IsTrimmed (some host) = strip host ≡ host

stored-count :
    (now : ℕ) (body : BackupCreate) (db db' : Db) (given : Option String) (host : String)
    → body.device_host ≡ given
    → IsTrimmed given
    → str_eq host "" ≡ false
    → count (has_host host) db.backups ≤ 90
    → make_room (is_of_device given body.device_id) db ≡ ok db'
    → count (has_host host) (store_backup now body db').backups ≤ 90
unfolding store_backup is_of_device
stored-count now body db db' none host given trimmed full few h =
    let other : has_host host (new_backup now body db') ≡ false = rw given in
    let kept = make_room-count _ (has_host host) db db' h in
    rw (count-append-other (has_host host) db'.backups (new_backup now body db') other)
      (omega arith)
stored-count now body db db' (some x) host given trimmed full few h =
    elim (Bool-cases (str_eq x host)) [
      | inr e ↦
          let other : has_host host (new_backup now body db') ≡ false = rw given e in
          let kept = make_room-count _ (has_host host) db db' h in
          rw (count-append-other (has_host host) db'.backups (new_backup now body db') other)
            (omega arith)
      | inl e ↦
          let same = (eq_iff x host).0 e in
          let room = rw full at (rw same at (rw trimmed at h)) in
          let below = make_room-below (has_host host) db db' room few in
          let more = count-append (has_host host) db'.backups (new_backup now body db') in
          omega arith
    ]

-- If no host has more than ninety backups, none has after the creation of one, where the host in
-- the request has no space around it.
pub create_backup-AreFew :
    (now : ℕ) (body : BackupCreate) (db db' : Db)
    → IsTrimmed body.device_host
    → AreFew db
    → create_backup now body db ≡ ok db'
    → AreFew db'
unfolding create_backup
create_backup-AreFew now body db db' trimmed h e host full =
    elim (Bool-cases (str_eq (device_key body.device_host body.device_id) "")) [
      | inl bad ↦ cc (rw bad at e)
      | inr good ↦
          let (db1, room, e1) =
            >>=-eq-ok (make_room (is_of_device body.device_host body.device_id) db) _
              (rw good at e) in
          let same = ok-inj (store_backup now body db1) db' e1 in
          rw (← same) (
            stored-count now body db db1 body.device_host host refl trimmed full (h host full) room)
    ]
