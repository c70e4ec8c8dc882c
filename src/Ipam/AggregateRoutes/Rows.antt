-- ===== src/Ipam/AggregateRoutes/Rows.antt =====
-- Tables of aggregates with distinct keys and pairwise disjoint networks, when a row is added,
-- changed or removed.
use net_soc_ops.Prelude.{
  ℕ, suc, ◌<◌, String, ◌≡◌, inl, inr, Bool, true, false, some, List, [], ◌∷◌, ◌++◌, All, All-append,
  All-select, Bool-cases, select, modify_first, ==_iff, ◌==◌, arith,
}
use net_soc_ops.Ipam.Store.{NetText, Aggregate}
use net_soc_ops.Ipam.Validators.{is_excluded}
use net_soc_ops.Ipam.Validators.Overlap.{Disjoint, Disjoint-symm, AreDisjoint, prefixes_of}

-- The keys are below the next one, and no two rows have the same.
abbrev pub AreKeyed : ℕ → List Aggregate → Type 0
AreKeyed next [] = Unit
AreKeyed next (a ∷ as') = (a.id < next) × All (λ b. (b.id == a.id) ≡ false) as' × AreKeyed next as'

pub AreKeyed-append :
    (next : ℕ) (a : Aggregate) (as' : List Aggregate)
    → a.id ≡ next
    → AreKeyed next as'
    → AreKeyed (suc next) (as' ++ a ∷ [])
AreKeyed-append next a [] e h = (ground arith, tt, tt)
AreKeyed-append next a (b ∷ bs) e (lt, fresh, h) = (
  ground arith,
  All-append _ bs (a ∷ []) fresh (ground (arith, ==_iff a.id b.id), tt),
  AreKeyed-append next a bs e h,
)

module _ (p : Aggregate → Bool) (f : Aggregate → Aggregate) where
  All-id-modify :
      (id : ℕ) (as' : List Aggregate)
      → ((a : Aggregate) → (f a).id ≡ a.id)
      → All (λ b. (b.id == id) ≡ false) as'
      → All (λ b. (b.id == id) ≡ false) (modify_first p f as')
  All-id-modify id [] same h = tt
  All-id-modify id (a ∷ as') same (k, h) = elim (Bool-cases (p a)) [
    | inl e ↦ rw e (rw (same a) k, h)
    | inr e ↦ rw e (k, All-id-modify id as' same h)
  ]

  pub AreKeyed-modify :
      (next : ℕ) (as' : List Aggregate)
      → ((a : Aggregate) → (f a).id ≡ a.id)
      → AreKeyed next as'
      → AreKeyed next (modify_first p f as')
  AreKeyed-modify next [] same h = tt
  AreKeyed-modify next (a ∷ as') same (lt, fresh, h) = elim (Bool-cases (p a)) [
    | inl e ↦ rw e (rw (same a) (lt, fresh, h))
    | inr e ↦ rw e (lt, All-id-modify a.id as' same fresh, AreKeyed-modify next as' same h)
  ]

pub AreKeyed-select :
    (p : Aggregate → Bool) (next : ℕ) (as' : List Aggregate)
    → AreKeyed next as'
    → AreKeyed next (select p as')
AreKeyed-select p next [] h = tt
AreKeyed-select p next (a ∷ as') (lt, fresh, h) = elim (Bool-cases (p a)) [
  | inl e ↦ rw e (lt, All-select _ p as' fresh, AreKeyed-select p next as' h)
  | inr e ↦ rw e (AreKeyed-select p next as' h)
]

module _ (t : NetText) where
  All-prefixes-modify :
      (P : String → Type 0) (p : Aggregate → Bool) (f : Aggregate → Aggregate)
      (as' : List Aggregate)
      → ((a : Aggregate) → P (f a).prefix)
      → All P (prefixes_of as')
      → All P (prefixes_of (modify_first p f as'))
  All-prefixes-modify P p f [] new h = tt
  All-prefixes-modify P p f (a ∷ as') new (k, h) = elim (Bool-cases (p a)) [
    | inl e ↦ rw e (new a, h)
    | inr e ↦ rw e (k, All-prefixes-modify P p f as' new h)
  ]

  All-prefixes-select :
      (P : String → Type 0) (p : Aggregate → Bool) (as' : List Aggregate)
      → All P (prefixes_of as')
      → All P (prefixes_of (select p as'))
  All-prefixes-select P p [] h = tt
  All-prefixes-select P p (a ∷ as') (k, h) = elim (Bool-cases (p a)) [
    | inl e ↦ rw e (k, All-prefixes-select P p as' h)
    | inr e ↦ rw e (All-prefixes-select P p as' h)
  ]

  pub AreDisjoint-select :
      (p : Aggregate → Bool) (as' : List Aggregate)
      → AreDisjoint t (prefixes_of as')
      → AreDisjoint t (prefixes_of (select p as'))
  AreDisjoint-select p [] h = tt
  AreDisjoint-select p (a ∷ as') (k, h) = elim (Bool-cases (p a)) [
    | inl e ↦ rw e (All-prefixes-select _ p as' k, AreDisjoint-select p as' h)
    | inr e ↦ rw e (AreDisjoint-select p as' h)
  ]

  -- The rows other than that of the key are disjoint from the text.
  abbrev pub AreApart : ℕ → String → List Aggregate → Type 0
  AreApart id new = All (λ b. is_excluded (some id) b.id ≡ false → Disjoint t new b.prefix)

  excluded-flip : (id k : ℕ) → (k == id) ≡ false → is_excluded (some id) k ≡ false
  excluded-flip id k h = ground (arith, ==_iff k id, ==_iff id k)

  all_apart :
      (id key : ℕ) (new : String) (bs : List Aggregate)
      → (key == id) ≡ true
      → All (λ b. (b.id == key) ≡ false) bs
      → AreApart id new bs
      → All (Disjoint t new) (prefixes_of bs)
  all_apart id key new [] e fresh h = tt
  all_apart id key new (b ∷ bs) e (k, fresh) (d, h) = (
    d (excluded-flip id b.id (ground (arith, ==_iff key id, ==_iff b.id id, ==_iff b.id key))),
    all_apart id key new bs e fresh h,
  )

  -- A new text for the row of a key, disjoint from the other rows.
  pub AreDisjoint-modify :
      (id next : ℕ) (new : String) (f : Aggregate → Aggregate) (as' : List Aggregate)
      → ((a : Aggregate) → (f a).prefix ≡ new)
      → AreKeyed next as'
      → AreApart id new as'
      → AreDisjoint t (prefixes_of as')
      → AreDisjoint t (prefixes_of (modify_first (λ a. a.id == id) f as'))
  AreDisjoint-modify id next new f [] same keys apart h = tt
  AreDisjoint-modify id next new f (a ∷ as') same (lt, fresh, keys) (d, apart) (k, h) =
      elim (Bool-cases (a.id == id)) [
        | inl e ↦ rw e (rw (same a) (all_apart id a.id new as' e fresh apart, h))
        | inr e ↦ rw e (
          All-prefixes-modify (Disjoint t a.prefix) (λ a. a.id == id) f as'
              (λ b. rw (same b) (Disjoint-symm t new a.prefix (d (excluded-flip id a.id e)))) k,
          AreDisjoint-modify id next new f as' same keys apart h,
        )
      ]
