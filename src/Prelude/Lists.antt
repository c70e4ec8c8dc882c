-- ===== src/Prelude/Lists.antt =====
-- Lists under the library's names, measured by native numbers; the tables of a database as lists.
use Prim.Native.Nat.{ℕ, suc, ◌+◌, ◌≤◌}
use Prim.Native.String.{String}
use mathlib.Core.Path.{◌≡◌, refl}
use mathlib.Core.Logic.{inl, inr}
use mathlib.Core.Bool.{Bool, true, false, ◌||◌}
use mathlib.Core.Option.{Option, none, some}
use mathlib.Core.List.{List, [], ◌∷◌, ◌++◌}
use native.Mathlib.Omega.{arith}
use text.Mathlib.TextPositions.{eq_refl}
use net_soc_ops.Prelude.Tests.{if◌then◌else◌, str_eq, Bool-cases}

module _ {ℓ} {A : Type ℓ} where
  abbrev pub length : List A → ℕ
  length [] = 0
  length (x ∷ xs) = suc (length xs)

  pub length-append : (xs ys : List A) → length (xs ++ ys) ≡ length xs + length ys
  length-append [] ys = omega arith
  length-append (x ∷ xs) ys = omega (arith, length-append xs ys)

  -- `query.filter(p).first()`: the first row in storage order.
  abbrev pub find : (A → Bool) → List A → Option A
  find p [] = none
  find p (x ∷ xs) = let rest = find p xs in if p x then some x else rest

  -- `query.filter(p).all()`.
  abbrev pub select : (A → Bool) → List A → List A
  select p [] = []
  select p (x ∷ xs) = let rest = select p xs in if p x then x ∷ rest else rest

  -- An assignment to the fields of the rows that `p` picks.
  abbrev pub update : (A → Bool) → (A → A) → List A → List A
  update p f [] = []
  update p f (x ∷ xs) = (if p x then f x else x) ∷ update p f xs

  -- An assignment to the fields of the row that `find p` returns.
  abbrev pub modify_first : (A → Bool) → (A → A) → List A → List A
  modify_first p f [] = []
  modify_first p f (x ∷ xs) = if p x then f x ∷ xs else x ∷ modify_first p f xs

  -- `any` of a generator expression.
  abbrev pub any : (A → Bool) → List A → Bool
  any p [] = false
  any p (x ∷ xs) = p x || any p xs

  pub find-append_none :
      (p : A → Bool) (xs : List A) (y : A)
      → find p xs ≡ none
      → p y ≡ true
      → find p (xs ++ y ∷ []) ≡ some y
  find-append_none p [] y h e = ground arith
  find-append_none p (x ∷ xs) y h e = ground (arith, find-append_none p xs y)

  -- No row that `q` covers is found where `p` is only true of such.
  pub find-any-none :
      (p q : A → Bool) (xs : List A)
      → ((x : A) → q x ≡ false → p x ≡ false)
      → any q xs ≡ false
      → find p xs ≡ none
  find-any-none p q [] narrow h = refl
  find-any-none p q (x ∷ xs) narrow h = ground (arith, find-any-none p q xs narrow, narrow x)

  -- An assignment that keeps what the query looks at changes the row that the query finds.
  pub find-update :
      (p q : A → Bool) (f : A → A) (xs : List A) (u : A)
      → ((x : A) → p (f x) ≡ p x)
      → q u ≡ true
      → find p xs ≡ some u
      → find p (update q f xs) ≡ some (f u)
  find-update p q f [] u keeps picked h = cc
  find-update p q f (x ∷ xs) u keeps picked h =
      ground (arith, find-update p q f xs u keeps picked, keeps x)

  -- The row that a wider query finds is what a narrower one finds, if it covers it.
  pub find-narrow :
      (p q : A → Bool) (xs : List A) (u : A)
      → ((x : A) → p x ≡ false → q x ≡ false)
      → q u ≡ true
      → find p xs ≡ some u
      → find q xs ≡ some u
  find-narrow p q [] u narrow covers h = cc
  find-narrow p q (x ∷ xs) u narrow covers h =
      ground (arith, find-narrow p q xs u narrow covers, narrow x)

  -- An assignment that takes all rows out of a query leaves it empty.
  pub find-update-none :
      (p : A → Bool) (f : A → A) (xs : List A)
      → ((x : A) → p (f x) ≡ false)
      → find p (update p f xs) ≡ none
  find-update-none p f [] out = refl
  find-update-none p f (x ∷ xs) out = ground (arith, find-update-none p f xs out, out x)

  pub find_sound : (p : A → Bool) (xs : List A) (u : A) → find p xs ≡ some u → p u ≡ true
  find_sound p [] u h = cc
  find_sound p (x ∷ xs) u h = elim (Bool-cases (p x)) [
    | inl e ↦ same (rw e at h) e
    | inr e ↦ find_sound p xs u (rw e at h)
  ]
    where
      same : some x ≡ some u → p x ≡ true → p u ≡ true
      same k e = cc

  pub length-select-append :
      (p : A → Bool) (xs : List A) (y : A)
      → p y ≡ true
      → length (select p (xs ++ y ∷ [])) ≡ suc (length (select p xs))
  length-select-append p [] y h = ground arith
  length-select-append p (x ∷ xs) y h = ground (arith, length-select-append p xs y h)

  pub find-select :
      (p : A → Bool) (xs : List A) (u : A) → find p xs ≡ some u → 1 ≤ length (select p xs)
  find-select p [] u h = cc
  find-select p (x ∷ xs) u h = ground (arith, find-select p xs u)

  pub find-none-select : (p : A → Bool) (xs : List A) → find p xs ≡ none → length (select p xs) ≡ 0
  find-none-select p [] h = refl
  find-none-select p (x ∷ xs) h = ground (arith, find-none-select p xs)

  pub length-select-update :
      (p q : A → Bool) (f : A → A) (xs : List A)
      → ((x : A) → p (f x) ≡ p x)
      → length (select p (update q f xs)) ≡ length (select p xs)
  length-select-update p q f [] keeps = refl
  length-select-update p q f (x ∷ xs) keeps =
      ground (arith, length-select-update p q f xs keeps, keeps x)

module _ {ℓ κ} {A : Type ℓ} (P : A → Type κ) where
  abbrev pub All : List A → Type κ
  All [] = Unit
  All (x ∷ xs) = P x × All xs

  pub All-append : (xs ys : List A) → All xs → All ys → All (xs ++ ys)
  All-append [] ys hx hy = hy
  All-append (x ∷ xs) ys (h, hx) hy = (h, All-append xs ys hx hy)

  pub All-modify_first :
      (p : A → Bool) (f : A → A) (xs : List A)
      → ((x : A) → p x ≡ true → P x → P (f x))
      → All xs
      → All (modify_first p f xs)
  All-modify_first p f [] keep h = tt
  All-modify_first p f (x ∷ xs) keep (px, h) = elim (Bool-cases (p x)) [
    | inl e ↦ rw e (keep x e px, h)
    | inr e ↦ rw e (px, All-modify_first p f xs keep h)
  ]

  pub All-select : (p : A → Bool) (xs : List A) → All xs → All (select p xs)
  All-select p [] h = tt
  All-select p (x ∷ xs) (k, h) = elim (Bool-cases (p x)) [
    | inl e ↦ rw e (k, All-select p xs h)
    | inr e ↦ rw e (All-select p xs h)
  ]

  pub All-update :
      (p : A → Bool) (f : A → A) (xs : List A)
      → ((x : A) → P x → P (f x))
      → All xs
      → All (update p f xs)
  All-update p f [] keep h = tt
  All-update p f (x ∷ xs) keep (k, h) = elim (Bool-cases (p x)) [
    | inl e ↦ rw e (keep x k, All-update p f xs keep h)
    | inr e ↦ rw e (k, All-update p f xs keep h)
  ]

-- `s in list` for texts.
abbrev pub elem : String → List String → Bool
elem s xs = any (str_eq s) xs

-- The texts of which each stands once.
abbrev pub AreDistinct : List String → Type 0
AreDistinct [] = Unit
AreDistinct (x ∷ xs) = (elem x xs ≡ false) × AreDistinct xs

pub elem-append : (s : String) (xs ys : List String) → elem s (xs ++ ys) ≡ elem s xs || elem s ys
elem-append s [] ys = refl
elem-append s (x ∷ xs) ys = ground (arith, elem-append s xs ys)

pub AreDistinct-append :
    (xs ys : List String)
    → AreDistinct xs
    → AreDistinct ys
    → ((s : String) → elem s xs ≡ true → elem s ys ≡ false)
    → AreDistinct (xs ++ ys)
AreDistinct-append [] ys hx hy apart = hy
AreDistinct-append (x ∷ xs) ys (fresh, hx) hy apart = (
  rw (elem-append x xs ys) (rw fresh (apart x (rw (eq_refl x)))),
  AreDistinct-append xs ys hx hy (λ s h. apart s (ground arith)),
)
