-- ===== src/Prelude/Rows.antt =====
-- Lists as database tables and Python sequences: selection, counting, first match, update in place.
use Prim.Native.Nat.{ℕ, suc, ◌+◌, ◌≤◌}
use mathlib.Core.Logic.{inl, inr}
use mathlib.Core.Path.{◌≡◌, refl, ap}
use mathlib.Core.Bool.{Bool, true, false, ◌&&◌, ◌||◌, not}
use mathlib.Core.Option.{Option, none, some}
use mathlib.Core.List.{List, [], ◌∷◌, ◌++◌, map}
use native.Mathlib.Omega.{arith}
use sentinelgate.Prelude.Tests.{if◌then◌else◌, Bool-cases, leb, ltb}

-- A predicate of every element.
abbrev pub All {ℓ κ} : {A : Type ℓ} → (A → Type κ) → List A → Type κ
All P [] = Unit
All P (x ∷ xs) = P x × All P xs

module _ {ℓ} {A : Type ℓ} where
  abbrev pub length : List A → ℕ
  length [] = 0
  length (x ∷ xs) = suc (length xs)

  -- `[x for x in xs if p(x)]`, and the rows of a `WHERE` clause
  unfoldable pub select : (A → Bool) → List A → List A
  select p [] = []
  select p (x ∷ xs) = if p x then x ∷ select p xs else select p xs

  -- `any(p(x) for x in xs)`
  unfoldable pub any : (A → Bool) → List A → Bool
  any p [] = false
  any p (x ∷ xs) = p x || any p xs

  unfoldable pub all : (A → Bool) → List A → Bool
  all p [] = true
  all p (x ∷ xs) = p x && all p xs

  -- `fetchone` of a `SELECT` with a `WHERE` clause
  unfoldable pub first : (A → Bool) → List A → Option A
  first p [] = none
  first p (x ∷ xs) = if p x then some x else first p xs

  -- `UPDATE ... SET ... WHERE ...`
  unfoldable pub update : (A → Bool) → (A → A) → List A → List A
  update p f [] = []
  update p f (x ∷ xs) = (if p x then f x else x) ∷ update p f xs

  -- the number of rows that a `WHERE` clause selects
  unfoldable pub count : (A → Bool) → List A → ℕ
  count p [] = 0
  count p (x ∷ xs) = if p x then suc (count p xs) else count p xs

  -- `[y for x in xs for y in f(x)]`
  unfoldable pub gather {κ} : {B : Type κ} → (A → List B) → List A → List B
  gather f [] = []
  gather f (x ∷ xs) = f x ++ gather f xs

  -- `ORDER BY key DESC LIMIT 1`; of two rows with one key, an earlier and a later one, the earlier
  -- stays if it is preferred.
  unfoldable pub newest : (A → ℕ) → (A → A → Bool) → List A → Option A
  newest key prefers [] = none
  newest key prefers (x ∷ xs) = elim (newest key prefers xs) [
    | none ↦ some x
    | some y ↦
        if ltb (key y) (key x) || (leb (key y) (key x) && prefers x y) then some x else some y
  ]

  unfoldable pub is_empty : List A → Bool
  is_empty [] = true
  is_empty (x ∷ xs) = false

module _ {ℓ} {A : Type ℓ} where
  pub length-append : (xs ys : List A) → length (xs ++ ys) ≡ length xs + length ys
  length-append [] ys = omega arith
  length-append (x ∷ xs) ys = omega (arith, length-append xs ys)

  pub select-append :
      (p : A → Bool) (xs ys : List A) → select p (xs ++ ys) ≡ select p xs ++ select p ys
  unfolding select
  select-append p [] ys = refl
  select-append p (x ∷ xs) ys = ground (arith, select-append p xs ys)

  pub count-append : (p : A → Bool) (xs ys : List A) → count p (xs ++ ys) ≡ count p xs + count p ys
  unfolding count
  count-append p [] ys = omega arith
  count-append p (x ∷ xs) ys = ground (arith, count-append p xs ys)

  pub select-All : (p : A → Bool) (xs : List A) → All (λ x. p x ≡ true) (select p xs)
  unfolding select
  select-All p [] = tt
  select-All p (x ∷ xs) = elim (Bool-cases (p x)) [
    | inl e ↦ rw e (e, select-All p xs)
    | inr e ↦ rw e (select-All p xs)
  ]

  pub first-holds : (p : A → Bool) (xs : List A) (a : A) → first p xs ≡ some a → p a ≡ true
  unfolding first
  first-holds p [] a h = ground arith
  first-holds p (x ∷ xs) a h = ground (arith, first-holds p xs a)

  pub any-false : (p : A → Bool) (xs : List A) → any p xs ≡ false → All (λ x. p x ≡ false) xs
  unfolding any
  any-false p [] h = tt
  any-false p (x ∷ xs) h = (ground arith, any-false p xs (ground arith))

  pub any-append : (p : A → Bool) (xs ys : List A) → any p (xs ++ ys) ≡ (any p xs || any p ys)
  unfolding any
  any-append p [] ys = refl
  any-append p (x ∷ xs) ys = ground (arith, any-append p xs ys)

  pub any-append_one :
      (p : A → Bool) (xs : List A) (x : A) → any p (xs ++ x ∷ []) ≡ (any p xs || p x)
  unfolding any
  any-append_one p [] x = ground arith
  any-append_one p (y ∷ ys) x = ground (arith, any-append_one p ys x)

  pub select-keeps {κ} :
      (P : A → Type κ) (p : A → Bool) (xs : List A) → All P xs → All P (select p xs)
  unfolding select
  select-keeps P p [] h = tt
  select-keeps P p (x ∷ xs) h = elim (Bool-cases (p x)) [
    | inl e ↦ rw e (h.0, select-keeps P p xs h.1)
    | inr e ↦ rw e (select-keeps P p xs h.1)
  ]

  -- A query after an update that does not change what it selects by.
  pub first-update-some :
      (p q : A → Bool) (f : A → A) (xs : List A) (row : A)
      → ((x : A) → p (f x) ≡ p x)
      → first p xs ≡ some row
      → first p (update q f xs) ≡ some (if q row then f row else row)
  unfolding first update
  first-update-some p q f [] row keeps h = ground arith
  first-update-some p q f (x ∷ xs) row keeps h =
      ground (arith, keeps x, first-update-some p q f xs row keeps)

  pub first-append_some :
      (p : A → Bool) (xs ys : List A) (row : A)
      → first p xs ≡ some row
      → first p (xs ++ ys) ≡ some row
  unfolding first
  first-append_some p [] ys row h = ground arith
  first-append_some p (x ∷ xs) ys row h = ground (arith, first-append_some p xs ys row)

  pub first-append_none :
      (p : A → Bool) (xs : List A) (y : A)
      → first p xs ≡ none
      → first p (xs ++ y ∷ []) ≡ (if p y then some y else none)
  unfolding first
  first-append_none p [] y h = refl
  first-append_none p (x ∷ xs) y h = ground (arith, first-append_none p xs y)

  pub any-update_keeps :
      (p q : A → Bool) (f : A → A) (xs : List A)
      → ((x : A) → p x ≡ true → q x ≡ true → p (f x) ≡ true)
      → any p xs ≡ true
      → any p (update q f xs) ≡ true
  unfolding any update
  any-update_keeps p q f [] keeps h = h
  any-update_keeps p q f (x ∷ xs) keeps h = ground (arith, keeps x, any-update_keeps p q f xs keeps)

  pub length-update : (p : A → Bool) (f : A → A) (xs : List A) → length (update p f xs) ≡ length xs
  unfolding update
  length-update p f [] = refl
  length-update p f (x ∷ xs) = ap suc (length-update p f xs)

  pub count-le-length : (p : A → Bool) (xs : List A) → count p xs ≤ length xs
  unfolding count
  count-le-length p [] = omega arith
  count-le-length p (x ∷ xs) = ground (arith, count-le-length p xs)

  pub is_empty-select : (p : A → Bool) (xs : List A) → is_empty (select p xs) ≡ not (any p xs)
  unfolding is_empty select any
  is_empty-select p [] = refl
  is_empty-select p (x ∷ xs) = ground (arith, is_empty-select p xs)

  pub eq_nil : (xs : List A) → is_empty xs ≡ true → xs ≡ []
  unfolding is_empty
  eq_nil [] h = refl
  eq_nil (x ∷ xs) h = ground arith

module _ {ℓ κ} {A : Type ℓ} where
  pub All-weaken : {P Q : A → Type κ} (xs : List A) → ((x : A) → P x → Q x) → All P xs → All Q xs
  All-weaken [] f h = tt
  All-weaken (x ∷ xs) f h = (f x h.0, All-weaken xs f h.1)

  pub All-zip :
      {P Q R : A → Type κ} (xs : List A)
      → ((x : A) → P x → Q x → R x)
      → All P xs
      → All Q xs
      → All R xs
  All-zip [] f h k = tt
  All-zip (x ∷ xs) f h k = (f x h.0 k.0, All-zip xs f h.1 k.1)

  pub All-append_left : (P : A → Type κ) (xs ys : List A) → All P (xs ++ ys) → All P xs
  All-append_left P [] ys h = tt
  All-append_left P (x ∷ xs) ys h = (h.0, All-append_left P xs ys h.1)

  pub All-append_right : (P : A → Type κ) (xs ys : List A) → All P (xs ++ ys) → All P ys
  All-append_right P [] ys h = h
  All-append_right P (x ∷ xs) ys h = All-append_right P xs ys h.1

  pub All-append : (P : A → Type κ) (xs ys : List A) → All P xs → All P ys → All P (xs ++ ys)
  All-append P [] ys h k = k
  All-append P (x ∷ xs) ys h k = (h.0, All-append P xs ys h.1 k)

module _ {ℓ κ} {A B : Type ℓ} (P : B → Type κ) where
  pub All-gather : (f : A → List B) (xs : List A) → All P (gather f xs) → All (λ x. All P (f x)) xs
  unfolding gather
  All-gather f [] h = tt
  All-gather f (x ∷ xs) h = (
    All-append_left P (f x) (gather f xs) h,
    All-gather f xs (All-append_right P (f x) (gather f xs) h),
  )

  pub All-map : (f : A → B) (xs : List A) → All P (map f xs) → All (λ x. P (f x)) xs
  All-map f [] h = tt
  All-map f (x ∷ xs) h = (h.0, All-map f xs h.1)
