-- ===== src/Prelude/Text.antt =====
-- Python strings: equality, order by code points, and `sorted(set(...))`.
use Prim.Native.Nat.{Ordering}
use Prim.Native.String.{String, compare}
use text.Mathlib.Text.{◌==◌}
use text.Mathlib.TextEquality.{eq_iff, path_by_compare}
use mathlib.Core.Path.{◌≡◌, refl}
use mathlib.Core.Bool.{Bool, true, false, ◌||◌, ◌&&◌, not}
use mathlib.Core.Option.{Option, none, some}
use sentinelgate.Prelude.Tests.{if◌then◌else◌}
use mathlib.Core.List.{List, [], ◌∷◌, ◌++◌}
use native.Mathlib.Omega.{arith}
use sentinelgate.Prelude.Rows.{select, is_empty}

-- `s + t`, and the pieces of an f-string
abbrev pub cat : String → String → String
cat s t = Prim.Native.String.◌++◌ s t

-- `s in xs`
unfoldable pub contains : String → List String → Bool
contains s [] = false
contains s (x ∷ xs) = (x == s) || contains s xs

insert_sorted : String → List String → List String
insert_sorted x [] = x ∷ []
insert_sorted x (y ∷ ys) = elim (compare x y) [
  | Ordering.lt ↦ x ∷ y ∷ ys
  | Ordering.eq ↦ y ∷ ys
  | Ordering.gt ↦ y ∷ insert_sorted x ys
]

-- `sorted(set(xs))`
unfoldable pub sorted_set : List String → List String
unfolding insert_sorted
sorted_set [] = []
sorted_set (x ∷ xs) = insert_sorted x (sorted_set xs)

contains-insert_sorted :
    (z x : String) (ys : List String)
    → contains z (insert_sorted x ys) ≡ ((x == z) || contains z ys)
unfolding contains insert_sorted
contains-insert_sorted z x [] = refl
contains-insert_sorted z x (y ∷ ys) =
    ground (arith, path_by_compare x y, contains-insert_sorted z x ys)

-- Sorting and removing duplicates keeps exactly the same elements.
pub contains-sorted_set :
    (z : String) (xs : List String) → contains z (sorted_set xs) ≡ contains z xs
unfolding contains sorted_set
contains-sorted_set z [] = refl
contains-sorted_set z (x ∷ xs) =
    ground (arith, contains-insert_sorted z x (sorted_set xs), contains-sorted_set z xs)

pub contains-append :
    (z : String) (xs ys : List String) → contains z (xs ++ ys) ≡ (contains z xs || contains z ys)
unfolding contains
contains-append z [] ys = refl
contains-append z (x ∷ xs) ys = ground (arith, contains-append z xs ys)

-- Membership after a selection by text.
pub contains-select :
    (z : String) (p : String → Bool) (xs : List String)
    → contains z (select p xs) ≡ (contains z xs && p z)
unfolding contains select
contains-select z p [] = refl
contains-select z p (x ∷ xs) = ground (arith, eq_iff x z, contains-select z p xs)

-- Python's truth of a text that may be `None`
abbrev pub truthy : Option String → Bool
truthy none = false
truthy (some s) = not (s == "")

module _ {ℓ} {V : Type ℓ} where
  -- `d.get(k)` of a dict, an association list in insertion order
  unfoldable pub get_key : String → List (String × V) → Option V
  get_key k [] = none
  get_key k ((j, v) ∷ d) = if j == k then some v else get_key k d

  -- `d[k] = v`
  unfoldable pub set_key : String → V → List (String × V) → List (String × V)
  set_key k v [] = (k, v) ∷ []
  set_key k v ((j, w) ∷ d) = if j == k then (j, v) ∷ d else (j, w) ∷ set_key k v d

  pub get_key-set_key :
      (j k : String) (v : V) (d : List (String × V))
      → get_key j (set_key k v d) ≡ (if k == j then some v else get_key j d)
  unfolding get_key set_key
  get_key-set_key j k v [] = refl
  get_key-set_key j k v ((i, w) ∷ d) =
      ground (arith, eq_iff k j, eq_iff i k, eq_iff i j, get_key-set_key j k v d)

-- A text equal to itself, for `grind` and `simp`.
pub eq_self : (s : String) → (s == s) ≡ true
eq_self s = (eq_iff s s).1 refl

is_empty-insert_sorted : (x : String) (ys : List String) → is_empty (insert_sorted x ys) ≡ false
unfolding is_empty insert_sorted
is_empty-insert_sorted x [] = refl
is_empty-insert_sorted x (y ∷ ys) = ground arith

pub is_empty-sorted_set : (xs : List String) → is_empty (sorted_set xs) ≡ is_empty xs
unfolding is_empty sorted_set
is_empty-sorted_set [] = refl
is_empty-sorted_set (x ∷ xs) = is_empty-insert_sorted x (sorted_set xs)
