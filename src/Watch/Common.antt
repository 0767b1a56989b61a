-- ===== src/Watch/Common.antt =====
-- watch.py: `_most_common` against the count of each value.
use sentinelgate.Prelude.{
  ℕ, ◌+◌, ◌≤◌, ◌≡◌, refl, sym, ap, ◌∙◌, String, Bool, true, false, Option, none, some, get_or, List,
  [], ◌∷◌, ◌==◌, count, get_key, set_key, get_key-set_key, eq_iff, eq_self, arith, All, All-weaken,
  Bool-cases, inl, inr, ltb, if◌then◌else◌,
}
use sentinelgate.Taint.{max_from}
use sentinelgate.Taint.Join.{rank-max_from, top_rank-bounds}
use sentinelgate.Watch.Patterns.{tally, greatest, most_common}

-- How often a value occurs.
abbrev pub occurrences : String → List String → ℕ
occurrences v values = count (λ x. x == v) values

abbrev counted : String → List (String × ℕ) → ℕ
counted v counts = get_or (get_key v counts) 0

counted-tally :
    (v : String) (values : List String) (counts : List (String × ℕ))
    → counted v (tally values counts) ≡ counted v counts + occurrences v values
unfolding tally count
counted-tally v [] counts = omega arith
counted-tally v (x ∷ values) counts =
    let next = set_key x (counted x counts + 1) counts in
    ground (
      arith,
      counted-tally v values next,
      get_key-set_key v x (counted x counts + 1) counts,
      eq_iff x v,
    )

-- Every key once.
Unique : List (String × ℕ) → Type 0
Unique [] = Unit
Unique ((k, n) ∷ d) = (get_key k d ≡ none) × Unique d

set_key-Unique : (k : String) (n : ℕ) (d : List (String × ℕ)) → Unique d → Unique (set_key k n d)
unfolding Unique set_key get_key
set_key-Unique k n [] h = (refl, tt)
set_key-Unique k n ((j, m) ∷ d) h = elim (Bool-cases (j == k)) [
  | inl e ↦ rw (e, set_key) h
  | inr e ↦
      rw (e, set_key)
        (
          ground (arith, get_key-set_key j k n d, eq_iff j k, eq_iff k j, h.0),
          set_key-Unique k n d h.1,
        )
]

tally-Unique : (values : List String) (d : List (String × ℕ)) → Unique d → Unique (tally values d)
unfolding tally
tally-Unique [] d h = h
tally-Unique (x ∷ values) d h =
    tally-Unique values (set_key x (counted x d + 1) d) (set_key-Unique x (counted x d + 1) d h)

-- In a dict every entry is what its key finds.
Unique-found : (d : List (String × ℕ)) → Unique d → All (λ e. get_key e.0 d ≡ some e.1) d
unfolding Unique get_key
Unique-found [] h = tt
Unique-found ((k, n) ∷ d) h = (
  rw (eq_self k) refl,
  All-weaken d (λ e found. ground (arith, found, h.0, eq_iff k e.0)) (Unique-found d h.1),
)

either : {A : Type 0} (P : A → Type 0) (b : Bool) (x y : A) → P x → P y → P (if b then x else y)
either P true x y h k = h
either P false x y h k = k

max_from-All :
    {A : Type 0} (P : A → Type 0) (rank : A → ℕ) (xs : List A) (best : A)
    → P best
    → All P xs
    → P (max_from rank best xs)
unfolding max_from
max_from-All P rank [] best h hs = h
max_from-All P rank (x ∷ xs) best h hs =
    let larger = ltb (rank best) (rank x) in
    max_from-All P rank xs (if larger then x else best) (either P larger x best hs.0 h) hs.1

counted_le : (v : String) (n : ℕ) (d : List (String × ℕ)) → All (λ e. e.1 ≤ n) d → counted v d ≤ n
unfolding get_key
counted_le v n [] h = omega arith
counted_le v n ((k, m) ∷ d) h = ground (arith, counted_le v n d h.1, h.0)

-- The value occurs so often, and no value occurs more often; without values there is none.
unfoldable pub IsMostCommon : List String → Option (String × ℕ) → Type 0
IsMostCommon values none = (v : String) → occurrences v values ≡ 0
IsMostCommon values (some (v, n)) =
    (occurrences v values ≡ n) × ((w : String) → occurrences w values ≤ n)

greatest-IsMostCommon :
    (values : List String) (d : List (String × ℕ))
    → Unique d
    → ((w : String) → counted w d ≡ occurrences w values)
    → IsMostCommon values (greatest d)
unfolding IsMostCommon greatest get_key
greatest-IsMostCommon values [] unique same = λ v. sym (same v)
greatest-IsMostCommon values (e ∷ d) unique same =
    let best = max_from (λ i. i.1) e d in
    let found =
      let whole = Unique-found (e ∷ d) unique in
      max_from-All (λ i. get_key i.0 (e ∷ d) ≡ some i.1) (λ i. i.1) d e whole.0 whole.1 in
    let bounds =
      top_rank-bounds (λ i. i.1) best.1 (e ∷ d) (omega (arith, rank-max_from (λ i. i.1) e d)) in
    (
      sym (same best.0) ∙ ap (λ o. get_or o 0) found,
      λ w. omega (arith, same w, counted_le w best.1 (e ∷ d) bounds),
    )

-- `_most_common` answers a value that occurs as often as it says, and no value occurs more often;
-- it answers nothing only where no value occurs.
pub most_common-IsMostCommon : (values : List String) → IsMostCommon values (most_common values)
unfolding most_common Unique
most_common-IsMostCommon values =
    greatest-IsMostCommon values (tally values []) (tally-Unique values [] tt)
      (λ w. counted-tally w values [] ∙ (unfold get_key in omega arith))
