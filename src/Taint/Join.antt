-- ===== src/Taint/Join.antt =====
-- taint.py: combinations of classifications and of trust levels.
use Prim.Native.Nat.{max}
use sentinelgate.Prelude.{ℕ, ◌≤◌, ◌≡◌, refl, List, [], ◌∷◌, ◌++◌, arith, All}
use sentinelgate.Models.{DataClassification, TrustLevel}
use sentinelgate.Taint.{
  classification_rank, trust_rank, max_from, highest_classification, least_trusted,
}

-- The rank of the greatest value, 0 of an empty list.
abbrev pub top_rank : {A : Type 0} → (A → ℕ) → List A → ℕ
top_rank rank [] = 0
top_rank rank (x ∷ xs) = max (rank x) (top_rank rank xs)

pub rank-max_from :
    {A : Type 0} (rank : A → ℕ) (best : A) (xs : List A)
    → rank (max_from rank best xs) ≡ max (rank best) (top_rank rank xs)
unfolding max_from
rank-max_from rank best [] = omega arith
rank-max_from rank best (x ∷ xs) =
    ground (arith, rank-max_from rank x xs, rank-max_from rank best xs)

top_rank-append :
    {A : Type 0} (rank : A → ℕ) (xs ys : List A)
    → top_rank rank (xs ++ ys) ≡ max (top_rank rank xs) (top_rank rank ys)
top_rank-append rank [] ys = omega arith
top_rank-append rank (x ∷ xs) ys = omega (arith, top_rank-append rank xs ys)

pub rank-highest_classification :
    (xs : List DataClassification)
    → classification_rank (highest_classification xs) ≡ top_rank classification_rank xs
unfolding highest_classification
rank-highest_classification [] = refl
rank-highest_classification (x ∷ xs) = rank-max_from classification_rank x xs

pub rank-least_trusted :
    (xs : List TrustLevel) → trust_rank (least_trusted xs) ≡ top_rank trust_rank xs
unfolding least_trusted
rank-least_trusted [] = refl
rank-least_trusted (x ∷ xs) = rank-max_from trust_rank x xs

pub top_rank-bounds :
    {A : Type 0} (rank : A → ℕ) (n : ℕ) (xs : List A)
    → top_rank rank xs ≤ n
    → All (λ x. rank x ≤ n) xs
top_rank-bounds rank n [] h = tt
top_rank-bounds rank n (x ∷ xs) h = (omega arith, top_rank-bounds rank n xs (omega arith))

-- Combining two groups of classified values gives the greater of their two combinations, and no
-- value of the first group is classified higher.
pub highest_classification-append :
    (xs ys : List DataClassification)
    → (classification_rank (highest_classification (xs ++ ys))
        ≡ max
            (classification_rank (highest_classification xs))
            (classification_rank (highest_classification ys)))
      × All
          (λ x. classification_rank x ≤ classification_rank (highest_classification (xs ++ ys)))
          xs
highest_classification-append xs ys =
    let whole = rank-highest_classification (xs ++ ys) in
    let parts = top_rank-append classification_rank xs ys in
    (
      omega (arith, rank-highest_classification xs, rank-highest_classification ys),
      top_rank-bounds classification_rank _ xs (omega arith),
    )

-- Combining two groups of sources gives the less trusted of their two combinations, and no source
-- of the first group is trusted less.
pub least_trusted-append :
    (xs ys : List TrustLevel)
    → (trust_rank (least_trusted (xs ++ ys))
        ≡ max (trust_rank (least_trusted xs)) (trust_rank (least_trusted ys)))
      × All (λ x. trust_rank x ≤ trust_rank (least_trusted (xs ++ ys))) xs
least_trusted-append xs ys =
    let whole = rank-least_trusted (xs ++ ys) in
    let parts = top_rank-append trust_rank xs ys in
    (
      omega (arith, rank-least_trusted xs, rank-least_trusted ys),
      top_rank-bounds trust_rank _ xs (omega arith),
    )

-- A bound on a combination bounds its parts.
pub highest_classification_bounds :
    (n : ℕ) (xs : List DataClassification)
    → classification_rank (highest_classification xs) ≤ n
    → All (λ x. classification_rank x ≤ n) xs
highest_classification_bounds n xs h =
    top_rank-bounds classification_rank n xs (omega (arith, rank-highest_classification xs))

pub least_trusted_bounds :
    (n : ℕ) (xs : List TrustLevel)
    → trust_rank (least_trusted xs) ≤ n
    → All (λ x. trust_rank x ≤ n) xs
least_trusted_bounds n xs h = top_rank-bounds trust_rank n xs (omega (arith, rank-least_trusted xs))
