-- ===== src/Taint/Within.antt =====
-- One level of restriction within another: trusted no less, classified no higher, and with no label
-- that the other lacks. What a combination of sources is restricted by.
use sentinelgate.Prelude.{
  ◌≤◌, ◌≡◌, String, true, List, [], ◌∷◌, map, gather, contains, All, All-weaken, arith,
  contains-append,
}
use sentinelgate.Models.{DataClassification, TrustLevel}
use sentinelgate.Taint.{classification_rank, trust_rank, highest_classification, least_trusted}
use sentinelgate.Taint.Join.{highest_classification_bounds, least_trusted_bounds}

pub record Restriction : Type 0 where
  pub trust : TrustLevel
  pub classification : DataClassification
  pub labels : List String

unfoldable pub IsSubset : List String → List String → Type 0
IsSubset xs ys = (label : String) → contains label xs ≡ true → contains label ys ≡ true

unfoldable pub IsWithin : Restriction → Restriction → Type 0
IsWithin r s =
    (trust_rank r.trust ≤ trust_rank s.trust)
    × (classification_rank r.classification ≤ classification_rank s.classification)
    × IsSubset r.labels s.labels

-- Texts of one group are among those of all groups.
pub gather-IsSubset :
    {A : Type 0} (f : A → List String) (xs : List A) → All (λ x. IsSubset (f x) (gather f xs)) xs
unfolding gather IsSubset
gather-IsSubset f [] = tt
gather-IsSubset f (x ∷ xs) = (
  λ label h. ground (arith, contains-append label (f x) (gather f xs)),
  All-weaken xs
      (λ y within label h.
        ground (arith, contains-append label (f x) (gather f xs), within label h))
      (gather-IsSubset f xs),
)

module _ {A : Type 0} (of : A → Restriction) (s : Restriction) where
  -- Sources whose levels are bounded one by one.
  pub bounded-IsWithin :
      (xs : List A)
      → All (λ t. trust_rank t ≤ trust_rank s.trust) (map (λ x. (of x).trust) xs)
      → All
          (λ c. classification_rank c ≤ classification_rank s.classification)
          (map (λ x. (of x).classification) xs)
      → All (λ x. IsSubset (of x).labels s.labels) xs
      → All (λ x. IsWithin (of x) s) xs
  unfolding IsWithin
  bounded-IsWithin [] ht hc hl = tt
  bounded-IsWithin (x ∷ xs) ht hc hl = ((ht.0, hc.0, hl.0), bounded-IsWithin xs ht.1 hc.1 hl.1)

  pub labels-IsSubset :
      (xs : List A)
      → IsSubset (gather (λ x. (of x).labels) xs) s.labels
      → All (λ x. IsSubset (of x).labels s.labels) xs
  unfolding IsSubset
  labels-IsSubset xs h =
      All-weaken xs (λ x within label k. h label (within label k))
        (gather-IsSubset (λ x. (of x).labels) xs)

  -- The combination of sources: the least trust, the highest classification, and all labels.
  pub combination-IsWithin :
      (xs : List A)
      → trust_rank (least_trusted (map (λ x. (of x).trust) xs)) ≤ trust_rank s.trust
      → classification_rank (highest_classification (map (λ x. (of x).classification) xs))
        ≤ classification_rank s.classification
      → IsSubset (gather (λ x. (of x).labels) xs) s.labels
      → All (λ x. IsWithin (of x) s) xs
  combination-IsWithin xs ht hc hl =
      bounded-IsWithin xs (least_trusted_bounds _ _ ht) (highest_classification_bounds _ _ hc)
        (labels-IsSubset xs hl)

pub IsWithin-trans : (r s t : Restriction) → IsWithin r s → IsWithin s t → IsWithin r t
unfolding IsWithin IsSubset
IsWithin-trans r s t (a, b, c) (d, e, f) =
    (omega arith, omega arith, λ label h. f label (c label h))
