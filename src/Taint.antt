-- ===== src/Taint.antt =====
-- src/sentinelgate/taint.py: the ranks of classifications and trust levels.
pub mod Join
pub mod Within
use sentinelgate.Prelude.{ℕ, Bool, List, [], ◌∷◌, ltb, if◌then◌else◌}
use sentinelgate.Models.{
  DataClassification, public_data, internal, confidential, restricted, TrustLevel, trusted, mixed,
  untrusted,
}

-- `CLASSIFICATION_RANK`
unfoldable pub classification_rank : DataClassification → ℕ
classification_rank public_data = 0
classification_rank internal = 1
classification_rank confidential = 2
classification_rank restricted = 3

-- `TRUST_RANK`
unfoldable pub trust_rank : TrustLevel → ℕ
trust_rank trusted = 0
trust_rank mixed = 1
trust_rank untrusted = 2

-- Python's `max(values, key=rank)` after its first value: a later value wins only if it is greater.
unfoldable pub max_from : {A : Type 0} → (A → ℕ) → A → List A → A
max_from rank best [] = best
max_from rank best (x ∷ xs) = max_from rank (if ltb (rank best) (rank x) then x else best) xs

unfoldable pub highest_classification : List DataClassification → DataClassification
unfolding max_from classification_rank
highest_classification [] = public_data
highest_classification (x ∷ xs) = max_from classification_rank x xs

unfoldable pub least_trusted : List TrustLevel → TrustLevel
unfolding max_from trust_rank
least_trusted [] = trusted
least_trusted (x ∷ xs) = max_from trust_rank x xs

unfoldable pub classification_exceeds : DataClassification → DataClassification → Bool
unfolding classification_rank
classification_exceeds actual maximum =
    ltb (classification_rank maximum) (classification_rank actual)
