-- ===== src/Policy/Checks.antt =====
-- policy.py: the tests that the early returns make of sources, scopes and arguments.
use sentinelgate.Prelude.{
  ◌≤◌, String, [], ◌≡◌, refl, ◌≢◌, true, false, not, List, arith, select, contains, is_empty, All,
  any-false, is_empty-select, is_empty-sorted_set, eq_nil,
}
use sentinelgate.Models.{DataClassification, TrustLevel, trusted, mixed, untrusted, allow}
use sentinelgate.Taint.{classification_rank, highest_classification, classification_exceeds}
use sentinelgate.Taint.Join.{highest_classification_bounds}
use sentinelgate.Policy.Verdict.{action_decision}
use sentinelgate.Policy.Fields.{is_untrusted, matched_labels}
use sentinelgate.Policy.Evaluate.{is_mixed}

-- A blocked flow is denied or sent to a reviewer.
pub action_decision-ne-allow : (action : String) → action_decision action ≢ allow
unfolding action_decision
action_decision-ne-allow action e = ground arith

-- No label is matched: none of the labels is blocked.
pub matched_labels_none :
    (labels blocked : List String)
    → is_empty (matched_labels labels blocked) ≡ true
    → All (λ l. contains l blocked ≡ false) labels
unfolding matched_labels
matched_labels_none labels blocked h = any-false _ labels (
    ground (
      arith,
      is_empty-sorted_set (select (λ l. contains l blocked) labels),
      is_empty-select (λ l. contains l blocked) labels,
    ))

-- Within the limit, every classification is.
pub within_limit :
    (limit : DataClassification) (values : List DataClassification)
    → classification_exceeds (highest_classification values) limit ≡ false
    → All (λ c. classification_rank c ≤ classification_rank limit) values
unfolding classification_exceeds
within_limit limit values h =
    highest_classification_bounds (classification_rank limit) values (ground arith)

pub trusted_of_neither :
    (trust : TrustLevel) → is_untrusted trust ≡ false → is_mixed trust ≡ false → trust ≡ trusted
trusted_of_neither trusted h k = refl
trusted_of_neither mixed h k = ground arith
trusted_of_neither untrusted h k = ground arith

pub signals_none : (xs : List String) → not (is_empty xs) ≡ false → xs ≡ []
signals_none xs h = eq_nil xs (ground arith)
