-- ===== src/FieldTaint/Combine.antt =====
-- The field taint of src/sentinelgate/field_taint.py: `canonical_value`, `value_digest`,
-- `build_uniform_field_taint` and `combine_field_taint`.
use sentinelgate.Prelude.{String, List, map, gather, sorted_set}
use sentinelgate.Json.{Json}
use sentinelgate.Models.{DataClassification, TrustLevel, FieldTaint}
use sentinelgate.Runtime.{Runtime}
use sentinelgate.Taint.{highest_classification, least_trusted}
use sentinelgate.FieldTaint.Pointer.{leaf_values}

module _ (runtime : Runtime) where
  unfoldable pub canonical_value : Json → String
  canonical_value value = runtime.dumps value

  unfoldable pub value_digest : Json → String
  unfolding canonical_value
  value_digest value = runtime.sha256 (canonical_value value)

  unfoldable pub uniform_field :
      TrustLevel → DataClassification → List String → List String → Json → FieldTaint
  uniform_field trust classification labels lineage_ids item = record {
    content_digest = value_digest item;
    trust = trust;
    classification = classification;
    labels = sorted_set labels;
    lineage_ids = sorted_set lineage_ids;
  }

  unfoldable pub build_uniform_field_taint :
      Json
      → TrustLevel
      → DataClassification
      → List String
      → List String
      → List (String × FieldTaint)
  unfolding uniform_field
  build_uniform_field_taint value trust classification labels lineage_ids =
      map (λ entry. (entry.0, uniform_field trust classification labels lineage_ids entry.1))
        (leaf_values runtime value String.[])

  unfoldable pub combine_field_taint : Json → List FieldTaint → FieldTaint
  combine_field_taint value items = record {
    content_digest = value_digest value;
    trust = least_trusted (map (λ item. item.trust) items);
    classification = highest_classification (map (λ item. item.classification) items);
    labels = sorted_set (gather (λ item. item.labels) items);
    lineage_ids = sorted_set (gather (λ item. item.lineage_ids) items);
  }
