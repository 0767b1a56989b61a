-- ===== src/Provenance/Structured.antt =====
-- `attest_structured` of src/sentinelgate/provenance.py. The text of an enumeration's `ValueError`
-- leaves out the value it quotes.
use sentinelgate.Prelude.{
  String, Option, none, some, List, [], ◌∷◌, ◌++◌, ◌||◌, map, ltb, length, get_key, set_key,
  sorted_set, if◌then◌else◌,
}
use sentinelgate.Json.{Json, Items, Fields, nil, cons, end, field, text, array, object, get_field}
use sentinelgate.Models.{
  DataClassification, TrustLevel, FieldTaint, parse_trust, parse_classification,
}
use sentinelgate.Runtime.{Runtime}
use sentinelgate.Security.{injection_signals}
use sentinelgate.Identity.{Answer, ok, value_error, type_error, ◌>>=◌}
use sentinelgate.FieldTaint.Pointer.{leaf_values}
use sentinelgate.FieldTaint.Combine.{build_uniform_field_taint, value_digest}
use sentinelgate.Provenance.{
  ProvenanceService, ProvenanceAttestation, Draws, sign, dump_fields, source_labels,
}

pub record StructuredProvenanceAttestRequest : Type 0 where
  pub source_id : String
  pub value : Json
  pub trust : TrustLevel
  pub classification : DataClassification
  pub labels : List String
  pub trace_id : Option String
  pub field_overrides : List (String × Fields)

-- `TrustLevel(override.get("trust", current))`
unfoldable pub override_trust : Option Json → TrustLevel → Answer TrustLevel
unfolding parse_trust
override_trust none current = ok current
override_trust (some (text s)) current = elim (parse_trust s) [
  | none ↦ value_error "not a valid TrustLevel"
  | some t ↦ ok t
]
override_trust (some _) current = value_error "not a valid TrustLevel"

-- `DataClassification(override.get("classification", current))`
unfoldable pub override_classification :
    Option Json → DataClassification → Answer DataClassification
unfolding parse_classification
override_classification none current = ok current
override_classification (some (text s)) current = elim (parse_classification s) [
  | none ↦ value_error "not a valid DataClassification"
  | some c ↦ ok c
]
override_classification (some _) current = value_error "not a valid DataClassification"

-- The characters of a text, its elements when it is iterated.
characters : String → List String
characters String.[] = []
characters (String.◌∷◌ c s) = String.◌∷◌ c String.[] ∷ characters s

field_names : Fields → List String
field_names end = []
field_names (field k v d) = k ∷ field_names d

module _ (runtime : Runtime) where
  item_texts : Items → List String
  item_texts nil = []
  item_texts (cons x xs) = runtime.str x ∷ item_texts xs

  -- `[str(item) for item in override.get("labels", [])]`
  unfoldable pub override_labels : Option Json → Answer (List String)
  unfolding item_texts characters field_names
  override_labels none = ok []
  override_labels (some (array xs)) = ok (item_texts xs)
  override_labels (some (text s)) = ok (characters s)
  override_labels (some (object d)) = ok (field_names d)
  override_labels (some _) = type_error

  unfoldable pub overridden : String → FieldTaint → Fields → Answer FieldTaint
  unfolding override_trust override_classification override_labels
  overridden lineage_id current override = do
    trust ← override_trust (get_field "trust" override) current.trust
    classification ←
        override_classification (get_field "classification" override) current.classification
    labels ← override_labels (get_field "labels" override)
    ok (record {
      content_digest = current.content_digest;
      trust = trust;
      classification = classification;
      labels = sorted_set (current.labels ++ map runtime.casefold labels);
      lineage_ids = lineage_id ∷ [];
    })

  -- The loop over the overrides. A pointer of a leaf is a key of the field taint.
  unfoldable pub apply_overrides :
      String
      → List (String × Fields)
      → List (String × FieldTaint)
      → Answer (List (String × FieldTaint))
  unfolding overridden
  apply_overrides lineage_id [] field_taint = ok field_taint
  apply_overrides lineage_id ((pointer, override) ∷ rest) field_taint =
      elim (get_key pointer field_taint) [
        | none ↦ value_error "Field override does not resolve to a leaf"
        | some current ↦ do
          item ← overridden lineage_id current override
          apply_overrides lineage_id rest (set_key pointer item field_taint)
      ]

  unfoldable pub attest_structured :
      ProvenanceService
      → StructuredProvenanceAttestRequest
      → String
      → Draws
      → Answer ProvenanceAttestation
  unfolding source_labels sign injection_signals apply_overrides dump_fields value_digest
      build_uniform_field_taint leaf_values
  attest_structured service request tenant_id draws =
      let content = runtime.dumps request.value in
      let signals = injection_signals runtime content in
      let labels = source_labels runtime request.labels signals in
      let leaves = leaf_values runtime request.value "" in
      if ltb 1000000 (runtime.byte_length content)
      then value_error "Structured provenance value exceeds 1 MB"
      else if ltb 200 (length leaves) || ltb 200 (length request.field_overrides)
      then value_error "Structured provenance supports at most 200 leaf fields"
      else do
        field_taint ← apply_overrides draws.lineage request.field_overrides (
            build_uniform_field_taint runtime request.value request.trust request.classification
              labels (draws.lineage ∷ []))
        sign runtime service request.source_id tenant_id
            (record {
              digest = value_digest runtime request.value;
              trust = request.trust;
              signals = signals;
              classification = request.classification;
              labels = labels;
              trace_id = request.trace_id;
              field_taint = field_taint;
            })
            [] (field "field_taint" (object (dump_fields field_taint)) end) draws
