-- ===== src/Provenance/ToolOutput.antt =====
-- `derive_tool_output` of src/sentinelgate/provenance.py.
pub mod Restrictive
use sentinelgate.Prelude.{
  ℕ, String, Bool, Option, none, some, List, [], ◌∷◌, ◌++◌, map, gather, cat, sorted_set, is_empty,
  if◌then◌else◌,
}
use sentinelgate.Json.{Json, Fields, end, field, object}
use sentinelgate.Models.{DataClassification, TrustLevel, FieldTaint, VerifiedProvenance}
use sentinelgate.Taint.{highest_classification, least_trusted}
use sentinelgate.Runtime.{Runtime}
use sentinelgate.Security.{injection_signals}
use sentinelgate.Identity.{Answer, ok}
use sentinelgate.FieldTaint.Combine.{build_uniform_field_taint}
use sentinelgate.Provenance.{
  ProvenanceService, ProvenanceAttestation, Draws, Statement, sign, dump_fields, injection_label,
}

-- What the tool reports of its output.
pub record Reported : Type 0 where
  pub output : Json
  pub trust : TrustLevel
  pub classification : DataClassification
  pub labels : List String
  -- `field_taint`, `None` if the connector gives none
  pub field_taint : Option (List (String × FieldTaint))

-- `[item.lineage_id for item in parents if item.lineage_id is not None]`
unfoldable pub parent_lineage : List VerifiedProvenance → List String
parent_lineage [] = []
parent_lineage (p ∷ ps) = elim p.lineage_id [
  | none ↦ parent_lineage ps
  | some l ↦ l ∷ parent_lineage ps
]

-- `[item for parent in parents for item in parent.field_taint.values()]`
unfoldable pub inherited_fields : List VerifiedProvenance → List FieldTaint
inherited_fields parents = gather (λ p. map (λ entry. entry.1) p.field_taint) parents

unfoldable pub effective_trust : TrustLevel → List VerifiedProvenance → TrustLevel
effective_trust trust parents = least_trusted (trust ∷ map (λ p. p.trust) parents)

unfoldable pub effective_classification :
    DataClassification → List VerifiedProvenance → DataClassification
effective_classification classification parents =
    highest_classification (classification ∷ map (λ p. p.classification) parents)

unfoldable pub effective_labels : List String → List VerifiedProvenance → List String → List String
unfolding injection_label
effective_labels labels parents signals =
    sorted_set (labels ++ (gather (λ p. p.labels) parents ++ injection_label signals))

-- A connector's field, joined with the fields of the parents.
unfoldable pub joined_field : List FieldTaint → List String → FieldTaint → FieldTaint
joined_field inherited lineage item = record {
  content_digest = item.content_digest;
  trust = least_trusted (item.trust ∷ least_trusted (map (λ f. f.trust) inherited) ∷ []);
  classification =
      highest_classification
        (item.classification ∷ highest_classification (map (λ f. f.classification) inherited) ∷ []);
  labels = sorted_set (item.labels ++ gather (λ f. f.labels) inherited);
  lineage_ids = sorted_set (item.lineage_ids ++ lineage);
}

module _ (runtime : Runtime) where
  unfoldable pub output_fields :
      Reported → List VerifiedProvenance → List String → List String → List (String × FieldTaint)
  unfolding effective_trust effective_classification build_uniform_field_taint joined_field
      inherited_fields
  output_fields reported parents labels lineage = elim reported.field_taint [
    | none ↦
        build_uniform_field_taint runtime reported.output (effective_trust reported.trust parents)
          (effective_classification reported.classification parents) labels lineage
    | some fields ↦
        if is_empty (inherited_fields parents)
        then fields
        else map (λ entry. (entry.0, joined_field (inherited_fields parents) lineage entry.1))
            fields
  ]

  unfoldable pub output_statement : String → Reported → List VerifiedProvenance → String → Statement
  unfolding injection_signals output_fields effective_trust effective_classification
      effective_labels parent_lineage
  output_statement trace_id reported parents lineage_id =
      let content = runtime.dumps reported.output in
      let signals = injection_signals runtime content in
      let labels = effective_labels reported.labels parents signals in
      let parent_ids = sorted_set (parent_lineage parents) in
      record {
        digest = runtime.sha256 content;
        trust = effective_trust reported.trust parents;
        signals = signals;
        classification = effective_classification reported.classification parents;
        labels = labels;
        trace_id = some trace_id;
        field_taint = output_fields reported parents labels (lineage_id ∷ parent_ids);
      }

  -- `field_taint={...}` among the claims
  unfoldable pub field_claims : Statement → Fields
  unfolding dump_fields
  field_claims statement = field "field_taint" (object (dump_fields statement.field_taint)) end

  unfoldable pub derive_tool_output :
      ProvenanceService
      → String
      → String
      → String
      → String
      → Reported
      → List VerifiedProvenance
      → Draws
      → Answer ProvenanceAttestation
  unfolding sign output_statement field_claims parent_lineage
  derive_tool_output service tenant_id trace_id request_id tool_name reported parents draws =
      let statement = output_statement trace_id reported parents draws.lineage in
      sign runtime service (cat "tool:" (cat tool_name (cat ":" request_id))) tenant_id statement
        (sorted_set (parent_lineage parents)) (field_claims statement) draws
