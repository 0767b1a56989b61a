-- ===== src/Provenance/Declassify.antt =====
-- `declassify_labels` of src/sentinelgate/provenance.py.
pub mod Removed
use sentinelgate.Prelude.{
  ℕ, String, Bool, not, ◌||◌, Option, none, some, List, [], ◌∷◌, ◌++◌, map, gather, select,
  contains, any, cat, get_key, set_key, truthy, sorted_set, if◌then◌else◌,
}
use sentinelgate.Json.{Json, Fields, end, field, text, array, object}
use sentinelgate.Models.{FieldTaint, VerifiedProvenance}
use sentinelgate.Runtime.{Runtime}
use sentinelgate.Identity.{Answer, ok, token_error, ◌>>=◌, string_items}
use sentinelgate.Provenance.{
  ProvenanceService, ProvenanceAttestation, Draws, Statement, sign, dump_fields,
}
use sentinelgate.Provenance.Verify.{verify_many}

-- The field without the labels, in a new lineage.
unfoldable pub without_labels : List String → String → FieldTaint → FieldTaint
without_labels remove_labels lineage_id current = record current {
  labels = sorted_set (select (λ label. not (contains label remove_labels)) current.labels);
  lineage_ids = sorted_set (current.lineage_ids ++ lineage_id ∷ []);
}

-- The loop over the paths, each of which is a key.
unfoldable pub remove_at :
    List String → String → List String → List (String × FieldTaint) → List (String × FieldTaint)
unfolding without_labels
remove_at remove_labels lineage_id [] field_taint = field_taint
remove_at remove_labels lineage_id (pointer ∷ paths) field_taint =
    elim (get_key pointer field_taint) [
      | none ↦ remove_at remove_labels lineage_id paths field_taint
      | some current ↦
          remove_at remove_labels lineage_id paths
            (set_key pointer (without_labels remove_labels lineage_id current) field_taint)
    ]

-- `[source.lineage_id] if source.lineage_id else []`
unfoldable pub source_parents : Option String → List String
source_parents none = []
source_parents (some s) = if truthy (some s) then s ∷ [] else []

unfoldable pub is_missing : List (String × FieldTaint) → String → Bool
is_missing field_taint pointer = elim (get_key pointer field_taint) [
  | none ↦ Bool.true
  | some item ↦ Bool.false
]

unfoldable pub field_labels : List (String × FieldTaint) → List String
field_labels field_taint = sorted_set (gather (λ entry. entry.1.labels) field_taint)

unfoldable pub declassified_statement :
    VerifiedProvenance → List String → List String → String → Statement
unfolding remove_at field_labels
declassified_statement source paths remove_labels lineage_id =
    let field_taint = remove_at remove_labels lineage_id paths source.field_taint in
    record {
      digest = source.content_digest;
      trust = source.trust;
      signals = source.signals;
      classification = source.classification;
      labels = field_labels field_taint;
      trace_id = source.trace_id;
      field_taint = field_taint;
    }

-- The further claims.
unfoldable pub declassified_claims :
    VerifiedProvenance → List String → List String → String → String → Fields
unfolding remove_at dump_fields string_items
declassified_claims source paths remove_labels reviewer lineage_id =
    field "field_taint"
      (object (dump_fields (remove_at remove_labels lineage_id paths source.field_taint)))
      (field "declassified_by" (text reviewer)
        (field "removed_labels" (array (string_items (sorted_set remove_labels))) end))

module _ (runtime : Runtime) where
  -- The attestation of a verified source.
  unfoldable pub declassified :
      ProvenanceService
      → VerifiedProvenance
      → String
      → List String
      → List String
      → String
      → Draws
      → Answer ProvenanceAttestation
  unfolding is_missing sign source_parents declassified_statement declassified_claims
  declassified service source tenant_id paths remove_labels reviewer draws =
      if any (is_missing source.field_taint) paths
      then token_error "Declassification path is not present in signed provenance"
      else sign runtime service (cat "declassified:" reviewer) tenant_id
          (declassified_statement source paths remove_labels draws.lineage)
          (source_parents source.lineage_id)
          (declassified_claims source paths remove_labels reviewer draws.lineage) draws

  -- `verify_many([token], tenant_id)[0]`; a list of one token never gives the empty list.
  first_verified : List VerifiedProvenance → Answer VerifiedProvenance
  first_verified [] = Answer.key_error "0"
  first_verified (source ∷ rest) = ok source

  unfoldable pub declassify_labels :
      ProvenanceService
      → String
      → String
      → List String
      → List String
      → String
      → Draws
      → Answer ProvenanceAttestation
  unfolding verify_many first_verified declassified
  declassify_labels service token tenant_id paths remove_labels reviewer draws = do
    verified ← verify_many runtime service.signer (token ∷ []) tenant_id draws.now
    source ← first_verified verified
    declassified service source tenant_id paths remove_labels reviewer draws
