-- ===== src/Provenance/Derivation.antt =====
-- `derive_structured` of src/sentinelgate/provenance.py, from the verified inputs to the signed
-- attestation; the recipes are in the child module.
pub mod Recipe
pub mod Sourced
use sentinelgate.Prelude.{
  ℕ, String, Bool, true, false, not, ◌&&◌, Option, none, some, List, [], ◌∷◌, ◌++◌, map, gather,
  all, any, get_key, set_key, truthy, sorted_set, ◌==◌, if◌then◌else◌,
}
use sentinelgate.Json.{Json, end, field, object}
use sentinelgate.Models.{
  FieldTaint, FieldProvenanceReference, VerifiedProvenance, DataClassification, TrustLevel,
}
use sentinelgate.Taint.{highest_classification, least_trusted}
use sentinelgate.Runtime.{Runtime}
use sentinelgate.Security.{injection_signals}
use sentinelgate.Identity.{TokenSigner, Answer, ok, token_error, value_error, ◌>>=◌, or_raise}
use sentinelgate.FieldTaint.Pointer.{leaf_values}
use sentinelgate.FieldTaint.Combine.{combine_field_taint, value_digest}
use sentinelgate.Provenance.{
  ProvenanceService, ProvenanceAttestation, Draws, Statement, sign, dump_fields, injection_label,
}
use sentinelgate.Provenance.Verify.{verify_many}
use Recipe.{DerivationInput, FieldDerivation, computed_value, sources_of}

pub record StructuredProvenanceDeriveRequest : Type 0 where
  pub source_id : String
  pub value : Json
  pub inputs : List (String × DerivationInput)
  pub derivations : List (String × FieldDerivation)
  pub mode : String
  pub trace_id : String

unfoldable pub has_entry : {V : Type 0} → List (String × V) → String → Bool
has_entry d k = elim (get_key k d) [ none ↦ false | some v ↦ true ]

-- `set(derivations) == set(outputs)`
unfoldable pub same_keys : {V W : Type 0} → List (String × V) → List (String × W) → Bool
unfolding has_entry
same_keys d e = all (λ entry. has_entry e entry.0) d && all (λ entry. has_entry d entry.0) e

-- The lineage of the derivation is added to every field.
unfoldable pub with_lineage : String → FieldTaint → FieldTaint
with_lineage lineage_id item = record item {
  lineage_ids = sorted_set (item.lineage_ids ++ lineage_id ∷ []);
}

module _ (runtime : Runtime) where
  -- The checks of one input; the field that the signed provenance has for it.
  unfoldable pub bound_input :
      List VerifiedProvenance → String → DerivationInput → Answer FieldTaint
  unfolding value_digest
  bound_input [] trace_id item = Answer.key_error "0"
  bound_input (verified ∷ rest) trace_id item =
      if truthy verified.trace_id && not (get_trace verified.trace_id == trace_id)
      then token_error "Derivation trace mismatch"
      else elim (get_key item.reference.source_pointer verified.field_taint) [
        | none ↦ token_error "Derivation input is not bound to signed provenance"
        | some found ↦
            if found.content_digest == value_digest runtime item.value
            then ok found
            else token_error "Derivation input is not bound to signed provenance"
      ]
    where
      get_trace : Option String → String
      get_trace none = ""
      get_trace (some t) = t

  -- The first loop: every input is verified.
  unfoldable pub verify_inputs :
      TokenSigner
      → String
      → String
      → ℕ
      → List (String × DerivationInput)
      → Answer (List (String × FieldTaint))
  unfolding verify_many bound_input
  verify_inputs signer tenant_id trace_id now [] = ok []
  verify_inputs signer tenant_id trace_id now ((name, item) ∷ inputs) = do
    verified ← verify_many runtime signer (item.reference.token ∷ []) tenant_id now
    found ← bound_input verified trace_id item
    rest ← verify_inputs signer tenant_id trace_id now inputs
    ok ((name, found) ∷ rest)

  -- One output leaf by its recipe.
  unfoldable pub derived_field :
      List (String × DerivationInput)
      → List (String × FieldTaint)
      → FieldDerivation
      → Json
      → Answer FieldTaint
  unfolding computed_value sources_of combine_field_taint
  derived_field inputs verified recipe output = do
    sources ← sources_of verified recipe.inputs
    value ← computed_value runtime inputs recipe
    if runtime.json_equal value output
        then ok (combine_field_taint runtime output sources)
        else value_error "Derivation output mismatch"

  -- The loop of the deterministic mode.
  unfoldable pub derived_fields :
      List (String × DerivationInput)
      → List (String × FieldTaint)
      → List (String × FieldDerivation)
      → List (String × Json)
      → Answer (List (String × FieldTaint))
  unfolding derived_field or_raise
  derived_fields inputs verified derivations [] = ok []
  derived_fields inputs verified derivations ((pointer, output) ∷ outputs) = do
    recipe ←
        or_raise (value_error "Every output leaf requires a deterministic derivation")
          (get_key pointer derivations)
    item ← derived_field inputs verified recipe output
    rest ← derived_fields inputs verified derivations outputs
    ok ((pointer, item) ∷ rest)

  -- The field taint of the output, in both modes.
  unfoldable pub structured_fields :
      StructuredProvenanceDeriveRequest
      → List (String × FieldTaint)
      → Answer (List (String × FieldTaint))
  unfolding combine_field_taint leaf_values same_keys derived_fields
  structured_fields request verified =
      let outputs = leaf_values runtime request.value "" in
      if request.mode == "llm"
      then ok (
          map (λ entry. (entry.0, combine_field_taint runtime entry.1 (map (λ v. v.1) verified)))
            outputs)
      else if not (same_keys request.derivations outputs)
      then value_error "Every output leaf requires a deterministic derivation"
      else derived_fields request.inputs verified request.derivations outputs

  -- What is attested of the derived fields.
  unfoldable pub derived_statement :
      StructuredProvenanceDeriveRequest → List (String × FieldTaint) → Statement
  unfolding injection_signals injection_label value_digest
  derived_statement request fields =
      let signals = injection_signals runtime (runtime.dumps request.value) in
      record {
        digest = value_digest runtime request.value;
        trust = least_trusted (map (λ entry. entry.1.trust) fields);
        signals = signals;
        classification = highest_classification (map (λ entry. entry.1.classification) fields);
        labels = sorted_set (gather (λ entry. entry.1.labels) fields ++ injection_label signals);
        trace_id = some request.trace_id;
        field_taint = fields;
      }

  unfoldable pub attest_derived :
      ProvenanceService
      → StructuredProvenanceDeriveRequest
      → String
      → Draws
      → List (String × FieldTaint)
      → List (String × FieldTaint)
      → Answer ProvenanceAttestation
  unfolding with_lineage derived_statement sign dump_fields
  attest_derived service request tenant_id draws verified combined =
      let fields = map (λ entry. (entry.0, with_lineage draws.lineage entry.1)) combined in
      sign runtime service request.source_id tenant_id (derived_statement request fields)
        (sorted_set (gather (λ entry. entry.1.lineage_ids) verified))
        (field "field_taint" (object (dump_fields fields)) end) draws

  unfoldable pub derive_structured :
      ProvenanceService
      → StructuredProvenanceDeriveRequest
      → String
      → Draws
      → Answer ProvenanceAttestation
  unfolding verify_inputs structured_fields attest_derived
  derive_structured service request tenant_id draws = do
    verified ← verify_inputs service.signer tenant_id request.trace_id draws.now request.inputs
    combined ← structured_fields request verified
    attest_derived service request tenant_id draws verified combined
