-- ===== src/Tests/Derived.antt =====
-- The theorems on derived and declassified provenance, applied.
use sentinelgate.Prelude.{
  some, String, true, none, List, [], ◌∷◌, ◌≡◌, refl, ◌∙◌, All, get_key, contains, any,
}
use sentinelgate.Json.{text, get_field}
use sentinelgate.Models.{trusted, untrusted, internal, restricted, public_data, FieldTaint}
use sentinelgate.Taint.Within.{IsSubset, IsWithin}
use sentinelgate.FieldTaint.Pointer.{leaf_values}
use sentinelgate.FieldTaint.Combine.{combine_field_taint, value_digest, canonical_value}
use sentinelgate.Identity.{Answer, ok, issue, has_key}
use sentinelgate.Provenance.{ProvenanceAttestation, sign, claims_of}
use sentinelgate.Provenance.ToolOutput.{Reported, derive_tool_output}
use sentinelgate.Provenance.ToolOutput.Restrictive.{
  of_report, of_source, of_field, of_attestation, BoundsFields, derive_tool_output-IsWithin,
}
use sentinelgate.Provenance.Derivation.{
  StructuredProvenanceDeriveRequest, verify_inputs, derive_structured, structured_fields,
  attest_derived, bound_input, with_lineage,
}
use sentinelgate.Provenance.Derivation.Sourced.{IsSourced, derive_structured-IsSourced}
use sentinelgate.Provenance.Declassify.{declassify_labels, declassified, is_missing}
use sentinelgate.Provenance.Declassify.Removed.{
  IsDeclassified, declassify_labels-declassified, declassify_labels-IsDeclassified,
}
use sentinelgate.Tests.Provenance.{
  sample_service, sample_draws, sample_field, token_runtime, sample_token, sample_source,
  sample_token-verifies,
}

abbrev nothing : ProvenanceAttestation
nothing = record {
  token = "";
  content_digest = "";
  trust = trusted;
  signals = [];
  classification = public_data;
  labels = [];
  lineage_id = "";
  trace_id = none;
  expires_at = 0;
  field_taint = [];
}

abbrev answered : Answer ProvenanceAttestation → ProvenanceAttestation
answered (ok a) = a
answered _ = nothing

abbrev sample_report : Reported
sample_report = record {
  output = text "done";
  trust = trusted;
  classification = internal;
  labels = "tool" ∷ [];
  field_taint = none;
}

abbrev tool_attestation : ProvenanceAttestation
tool_attestation = answered (
    derive_tool_output token_runtime sample_service "tenant" "trace" "request" "tool" sample_report
      (sample_source ∷ []) sample_draws)

tool_attestation-answered :
    derive_tool_output token_runtime sample_service "tenant" "trace" "request" "tool" sample_report
      (sample_source ∷ [])
      sample_draws
    ≡ ok tool_attestation
unfolding derive_tool_output sign issue any has_key claims_of get_field
tool_attestation-answered = refl

derive_tool_output-IsWithin_example :
    IsWithin (of_report sample_report) (of_attestation tool_attestation)
    × All (λ p. IsWithin (of_source p) (of_attestation tool_attestation)) (sample_source ∷ [])
    × BoundsFields sample_report none (sample_source ∷ []) tool_attestation.field_taint
derive_tool_output-IsWithin_example =
    derive_tool_output-IsWithin token_runtime sample_service "tenant" "trace" "request" "tool"
      sample_report (sample_source ∷ []) sample_draws tool_attestation tool_attestation-answered

abbrev sample_derivation : StructuredProvenanceDeriveRequest
sample_derivation = record {
  source_id = "derived";
  value = text "summary";
  inputs =
      (
        "a",
        record {
          value = text "x";
          reference = record { token = sample_token; source_pointer = "/a" };
        },
      )
      ∷ [];
  derivations = [];
  mode = "llm";
  trace_id = "trace";
}

abbrev derived_attestation : ProvenanceAttestation
derived_attestation = answered (
    attest_derived token_runtime sample_service sample_derivation "tenant" sample_draws
      (("a", sample_field) ∷ [])
      (("", combine_field_taint token_runtime (text "summary") (sample_field ∷ [])) ∷ []))

derived_attestation-answered :
    derive_structured token_runtime sample_service sample_derivation "tenant" sample_draws
    ≡ ok derived_attestation
unfolding derive_structured verify_inputs bound_input get_key structured_fields leaf_values
    combine_field_taint value_digest canonical_value attest_derived with_lineage sign issue any
    has_key claims_of get_field
derived_attestation-answered = rw sample_token-verifies refl

derive_structured-IsSourced_example :
    (verified : List (String × FieldTaint)) × (verify_inputs token_runtime sample_service.signer
        "tenant" "trace" 1 sample_derivation.inputs
      ≡ ok verified)
    × All
        (IsSourced token_runtime sample_derivation.inputs true verified [])
        derived_attestation.field_taint
    × All
        (λ entry. IsWithin (of_field entry.1) (of_attestation derived_attestation))
        derived_attestation.field_taint
derive_structured-IsSourced_example =
    derive_structured-IsSourced token_runtime sample_derivation sample_service "tenant" sample_draws
      derived_attestation derived_attestation-answered

abbrev declassified_attestation : ProvenanceAttestation
declassified_attestation = answered (
    declassified token_runtime sample_service sample_source "tenant" ("/a" ∷ []) ("pii" ∷ [])
      "reviewer" sample_draws)

declassified_attestation-answered :
    declassify_labels token_runtime sample_service sample_token "tenant"
      ("/a" ∷ [])
      ("pii" ∷ [])
      "reviewer"
      sample_draws
    ≡ ok declassified_attestation
unfolding declassified any is_missing get_key sign issue has_key claims_of get_field
declassified_attestation-answered =
    declassify_labels-declassified token_runtime sample_service sample_token "tenant" ("/a" ∷ [])
      ("pii" ∷ []) "reviewer" sample_draws sample_source sample_token-verifies
    ∙ refl

declassify_labels-IsDeclassified_example :
    (declassified_attestation.trust ≡ untrusted)
    × (declassified_attestation.classification ≡ restricted)
    × ((after : FieldTaint) × (get_key "/a" declassified_attestation.field_taint ≡ some after)
        × IsDeclassified (contains "/a" ("/a" ∷ [])) ("pii" ∷ []) sample_field after
        × IsSubset after.labels declassified_attestation.labels)
declassify_labels-IsDeclassified_example =
    declassify_labels-IsDeclassified token_runtime sample_service sample_token "tenant" ("/a" ∷ [])
      ("pii" ∷ []) "reviewer" sample_draws sample_source declassified_attestation "/a" sample_field
      sample_token-verifies (unfold get_key in refl) declassified_attestation-answered
