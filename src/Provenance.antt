-- ===== src/Provenance.antt =====
-- What the operations of src/sentinelgate/provenance.py share: the attestation, the claims of its
-- token, the label of an injection signal, and `attest`.
pub mod Structured
pub mod ToolOutput
pub mod Verify
pub mod Derivation
pub mod Declassify
pub mod Signed
use sentinelgate.Prelude.{
  ℕ, String, Bool, Option, none, some, List, [], ◌∷◌, ◌++◌, map, sorted_set, is_empty,
  if◌then◌else◌,
}
use sentinelgate.Json.{Json, Fields, end, field, null, text, array, object}
use sentinelgate.Models.{
  DataClassification, TrustLevel, FieldTaint, trust_value, classification_value,
}
use sentinelgate.Runtime.{Runtime}
use sentinelgate.Security.{injection_signals}
use sentinelgate.Identity.{TokenSigner, Answer, ok, ◌>>=◌, issue, string_items}

pub record ProvenanceAttestation : Type 0 where
  pub token : String
  pub content_digest : String
  pub trust : TrustLevel
  pub signals : List String
  pub classification : DataClassification
  pub labels : List String
  pub lineage_id : String
  pub trace_id : Option String
  pub expires_at : ℕ
  pub field_taint : List (String × FieldTaint)

pub record ProvenanceService : Type 0 where
  pub signer : TokenSigner
  pub ttl_seconds : ℕ

-- The clock and the two identifiers that an operation draws: the lineage's and the token's.
pub record Draws : Type 0 where
  pub now : ℕ
  pub lineage : String
  pub jti : String

-- `{"prompt_injection"} if signals else set()`
unfoldable pub injection_label : List String → List String
unfolding is_empty
injection_label signals = if is_empty signals then [] else "prompt_injection" ∷ []

unfoldable pub nullable : Option String → Json
nullable none = null
nullable (some s) = text s

-- `item.model_dump(mode="json")`
unfoldable pub dump_taint : FieldTaint → Json
unfolding trust_value classification_value string_items
dump_taint item = object (
    field "content_digest" (text item.content_digest) (
      field "trust" (text (trust_value item.trust)) (
        field "classification" (text (classification_value item.classification)) (
          field "labels" (array (string_items item.labels))
            (field "lineage_ids" (array (string_items item.lineage_ids)) end)))))

unfoldable pub dump_fields : List (String × FieldTaint) → Fields
unfolding dump_taint
dump_fields [] = end
dump_fields ((pointer, item) ∷ rest) = field pointer (dump_taint item) (dump_fields rest)

-- What an operation attests.
pub record Statement : Type 0 where
  pub digest : String
  pub trust : TrustLevel
  pub signals : List String
  pub classification : DataClassification
  pub labels : List String
  pub trace_id : Option String
  pub field_taint : List (String × FieldTaint)

-- The claims that every attestation carries, in front of its further ones.
unfoldable pub claims_of : String → Statement → String → List String → Fields → Fields
unfolding trust_value classification_value string_items nullable
claims_of tenant_id s lineage_id parent_ids rest = field "tenant_id" (text tenant_id) (
    field "digest" (text s.digest) (
      field "trust" (text (trust_value s.trust)) (
        field "signals" (array (string_items s.signals)) (
          field "classification" (text (classification_value s.classification)) (
            field "labels" (array (string_items s.labels)) (
              field "lineage_id" (text lineage_id) (
                field "trace_id" (nullable s.trace_id)
                  (field "parent_ids" (array (string_items parent_ids)) rest))))))))

pub record ProvenanceAttestRequest : Type 0 where
  pub source_id : String
  pub content : String
  pub trust : TrustLevel
  pub classification : DataClassification
  pub labels : List String
  pub trace_id : Option String

module _ (runtime : Runtime) where
  -- The labels of a new source, in lower case, with the label of an injection signal.
  unfoldable pub source_labels : List String → List String → List String
  unfolding injection_label
  source_labels labels signals = sorted_set (map runtime.casefold labels ++ injection_label signals)

  -- What every operation ends with: the token is issued and the attestation is answered.
  unfoldable pub sign :
      ProvenanceService
      → String
      → String
      → Statement
      → List String
      → Fields
      → Draws
      → Answer ProvenanceAttestation
  unfolding claims_of issue
  sign service subject tenant_id statement parent_ids rest draws = do
    issued ←
        issue runtime service.signer subject "sentinelgate-provenance" service.ttl_seconds
          (claims_of tenant_id statement draws.lineage parent_ids rest) draws.now draws.jti
    ok (record {
      token = issued.0;
      content_digest = statement.digest;
      trust = statement.trust;
      signals = statement.signals;
      classification = statement.classification;
      labels = statement.labels;
      lineage_id = draws.lineage;
      trace_id = statement.trace_id;
      expires_at = issued.1;
      field_taint = statement.field_taint;
    })

  unfoldable pub attest :
      ProvenanceService → ProvenanceAttestRequest → String → Draws → Answer ProvenanceAttestation
  unfolding source_labels injection_signals sign
  attest service request tenant_id draws =
      let signals = injection_signals runtime request.content in
      sign service request.source_id tenant_id
        (record {
          digest = runtime.sha256 request.content;
          trust = request.trust;
          signals = signals;
          classification = request.classification;
          labels = source_labels request.labels signals;
          trace_id = request.trace_id;
          field_taint = [];
        })
        [] end draws
