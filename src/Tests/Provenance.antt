-- ===== src/Tests/Provenance.antt =====
-- The theorems on pointers, tokens and provenance, applied.
use sentinelgate.Prelude.{
  String, true, false, none, some, [], ◌∷◌, ◌≡◌, refl, All, any, ◌==◌, ltb, if◌then◌else◌,
}
use sentinelgate.Json.{Json, Fields, text, number, array, object, nil, cons, end, field, get_field}
use sentinelgate.Models.{
  trust_value, classification_value, parse_trust, parse_classification, untrusted, restricted,
  FieldTaint, VerifiedProvenance,
}
use sentinelgate.Runtime.{Runtime}
use sentinelgate.FieldTaint.Pointer.{extend_first, leaf_values, resolve_pointer, resolved, split}
use sentinelgate.FieldTaint.Resolve.{
  HasUniqueKeys, AreUnique, AreUniqueFields, resolve_pointer-leaf_values,
}
use sentinelgate.Identity.{
  ok, verified_parts, encode, decode_bytes, rstrip, padding, padding_after, decode_split,
  or_malformed, checked_payload, string_items, text_items, required, ◌>>=◌, issue, decode,
  payload_of, is_token_header, token_header, is_text, is_expired, has_key, reserved, value_error,
  token_error, with_signature, signed_text,
}
use sentinelgate.Identity.Encoding.{ReadsBack, CodecLaws}
use sentinelgate.Identity.Signed.{decode-issue}
use sentinelgate.Identity.Accepted.{IsSignedBy, decode-accepts}
use sentinelgate.Provenance.{
  ProvenanceService, Statement, Draws, claims_of, dump_fields, dump_taint, nullable,
}
use sentinelgate.Provenance.Verify.{
  verify_many, verified_payload, claimed_trust, claimed_classification, claimed_texts,
  claimed_fields, optional_claim, is_truthy,
}
use sentinelgate.Tests.Data.{sample_digest}
use sentinelgate.Tests.Codec.{codec_runtime, codec_DecimalLaws, codec_CodecLaws}

abbrev nested : Json
nested = object (
    field "a/b" (array (cons (number "1") (cons (text "x") nil)))
      (field "password" (object end) end))

nested-HasUniqueKeys : HasUniqueKeys nested
unfolding HasUniqueKeys AreUnique AreUniqueFields get_field
nested-HasUniqueKeys = (refl, ((tt, (tt, tt)), (refl, (tt, tt))))

resolve_pointer-leaf_values_example :
    All
      (λ entry. resolve_pointer codec_runtime nested entry.0 ≡ resolved entry.1)
      (leaf_values codec_runtime nested String.[])
resolve_pointer-leaf_values_example =
    resolve_pointer-leaf_values codec_runtime nested codec_DecimalLaws nested-HasUniqueKeys

abbrev pub sample_service : ProvenanceService
sample_service = record { signer = record { key = "key"; issuer = "gate" }; ttl_seconds = 10 }

abbrev pub sample_draws : Draws
sample_draws = record { now = 1; lineage = "lineage-2"; jti = "jti-1" }

abbrev pub sample_field : FieldTaint
sample_field = record {
  content_digest = sample_digest;
  trust = untrusted;
  classification = restricted;
  labels = "pii" ∷ "secret" ∷ [];
  lineage_ids = "lineage-1" ∷ [];
}

abbrev sample_statement : Statement
sample_statement = record {
  digest = sample_digest;
  trust = untrusted;
  signals = [];
  classification = restricted;
  labels = "pii" ∷ "secret" ∷ [];
  trace_id = none;
  field_taint = ("/a", sample_field) ∷ [];
}

abbrev sample_claims : Fields
sample_claims =
    claims_of "tenant" sample_statement "lineage-1" []
      (field "field_taint" (object (dump_fields sample_statement.field_taint)) end)

abbrev sample_payload : Fields
sample_payload =
    payload_of codec_runtime sample_service.signer "doc" "sentinelgate-provenance" 1 11 "jti-1"
      sample_claims

-- A runtime whose JSON texts are those of this token.
abbrev pub token_runtime : Runtime
token_runtime = record codec_runtime {
  dumps_compact = λ v. if is_token_header v then "h" else "p";
  loads = λ s.
      if s == "h"
      then some (object token_header)
      else if s == "p"
      then some (object sample_payload)
      else none;
  validate_field_taint = λ v. some sample_field;
}

abbrev pub sample_token : String
sample_token =
    with_signature token_runtime sample_service.signer
      (signed_text token_runtime sample_service.signer sample_payload)

token_CodecLaws : CodecLaws token_runtime
token_CodecLaws = record {
  b64decode-urlsafe_b64encode = codec_CodecLaws.b64decode-urlsafe_b64encode;
  rstrip-padding = codec_CodecLaws.rstrip-padding;
  rstrip-HasNo = codec_CodecLaws.rstrip-HasNo;
  parse_int-decimal = codec_CodecLaws.parse_int-decimal;
}

reads_header : ReadsBack token_runtime (object token_header)
unfolding ReadsBack is_token_header get_field is_text
reads_header = refl

abbrev token_payload : Fields
token_payload =
    payload_of token_runtime sample_service.signer "doc" "sentinelgate-provenance" 1 11 "jti-1"
      sample_claims

reads_payload : ReadsBack token_runtime (object token_payload)
unfolding ReadsBack is_token_header get_field is_text payload_of
reads_payload = refl

decode-issue_example :
    (issue token_runtime sample_service.signer "doc" "sentinelgate-provenance" 10 sample_claims 1
        "jti-1"
      >>= λ issued. decode token_runtime sample_service.signer issued.0 "sentinelgate-provenance" 5)
    ≡ (if any (has_key sample_claims) reserved
        then value_error "Custom claims cannot override reserved token claims"
        else if ltb 5 11
        then ok token_payload
        else token_error "Token expired")
decode-issue_example =
    decode-issue token_runtime sample_service.signer "doc" "sentinelgate-provenance" "jti-1" 10 1 5
      sample_claims token_CodecLaws reads_header reads_payload

sample_token-decodes :
    decode token_runtime sample_service.signer sample_token "sentinelgate-provenance" 1
    ≡ ok sample_payload
unfolding decode verified_parts with_signature signed_text encode decode_bytes rstrip padding
    padding_after split extend_first decode_split or_malformed checked_payload is_token_header
    is_text is_expired get_field payload_of claims_of dump_fields dump_taint string_items nullable
    trust_value classification_value
sample_token-decodes = refl

decode-accepts_example :
    IsSignedBy token_runtime sample_service.signer (split "." sample_token)
    × (is_text "gate" (get_field "iss" sample_payload) ≡ true)
    × (is_text "sentinelgate-provenance" (get_field "aud" sample_payload) ≡ true)
    × (is_expired token_runtime (get_field "exp" sample_payload) 1 ≡ false)
decode-accepts_example =
    decode-accepts token_runtime sample_service.signer sample_token "sentinelgate-provenance" 1
      sample_payload sample_token-decodes

abbrev pub sample_source : VerifiedProvenance
sample_source = record {
  source_id = "doc";
  content_digest = sample_digest;
  trust = untrusted;
  signals = [];
  classification = restricted;
  labels = "pii" ∷ "secret" ∷ [];
  lineage_id = some "lineage-1";
  trace_id = none;
  parent_ids = [];
  field_taint = ("/a", sample_field) ∷ [];
}

pub sample_token-verifies :
    verify_many token_runtime sample_service.signer (sample_token ∷ []) "tenant" 1
    ≡ ok (sample_source ∷ [])
unfolding verify_many verified_payload claimed_trust claimed_classification claimed_texts
    claimed_fields optional_claim required text_items parse_trust parse_classification is_truthy
    decode verified_parts with_signature signed_text encode decode_bytes rstrip padding
    padding_after split extend_first decode_split or_malformed checked_payload is_token_header
    is_text is_expired get_field payload_of claims_of dump_fields dump_taint string_items nullable
    trust_value classification_value
sample_token-verifies = refl
