-- ===== src/Provenance/Verify.antt =====
-- `verify_many` of src/sentinelgate/provenance.py.
use sentinelgate.Prelude.{
  ℕ, String, Bool, true, false, not, Option, none, some, List, [], ◌∷◌, ltb, ◌==◌, if◌then◌else◌,
}
use sentinelgate.Json.{
  Json, Fields, nil, cons, end, field, null, boolean, number, text, array, object, get_field,
}
use sentinelgate.Models.{
  DataClassification, public_data, TrustLevel, FieldTaint, VerifiedProvenance, parse_trust,
  parse_classification,
}
use sentinelgate.Runtime.{Runtime}
use sentinelgate.Identity.{
  TokenSigner, Answer, ok, token_error, ◌>>=◌, decode, is_text, required, text_items,
}

-- `TrustLevel(payload["trust"])`
unfoldable pub claimed_trust : Option Json → Answer TrustLevel
unfolding parse_trust
claimed_trust (some (text s)) = elim (parse_trust s) [
  | none ↦ token_error "Invalid provenance trust"
  | some t ↦ ok t
]
claimed_trust _ = token_error "Invalid provenance trust"

-- `DataClassification(payload.get("classification", ...))`
unfoldable pub claimed_classification : Option Json → Answer DataClassification
unfolding parse_classification
claimed_classification none = ok public_data
claimed_classification (some (text s)) = elim (parse_classification s) [
  | none ↦ token_error "Invalid provenance trust"
  | some c ↦ ok c
]
claimed_classification (some _) = token_error "Invalid provenance trust"

-- `payload.get(name, [])`, which has to be a list of texts
unfoldable pub claimed_texts : String → Option Json → Answer (List String)
unfolding text_items
claimed_texts message none = ok []
claimed_texts message (some (array xs)) = elim (text_items xs) [
  | none ↦ token_error message
  | some ss ↦ ok ss
]
claimed_texts message (some _) = token_error message

field_count : Fields → ℕ
field_count end = 0
field_count (field k v d) = ℕ.suc (field_count d)

module _ (runtime : Runtime) where
  validate_fields : Fields → Option (List (String × FieldTaint))
  validate_fields end = some []
  validate_fields (field pointer v d) = elim (runtime.validate_field_taint v) [
    | none ↦ none
    | some item ↦ elim (validate_fields d) [
      | none ↦ none
      | some items ↦ some ((pointer, item) ∷ items)
    ]
  ]

  -- `payload.get("field_taint", {})`
  unfoldable pub claimed_fields : Option Json → Answer (List (String × FieldTaint))
  unfolding validate_fields field_count
  claimed_fields none = ok []
  claimed_fields (some (object d)) =
      if ltb 1000 (field_count d)
      then token_error "Invalid field provenance"
      else elim (validate_fields d) [
        | none ↦ token_error "Invalid field provenance"
        | some items ↦ ok items
      ]
  claimed_fields (some _) = token_error "Invalid field provenance"

  -- Python's truth of a value
  unfoldable pub is_truthy : Json → Bool
  is_truthy null = false
  is_truthy (boolean b) = b
  is_truthy (number n) = not (runtime.is_zero n)
  is_truthy (text s) = not (s == "")
  is_truthy (array nil) = false
  is_truthy (array (cons x xs)) = true
  is_truthy (object end) = false
  is_truthy (object (field k v d)) = true

  -- `str(payload[name]) if payload.get(name) else None`
  unfoldable pub optional_claim : Option Json → Option String
  unfolding is_truthy
  optional_claim none = none
  optional_claim (some v) = if is_truthy v then some (as_text v) else none
    where
      as_text : Json → String
      as_text (text s) = s
      as_text v = runtime.str v

  unfoldable pub verified_payload : Fields → String → Answer VerifiedProvenance
  unfolding is_text claimed_trust claimed_classification claimed_texts claimed_fields optional_claim
      required
  verified_payload payload tenant_id =
      if not (is_text tenant_id (get_field "tenant_id" payload))
      then token_error "Provenance tenant mismatch"
      else do
        trust ← claimed_trust (get_field "trust" payload)
        classification ← claimed_classification (get_field "classification" payload)
        signals ← claimed_texts "Invalid provenance signals" (get_field "signals" payload)
        labels ← claimed_texts "Invalid provenance labels" (get_field "labels" payload)
        parent_ids ← claimed_texts "Invalid provenance parents" (get_field "parent_ids" payload)
        field_taint ← claimed_fields (get_field "field_taint" payload)
        source_id ← required runtime "sub" payload
        content_digest ← required runtime "digest" payload
        ok (record {
          source_id = source_id;
          content_digest = content_digest;
          trust = trust;
          signals = signals;
          classification = classification;
          labels = labels;
          lineage_id = optional_claim (get_field "lineage_id" payload);
          trace_id = optional_claim (get_field "trace_id" payload);
          parent_ids = parent_ids;
          field_taint = field_taint;
        })

  unfoldable pub verify_many :
      TokenSigner → List String → String → ℕ → Answer (List VerifiedProvenance)
  unfolding decode verified_payload
  verify_many signer [] tenant_id now = ok []
  verify_many signer (token ∷ tokens) tenant_id now = do
    payload ← decode runtime signer token "sentinelgate-provenance" now
    verified ← verified_payload payload tenant_id
    rest ← verify_many signer tokens tenant_id now
    ok (verified ∷ rest)
