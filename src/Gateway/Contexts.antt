-- ===== src/Gateway/Contexts.antt =====
-- The provenance that `GatewayService` of src/sentinelgate/service.py collects for a call:
-- `_provenance_contexts`, `_field_provenance_contexts` and `_all_provenance_contexts`. `none` is a
-- `TokenError`.
use sentinelgate.Prelude.{
  String, Bool, not, ◌&&◌, Option, none, some, get_or, List, [], ◌∷◌, ◌++◌, ◌==◌, map, ltb, length,
  any, select, gather, contains, sorted_set, truthy, get_key, set_key, cat, if◌then◌else◌,
}
use sentinelgate.Json.{Json}
use sentinelgate.Models.{
  AgentPrincipal, FieldTaint, FieldProvenanceReference, VerifiedProvenance, ToolCallRequest,
}
use sentinelgate.Taint.{highest_classification, least_trusted}
use sentinelgate.Policy.Config.{PolicyEngine}
use sentinelgate.Storage.Lineage.{TraceSummary, LineageRecord, trace_summary, recent_agent_lineage}
use sentinelgate.Gateway.World.{World, Services}

-- `item.trace_id and item.trace_id != call.trace_id`
unfoldable pub is_foreign : String → VerifiedProvenance → Bool
is_foreign trace_id item = truthy item.trace_id && not (get_or item.trace_id "" == trace_id)

-- What the trace has carried so far.
unfoldable pub trace_context : String → Option TraceSummary → List VerifiedProvenance
trace_context trace_id none = []
trace_context trace_id (some summary) =
    record {
      source_id = cat "trace:" trace_id;
      content_digest = "trace-aggregate";
      trust = summary.trust;
      signals = [];
      classification = summary.classification;
      labels = summary.labels;
      lineage_id = none;
      trace_id = some trace_id;
      parent_ids = [];
      field_taint = [];
    }
    ∷ []

-- What the agent has seen lately in its other traces.
unfoldable pub window_context : String → List LineageRecord → List VerifiedProvenance
window_context agent_id [] = []
window_context agent_id (x ∷ xs) =
    let other_traces = x ∷ xs in
    record {
      source_id = cat "agent-window:" agent_id;
      content_digest = "agent-window-aggregate";
      trust = least_trusted (map (λ item. item.trust) other_traces);
      signals = [];
      classification = highest_classification (map (λ item. item.classification) other_traces);
      labels = sorted_set (gather (λ item. item.labels) other_traces);
      lineage_id = none;
      trace_id = none;
      parent_ids = [];
      field_taint = [];
    }
    ∷ []

module _ (services : Services) (engine : PolicyEngine) (call : ToolCallRequest)
    (principal : AgentPrincipal) (w : World) where
  -- the lineage of the agent in other traces, in the window
  unfoldable pub other_traces : List LineageRecord
  other_traces =
      select (λ item. not (item.trace_id == call.trace_id))
        (recent_agent_lineage principal.tenant_id principal.agent_id
          (get_or engine.defaults.cross_trace_taint_window_seconds 900) w.now w.lineage)

  -- The contexts that the store adds to the verified tokens.
  unfoldable pub stored_contexts : List VerifiedProvenance
  unfolding trace_context window_context other_traces
  stored_contexts =
      trace_context call.trace_id
        (trace_summary principal.tenant_id principal.agent_id call.trace_id w.lineage)
      ++ window_context principal.agent_id other_traces

  unfoldable pub provenance_contexts : Option (List VerifiedProvenance)
  unfolding is_foreign
  provenance_contexts =
      elim (services.verify_many w.now call.provenance_tokens principal.tenant_id) [
        | none ↦ none
        | some contexts ↦
            if any (is_foreign call.trace_id) contexts
            then none
            else some (contexts ++ stored_contexts)
      ]

  -- The signed field that a reference names, if its digest is that of the destination's value.
  unfoldable pub bound_field :
      Json → FieldProvenanceReference → VerifiedProvenance → Option FieldTaint
  unfolding is_foreign
  bound_field value reference verified =
      if is_foreign call.trace_id verified
      then none
      else elim (get_key reference.source_pointer verified.field_taint) [
        | none ↦ none
        | some taint ↦
            if taint.content_digest == services.value_digest value then some taint else none
      ]

  -- `verify_many([token])[0]`, and the field's checks. A token that was verified before in the same
  -- call is taken from a cache, which answers the same.
  unfoldable pub verified_field : Json → FieldProvenanceReference → Option FieldTaint
  unfolding bound_field
  verified_field value reference =
      elim (services.verify_many w.now (reference.token ∷ []) principal.tenant_id) [
        | none ↦ none
        | some [] ↦ none
        | some (verified ∷ _) ↦ bound_field value reference verified
      ]

  -- `result.setdefault(destination, []).append(field)` for each reference
  unfoldable pub bind_references :
      String
      → Json
      → List FieldProvenanceReference
      → List (String × List FieldTaint)
      → Option (List (String × List FieldTaint))
  unfolding verified_field
  bind_references destination value [] result = some result
  bind_references destination value (reference ∷ references) result =
      elim (verified_field value reference) [
        | none ↦ none
        | some taint ↦
            bind_references destination value references
              (set_key destination (get_or (get_key destination result) [] ++ taint ∷ []) result)
      ]

  unfoldable pub bind_fields :
      List (String × List FieldProvenanceReference)
      → List (String × List FieldTaint)
      → Option (List (String × List FieldTaint))
  unfolding bind_references
  bind_fields [] result = some result
  bind_fields ((destination, references) ∷ rest) result =
      if ltb 20 (length references)
      then none
      else elim (services.resolve_pointer call.arguments destination) [
        | none ↦ none
        | some value ↦ elim (bind_references destination value references result) [
          | none ↦ none
          | some after ↦ bind_fields rest after
        ]
      ]

  unfoldable pub field_provenance_contexts : Option (List (String × List FieldTaint))
  unfolding bind_fields
  field_provenance_contexts =
      if ltb 200 (length call.field_provenance) then none else bind_fields call.field_provenance []

  -- The two of them, as the `try` of `evaluate` and of `execute_approved` has them.
  unfoldable pub call_contexts : Option (List VerifiedProvenance × List (String × List FieldTaint))
  unfolding provenance_contexts field_provenance_contexts
  call_contexts = elim provenance_contexts [
    | none ↦ none
    | some contexts ↦ elim field_provenance_contexts [
      | none ↦ none
      | some fields ↦ some (contexts, fields)
    ]
  ]

  -- Those items are added whose digest is not there yet.
  unfoldable pub add_new :
      List VerifiedProvenance → List VerifiedProvenance → List VerifiedProvenance
  add_new contexts [] = contexts
  add_new contexts (item ∷ items) =
      if contains item.content_digest (map (λ c. c.content_digest) contexts)
      then add_new contexts items
      else add_new (contexts ++ item ∷ []) items

  -- The tokens of the fields' references.
  unfoldable pub field_tokens : List String
  field_tokens =
      sorted_set (gather (λ b. map (λ reference. reference.token) b.1) call.field_provenance)

  unfoldable pub all_provenance_contexts : Option (List VerifiedProvenance)
  unfolding provenance_contexts add_new field_tokens
  all_provenance_contexts = elim provenance_contexts [
    | none ↦ none
    | some contexts ↦ elim (services.verify_many w.now field_tokens principal.tenant_id) [
      | none ↦ none
      | some items ↦ some (add_new contexts items)
    ]
  ]
