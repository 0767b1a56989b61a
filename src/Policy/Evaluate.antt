-- ===== src/Policy/Evaluate.antt =====
-- `PolicyEngine.evaluate` of src/sentinelgate/policy.py, one function for each early return, in the
-- order of the source.
use sentinelgate.Prelude.{
  ℕ, String, Bool, true, false, ◌&&◌, not, Option, none, some, List, [], ◌∷◌, ◌++◌, map, gather,
  any, select, contains, sorted_set, is_empty, truthy, cat, get_or, ◌==◌, if◌then◌else◌,
}
use sentinelgate.Json.{Fields, text, object, get_field, contains_oversized_string}
use sentinelgate.Runtime.{Runtime}
use sentinelgate.Models.{
  Decision, deny, require_approval, decision_value, parse_decision, TrustLevel, mixed,
  DataClassification, classification_value, parse_classification, AgentPrincipal, FieldTaint,
  VerifiedProvenance, ToolCallRequest, SecurityFinding, Evaluation,
}
use sentinelgate.Taint.{highest_classification, classification_exceeds}
use sentinelgate.Policy.Config.{ToolPolicy, PolicyEngine, tool_config}
use sentinelgate.Policy.Verdict.{deny_with, verdict, action_decision, ◌otherwise◌}
use sentinelgate.Policy.Fields.{is_untrusted, matched_labels, evaluate_field_policies}

-- `str(tool.get("risk", "high"))`
abbrev pub tool_risk : ToolPolicy → String
tool_risk t = get_or t.risk "high"

abbrev pub is_mixed : TrustLevel → Bool
is_mixed mixed = true
is_mixed _ = false

module _ (version : String) (t : ToolPolicy) where
  unfoldable pub agent_check : AgentPrincipal → Option Evaluation
  agent_check principal =
      if contains principal.agent_id t.allowed_agents
      then none
      else some (deny_with "AGENT_NOT_AUTHORIZED" (tool_risk t) version)

  -- `sorted(required_scopes - set(principal.scopes))`
  unfoldable pub missing_scopes : AgentPrincipal → List String
  missing_scopes principal =
      sorted_set (select (λ s. not (contains s principal.scopes)) t.required_scopes)

  unfoldable pub scope_check : AgentPrincipal → Option Evaluation
  unfolding missing_scopes
  scope_check principal =
      let missing = missing_scopes principal in
      if is_empty missing
      then none
      else some (verdict deny (map (cat "MISSING_SCOPE:") missing) (tool_risk t) version)

  unfoldable pub length_check : ℕ → Fields → Option Evaluation
  length_check default_length arguments =
      if contains_oversized_string (object arguments) (get_or t.max_string_length default_length)
      then some (deny_with "ARGUMENT_TOO_LARGE" (tool_risk t) version)
      else none

  -- `str(call.arguments.get(field, ""))` matches one of the patterns
  unfoldable pub is_blocked_argument : Runtime → Fields → String × List String → Bool
  is_blocked_argument runtime arguments (name, patterns) =
      let value = runtime.str (get_or (get_field name arguments) (text "")) in
      any (λ p. runtime.fnmatch (runtime.casefold value) (runtime.casefold p)) patterns

  unfoldable pub pattern_check : Runtime → Fields → Option Evaluation
  unfolding is_blocked_argument
  pattern_check runtime arguments =
      let blocked = select (is_blocked_argument runtime arguments) t.blocked_argument_patterns in
      if is_empty blocked
      then none
      else some
          (verdict deny (map (λ f. cat "BLOCKED_ARGUMENT:" f.0) blocked) (tool_risk t) version)

  unfoldable pub provenance_check :
      List VerifiedProvenance → List (String × List FieldTaint) → Option Evaluation
  provenance_check provenance field_provenance =
      if t.requires_provenance && is_empty provenance && is_empty field_provenance
      then some (deny_with "MISSING_PROVENANCE" (tool_risk t) version)
      else none

  unfoldable pub untrusted_check : List VerifiedProvenance → Option Evaluation
  untrusted_check provenance =
      if t.sensitive && any (λ item. is_untrusted item.trust) provenance
      then some (deny_with "UNTRUSTED_SOURCE_TO_SENSITIVE_TOOL" (tool_risk t) version)
      else none

  unfoldable pub signal_check : List VerifiedProvenance → Option Evaluation
  signal_check provenance =
      if t.sensitive && any (λ item. not (is_empty item.signals)) provenance
      then some (
          verdict deny
            ("PROMPT_INJECTION_SIGNAL"
              ∷ map (cat "SIGNAL:") (sorted_set (gather (λ item. item.signals) provenance)))
            (tool_risk t) version)
      else none

  unfoldable pub label_check : List VerifiedProvenance → Option Evaluation
  label_check provenance =
      let matched =
        matched_labels (gather (λ item. item.labels) provenance) t.blocked_taint_labels in
      if is_empty matched
      then none
      else some (verdict deny (map (cat "TAINT_LABEL:") matched) "critical" version)

  unfoldable pub limit_check :
      List VerifiedProvenance → Option DataClassification → Option Evaluation
  limit_check provenance none =
      some (deny_with "INVALID_MAX_INPUT_CLASSIFICATION" "critical" version)
  limit_check provenance (some maximum) =
      let actual = highest_classification (map (λ item. item.classification) provenance) in
      if classification_exceeds actual maximum
      then some (
          verdict (action_decision (get_or t.classification_violation_action "deny"))
            ("CLASSIFICATION_FLOW_BLOCKED"
              ∷ cat "CLASSIFICATION:" (classification_value actual)
              ∷ cat "MAX_ALLOWED:" (classification_value maximum)
              ∷ [])
            "critical" version)
      else none

  unfoldable pub classification_check : List VerifiedProvenance → Option Evaluation
  unfolding limit_check
  classification_check provenance =
      if truthy t.max_input_classification && not (is_empty provenance)
      then limit_check provenance (parse_classification (get_or t.max_input_classification ""))
      else none

  -- `sorted({f"DLP:{finding.code}" for finding in findings})`
  unfoldable pub dlp_check : List SecurityFinding → Option Evaluation
  dlp_check findings =
      let codes = sorted_set (map (λ f. cat "DLP:" f.code) findings) in
      if not (is_empty findings) && t.egress
      then some (
          if get_or t.dlp_action "require_approval" == "deny"
          then verdict deny codes "critical" version
          else verdict require_approval codes (tool_risk t) version)
      else none

  unfoldable pub apply_effect : List VerifiedProvenance → Option Decision → Evaluation
  apply_effect provenance none = deny_with "INVALID_POLICY_EFFECT" (tool_risk t) version
  apply_effect provenance (some effect) =
      let reasons = cat "POLICY_EFFECT:" (decision_value effect) ∷ [] in
      if t.sensitive && any (λ item. is_mixed item.trust) provenance
      then verdict require_approval (reasons ++ "MIXED_TRUST_REQUIRES_APPROVAL" ∷ []) (tool_risk t)
          version
      else verdict effect reasons (tool_risk t) version

  unfoldable pub effect_result : List VerifiedProvenance → Evaluation
  unfolding apply_effect
  effect_result provenance = apply_effect provenance (parse_decision (get_or t.effect "deny"))

module _ (runtime : Runtime) (engine : PolicyEngine) (call : ToolCallRequest)
    (principal : AgentPrincipal) (provenance : List VerifiedProvenance)
    (findings : List SecurityFinding) (field_provenance : List (String × List FieldTaint)) where
  unfoldable pub evaluate_tool : ToolPolicy → Evaluation
  evaluate_tool t =
      let version = engine.version in
      agent_check version t principal
      otherwise scope_check version t principal
      otherwise length_check version t (get_or engine.defaults.max_string_length 10000)
          call.arguments
      otherwise pattern_check version t runtime call.arguments
      otherwise provenance_check version t provenance field_provenance
      otherwise untrusted_check version t provenance
      otherwise signal_check version t provenance
      otherwise evaluate_field_policies provenance field_provenance (tool_risk t) version
          t.field_policies
      otherwise label_check version t provenance
      otherwise classification_check version t provenance
      otherwise dlp_check version t findings
      otherwise effect_result version t provenance

  unfoldable pub evaluate : Evaluation
  unfolding evaluate_tool
  evaluate = elim (tool_config engine call.tool_name) [
    | none ↦ deny_with "UNKNOWN_TOOL" "critical" engine.version
    | some t ↦ evaluate_tool t
  ]
