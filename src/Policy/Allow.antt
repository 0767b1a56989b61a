-- ===== src/Policy/Allow.antt =====
-- `evaluate` of policy.py: what a granted call satisfies.
use sentinelgate.Prelude.{
  ◌≤◌, String, ◌≡◌, true, false, ◌&&◌, not, none, some, List, [], arith, contains, is_empty, truthy,
  get_or, All, All-zip, Option-cases, inl, inr,
}
use sentinelgate.Json.{object, contains_oversized_string}
use sentinelgate.Runtime.{Runtime}
use sentinelgate.Models.{
  allow, parse_decision, trusted, DataClassification, parse_classification, AgentPrincipal,
  FieldTaint, VerifiedProvenance, ToolCallRequest, SecurityFinding,
}
use sentinelgate.Taint.{classification_rank}
use sentinelgate.Policy.Config.{ToolPolicy, PolicyEngine, tool_config}
use sentinelgate.Policy.Verdict.{deny_with, otherwise_allow}
use sentinelgate.Policy.FieldSpec.{
  FieldsAllowed, evaluate_field_policies-NeverAllows, evaluate_field_policies-FieldsAllowed,
}
use sentinelgate.Policy.Checks.{trusted_of_neither}
use sentinelgate.Policy.Evaluate.{is_blocked_argument, evaluate_tool, evaluate}
use sentinelgate.Policy.Passed.{
  agent_check-NeverAllows, agent_check-none, scope_check-NeverAllows, scope_check-none,
  length_check-NeverAllows, length_check-none, pattern_check-NeverAllows, pattern_check-none,
  taint_checks-NeverAllow, provenance_check-NeverAllows, provenance_check-none,
  untrusted_check-none, signal_check-none, label_check-none, classification_check-NeverAllows,
  classification_check-none, dlp_check-NeverAllows, dlp_check-none, effect_result-allow,
}

-- All that a tool's policy asks of a call before it grants it.
pub record IsAuthorized (runtime : Runtime) (engine : PolicyEngine) (call : ToolCallRequest)
    (principal : AgentPrincipal) (provenance : List VerifiedProvenance)
    (findings : List SecurityFinding) (field_provenance : List (String × List FieldTaint))
    (t : ToolPolicy) : Type 0 where
  pub registered : tool_config engine call.tool_name ≡ some t
  pub agent : contains principal.agent_id t.allowed_agents ≡ true
  pub scopes : All (λ s. not (contains s principal.scopes) ≡ false) t.required_scopes
  pub lengths :
      contains_oversized_string
        (object call.arguments)
        (get_or t.max_string_length (get_or engine.defaults.max_string_length 10000))
      ≡ false
  pub patterns :
      All
        (λ f. is_blocked_argument engine.version t runtime call.arguments f ≡ false)
        t.blocked_argument_patterns
  pub evidence :
      t.requires_provenance ≡ true → (is_empty provenance && is_empty field_provenance) ≡ false
  pub trust : t.sensitive ≡ true → All (λ item. item.trust ≡ trusted) provenance
  pub signals : t.sensitive ≡ true → All (λ item. item.signals ≡ []) provenance
  pub fields : FieldsAllowed provenance field_provenance t.field_policies
  pub labels :
      All (λ item. All (λ l. contains l t.blocked_taint_labels ≡ false) item.labels) provenance
  pub classification :
      truthy t.max_input_classification ≡ true
      → is_empty provenance ≡ false
      → (limit : DataClassification) × (parse_classification (get_or t.max_input_classification "")
          ≡ some limit)
        × All
            (λ item. classification_rank item.classification ≤ classification_rank limit)
            provenance
  pub leaks : t.egress ≡ true → findings ≡ []
  pub effect : parse_decision (get_or t.effect "deny") ≡ some allow

module _ (runtime : Runtime) (engine : PolicyEngine) (call : ToolCallRequest)
    (principal : AgentPrincipal) (provenance : List VerifiedProvenance)
    (findings : List SecurityFinding) (field_provenance : List (String × List FieldTaint)) where
  evaluate_tool-IsAuthorized :
      (t : ToolPolicy)
      → tool_config engine call.tool_name ≡ some t
      → (evaluate_tool runtime engine call principal provenance findings field_provenance
          t).decision
        ≡ allow
      → IsAuthorized runtime engine call principal provenance findings field_provenance t
  unfolding evaluate_tool
  evaluate_tool-IsAuthorized t found h =
      let v = engine.version in
      let (tainted1, tainted2, tainted3) = taint_checks-NeverAllow v t provenance in
      let (c1, h1) = otherwise_allow _ _ (agent_check-NeverAllows v t principal) h in
      let (c2, h2) = otherwise_allow _ _ (scope_check-NeverAllows v t principal) h1 in
      let (c3, h3) = otherwise_allow _ _ (length_check-NeverAllows v t _ call.arguments) h2 in
      let (c4, h4) =
        otherwise_allow _ _ (pattern_check-NeverAllows v t runtime call.arguments) h3 in
      let (c5, h5) =
        otherwise_allow _ _ (provenance_check-NeverAllows v t provenance field_provenance) h4 in
      let (c6, h6) = otherwise_allow _ _ tainted1 h5 in
      let (c7, h7) = otherwise_allow _ _ tainted2 h6 in
      let (c8, h8) =
        otherwise_allow _ _
          (evaluate_field_policies-NeverAllows provenance field_provenance _ v t.field_policies)
          h7 in
      let (c9, h9) = otherwise_allow _ _ tainted3 h8 in
      let (c10, h10) = otherwise_allow _ _ (classification_check-NeverAllows v t provenance) h9 in
      let (c11, h11) = otherwise_allow _ _ (dlp_check-NeverAllows v t provenance findings) h10 in
      let (granted, unmixed) = effect_result-allow v t provenance h11 in
      record {
        registered = found;
        agent = agent_check-none v t principal c1;
        scopes = scope_check-none v t principal c2;
        lengths = length_check-none v t _ call.arguments c3;
        patterns = pattern_check-none v t runtime call.arguments c4;
        evidence = provenance_check-none v t provenance field_provenance c5;
        trust = λ e.
            All-zip provenance (λ item. trusted_of_neither item.trust)
              (untrusted_check-none v t provenance c6 e) (unmixed e);
        signals = signal_check-none v t provenance c7;
        fields = evaluate_field_policies-FieldsAllowed provenance field_provenance _ v _ c8;
        labels = label_check-none v t provenance c9;
        classification = classification_check-none v t provenance c10;
        leaks = dlp_check-none v t provenance findings c11;
        effect = granted;
      }

  evaluate-unknown_tool :
      tool_config engine call.tool_name ≡ none
      → evaluate runtime engine call principal provenance findings field_provenance
        ≡ deny_with "UNKNOWN_TOOL" "critical" engine.version
  unfolding evaluate
  evaluate-unknown_tool unknown = rw (unknown, evaluate)

  -- A call is granted only if its tool is registered, the agent is on the tool's list with every
  -- required scope, no argument is too long or matches a blocked pattern, the required evidence is
  -- there, a sensitive tool has trusted sources without injection signals alone, every field rule is
  -- satisfied, no source has a blocked label or a classification over the tool's limit, an egress
  -- tool has no leak finding, and the policy's effect is `allow`.
  pub evaluate_allow :
      (evaluate runtime engine call principal provenance findings field_provenance).decision ≡ allow
      → (t : ToolPolicy) × IsAuthorized runtime engine call principal provenance findings
          field_provenance t
  unfolding evaluate
  evaluate_allow h = elim (Option-cases (tool_config engine call.tool_name)) [
    | inl unknown ↦ unfold deny_with in ground (arith, evaluate-unknown_tool unknown)
    | inr (t, found) ↦ (t, evaluate_tool-IsAuthorized t found (rw (found, evaluate) at h))
  ]
