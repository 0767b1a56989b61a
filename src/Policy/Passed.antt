-- ===== src/Policy/Passed.antt =====
-- policy.py: the early returns of `evaluate`, one by one.
use sentinelgate.Prelude.{
  ℕ, ◌≤◌, String, ◌≡◌, refl, true, false, ◌&&◌, not, Option, none, some, List, [], gather, arith,
  select, contains, is_empty, truthy, get_or, All, All-weaken, All-gather, All-map, any-false,
  is_empty-select, is_empty-sorted_set, eq_nil,
}
use sentinelgate.Json.{Fields, object, contains_oversized_string}
use sentinelgate.Runtime.{Runtime}
use sentinelgate.Models.{
  Decision, allow, parse_decision, DataClassification, parse_classification, AgentPrincipal,
  FieldTaint, VerifiedProvenance, SecurityFinding,
}
use sentinelgate.Taint.{classification_rank}
use sentinelgate.Policy.Config.{ToolPolicy}
use sentinelgate.Policy.Verdict.{deny_with, NeverAllows}
use sentinelgate.Policy.Fields.{is_untrusted}
use sentinelgate.Policy.Checks.{
  action_decision-ne-allow, matched_labels_none, within_limit, signals_none,
}
use sentinelgate.Policy.Evaluate.{
  is_mixed, agent_check, missing_scopes, scope_check, length_check, is_blocked_argument,
  pattern_check, provenance_check, untrusted_check, signal_check, label_check, limit_check,
  classification_check, dlp_check, apply_effect, effect_result,
}

module _ (version : String) (t : ToolPolicy) where
  pub agent_check-NeverAllows :
      (principal : AgentPrincipal) → NeverAllows (agent_check version t principal)
  unfolding agent_check deny_with
  agent_check-NeverAllows principal = ground arith

  pub agent_check-none :
      (principal : AgentPrincipal)
      → agent_check version t principal ≡ none
      → contains principal.agent_id t.allowed_agents ≡ true
  unfolding agent_check
  agent_check-none principal h = ground arith

  pub scope_check-NeverAllows :
      (principal : AgentPrincipal) → NeverAllows (scope_check version t principal)
  unfolding scope_check
  scope_check-NeverAllows principal = ground arith

  pub scope_check-none :
      (principal : AgentPrincipal)
      → scope_check version t principal ≡ none
      → All (λ s. not (contains s principal.scopes) ≡ false) t.required_scopes
  unfolding scope_check missing_scopes
  scope_check-none principal h =
      let missing = select (λ s. not (contains s principal.scopes)) t.required_scopes in
      any-false _ t.required_scopes (
        ground (
          arith,
          is_empty-sorted_set missing,
          is_empty-select (λ s. not (contains s principal.scopes)) t.required_scopes,
        ))

  pub length_check-NeverAllows :
      (n : ℕ) (arguments : Fields) → NeverAllows (length_check version t n arguments)
  unfolding length_check deny_with
  length_check-NeverAllows n arguments = ground arith

  pub length_check-none :
      (n : ℕ) (arguments : Fields)
      → length_check version t n arguments ≡ none
      → contains_oversized_string (object arguments) (get_or t.max_string_length n) ≡ false
  unfolding length_check
  length_check-none n arguments h = ground arith

  pub pattern_check-NeverAllows :
      (runtime : Runtime) (arguments : Fields)
      → NeverAllows (pattern_check version t runtime arguments)
  unfolding pattern_check
  pattern_check-NeverAllows runtime arguments = ground arith

  pub pattern_check-none :
      (runtime : Runtime) (arguments : Fields)
      → pattern_check version t runtime arguments ≡ none
      → All
          (λ f. is_blocked_argument version t runtime arguments f ≡ false)
          t.blocked_argument_patterns
  unfolding pattern_check
  pattern_check-none runtime arguments h = any-false _ t.blocked_argument_patterns (
      ground (
        arith,
        is_empty-select (is_blocked_argument version t runtime arguments)
            t.blocked_argument_patterns,
      ))

module _ (version : String) (t : ToolPolicy) (provenance : List VerifiedProvenance) where
  pub taint_checks-NeverAllow :
      NeverAllows (untrusted_check version t provenance)
      × NeverAllows (signal_check version t provenance)
      × NeverAllows (label_check version t provenance)
  unfolding untrusted_check signal_check label_check deny_with
  taint_checks-NeverAllow = (ground arith, ground arith, ground arith)

  pub provenance_check-NeverAllows :
      (fields : List (String × List FieldTaint))
      → NeverAllows (provenance_check version t provenance fields)
  unfolding provenance_check deny_with
  provenance_check-NeverAllows fields = ground arith

  pub provenance_check-none :
      (fields : List (String × List FieldTaint))
      → provenance_check version t provenance fields ≡ none
      → t.requires_provenance ≡ true
      → (is_empty provenance && is_empty fields) ≡ false
  unfolding provenance_check
  provenance_check-none fields h e = ground arith

  pub untrusted_check-none :
      untrusted_check version t provenance ≡ none
      → t.sensitive ≡ true
      → All (λ item. is_untrusted item.trust ≡ false) provenance
  unfolding untrusted_check
  untrusted_check-none h e = any-false _ provenance (ground arith)

  pub signal_check-none :
      signal_check version t provenance ≡ none
      → t.sensitive ≡ true
      → All (λ item. item.signals ≡ []) provenance
  unfolding signal_check
  signal_check-none h e =
      All-weaken provenance (λ item. signals_none item.signals)
        (any-false _ provenance (ground arith))

  pub label_check-none :
      label_check version t provenance ≡ none
      → All (λ item. All (λ l. contains l t.blocked_taint_labels ≡ false) item.labels) provenance
  unfolding label_check
  label_check-none h =
      All-gather _ (λ item. item.labels) provenance
        (matched_labels_none (gather (λ item. item.labels) provenance) t.blocked_taint_labels
          (ground arith))

  pub limit_check-NeverAllows :
      (limit : Option DataClassification) → NeverAllows (limit_check version t provenance limit)
  unfolding limit_check deny_with
  limit_check-NeverAllows none = ground arith
  limit_check-NeverAllows (some l) =
      ground (arith, action_decision-ne-allow (get_or t.classification_violation_action "deny"))

  pub limit_check-none :
      (limit : Option DataClassification)
      → limit_check version t provenance limit ≡ none
      → (l : DataClassification) × (limit ≡ some l)
        × All (λ item. classification_rank item.classification ≤ classification_rank l) provenance
  unfolding limit_check
  limit_check-none none h = ground arith
  limit_check-none (some l) h = (
    l,
    refl,
    All-map _ (λ item. item.classification) provenance (within_limit l _ (ground arith)),
  )

  pub classification_check-NeverAllows : NeverAllows (classification_check version t provenance)
  unfolding classification_check
  classification_check-NeverAllows =
      ground (
        arith,
        limit_check-NeverAllows (parse_classification (get_or t.max_input_classification "")),
      )

  pub classification_check-none :
      classification_check version t provenance ≡ none
      → truthy t.max_input_classification ≡ true
      → is_empty provenance ≡ false
      → (limit : DataClassification) × (parse_classification (get_or t.max_input_classification "")
          ≡ some limit)
        × All
            (λ item. classification_rank item.classification ≤ classification_rank limit)
            provenance
  unfolding classification_check
  classification_check-none h given bound =
      limit_check-none (parse_classification (get_or t.max_input_classification ""))
        (rw (given, bound) at h)

  pub dlp_check-NeverAllows :
      (findings : List SecurityFinding) → NeverAllows (dlp_check version t findings)
  unfolding dlp_check
  dlp_check-NeverAllows findings = ground arith

  pub dlp_check-none :
      (findings : List SecurityFinding)
      → dlp_check version t findings ≡ none
      → t.egress ≡ true
      → findings ≡ []
  unfolding dlp_check
  dlp_check-none findings h e = eq_nil findings (ground arith)

  apply_effect-allow :
      (effect : Option Decision)
      → (apply_effect version t provenance effect).decision ≡ allow
      → (effect ≡ some allow)
        × (t.sensitive ≡ true → All (λ item. is_mixed item.trust ≡ false) provenance)
  unfolding apply_effect deny_with
  apply_effect-allow none h = ground arith
  apply_effect-allow (some effect) h = (ground arith, λ e. any-false _ provenance (ground arith))

  pub effect_result-allow :
      (effect_result version t provenance).decision ≡ allow
      → (parse_decision (get_or t.effect "deny") ≡ some allow)
        × (t.sensitive ≡ true → All (λ item. is_mixed item.trust ≡ false) provenance)
  unfolding effect_result
  effect_result-allow = apply_effect-allow (parse_decision (get_or t.effect "deny"))
