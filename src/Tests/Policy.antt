-- ===== src/Tests/Policy.antt =====
-- The theorems on the policy and on the taint order, applied.
use sentinelgate.Prelude.{
  String, true, none, some, List, [], ◌∷◌, ◌≡◌, refl, ap, get_key, contains, is_empty, sorted_set,
  select, any, gather,
}
use sentinelgate.Json.{contains_oversized_string, get_field}
use sentinelgate.Models.{
  allow, parse_decision, decision_value, parse_classification, classification_value, FieldTaint,
  internal, trusted,
}
use sentinelgate.Policy.Config.{FieldPolicies, ToolPolicy, rules, rule, tool_config}
use sentinelgate.Policy.Verdict.{verdict, deny_with, action_decision}
use sentinelgate.Policy.Fields.{
  evaluate_field_policies, evaluate_rules, evaluate_entry, evaluate_rule, field_contexts,
  field_provenance_check, field_label_check, field_trust_check, field_limit_check,
  field_classification_check, matched_labels, context_labels,
}
use sentinelgate.Policy.FieldSpec.{FieldsAllowed, evaluate_field_policies-FieldsAllowed}
use sentinelgate.Policy.Evaluate.{
  evaluate, evaluate_tool, agent_check, scope_check, missing_scopes, length_check, pattern_check,
  is_blocked_argument, provenance_check, untrusted_check, signal_check, label_check, limit_check,
  classification_check, dlp_check, apply_effect, effect_result,
}
use sentinelgate.Policy.Allow.{IsAuthorized, evaluate_allow}
use sentinelgate.Taint.{
  classification_exceeds, max_from, classification_rank, highest_classification,
}
use sentinelgate.Tests.Data.{
  sample_runtime, sample_engine, sample_call, unknown_call, sample_principal, no_provenance,
}

pub sample_call-evaluated :
    evaluate sample_runtime sample_engine sample_call sample_principal no_provenance [] []
    ≡ verdict allow ("POLICY_EFFECT:allow" ∷ []) "high" "v1"
unfolding evaluate evaluate_tool tool_config agent_check scope_check missing_scopes length_check
    contains_oversized_string pattern_check is_blocked_argument provenance_check untrusted_check
    signal_check label_check limit_check classification_check dlp_check apply_effect effect_result
    get_field parse_decision decision_value parse_classification classification_value
    action_decision deny_with classification_exceeds classification_rank highest_classification
    max_from get_key contains is_empty sorted_set select any gather evaluate_field_policies
    evaluate_rules evaluate_entry evaluate_rule field_contexts field_provenance_check
    field_label_check field_trust_check field_limit_check field_classification_check matched_labels
    context_labels
sample_call-evaluated = refl

sample_call-granted :
    (evaluate sample_runtime sample_engine sample_call sample_principal no_provenance []
      []).decision
    ≡ allow
sample_call-granted = ap (λ e. e.decision) sample_call-evaluated

evaluate_allow_example :
    (t : ToolPolicy) × IsAuthorized sample_runtime sample_engine sample_call sample_principal
      no_provenance [] [] t
evaluate_allow_example =
    evaluate_allow sample_runtime sample_engine sample_call sample_principal no_provenance [] []
      sample_call-granted

unknown_call-unregistered : tool_config sample_engine unknown_call.tool_name ≡ none
unfolding tool_config get_key
unknown_call-unregistered = refl

-- One rule on one field, whose source has a label that it does not block.
abbrev one_rule : FieldPolicies
one_rule = rules (
    (
      "/to",
      rule (record {
        requires_provenance = some true;
        blocked_labels = "secret" ∷ [];
        action = none;
        deny_untrusted = true;
        max_classification = some "internal";
      }),
    )
    ∷ [])

abbrev one_field : List (String × List FieldTaint)
one_field =
    (
      "/to",
      record {
        content_digest = "digest";
        trust = trusted;
        classification = internal;
        labels = "contact" ∷ [];
        lineage_ids = [];
      }
          ∷ [],
    )
    ∷ []

one_rule-passes : evaluate_field_policies no_provenance one_field "high" "v1" one_rule ≡ none
unfolding evaluate_field_policies evaluate_rules evaluate_entry evaluate_rule field_contexts
    field_provenance_check field_label_check field_trust_check field_limit_check
    field_classification_check matched_labels context_labels parse_classification action_decision
    deny_with classification_exceeds classification_rank highest_classification max_from get_key
    contains is_empty sorted_set select any gather
one_rule-passes = refl

evaluate_field_policies-FieldsAllowed_example : FieldsAllowed no_provenance one_field one_rule
evaluate_field_policies-FieldsAllowed_example =
    evaluate_field_policies-FieldsAllowed no_provenance one_field "high" "v1" one_rule
      one_rule-passes
