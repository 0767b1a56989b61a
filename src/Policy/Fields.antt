-- ===== src/Policy/Fields.antt =====
-- `PolicyEngine._evaluate_field_policies` of src/sentinelgate/policy.py: the rules for single
-- argument fields.
use sentinelgate.Prelude.{
  String, Bool, true, false, ◌&&◌, not, Option, none, some, List, [], ◌∷◌, map, gather, any, select,
  contains, sorted_set, is_empty, truthy, cat, get_key, get_or, if◌then◌else◌,
}
use sentinelgate.Models.{
  TrustLevel, untrusted, DataClassification, classification_value, parse_classification, FieldTaint,
  VerifiedProvenance, Evaluation,
}
use sentinelgate.Taint.{highest_classification, classification_exceeds}
use sentinelgate.Policy.Config.{
  FieldRule, RuleEntry, not_a_rule, rule, FieldPolicies, not_an_object, rules,
}
use sentinelgate.Policy.Verdict.{deny_with, verdict, action_decision}

-- `item.trust is TrustLevel.UNTRUSTED`
abbrev pub is_untrusted : TrustLevel → Bool
is_untrusted untrusted = true
is_untrusted _ = false

zero_digest : String
zero_digest = "0000000000000000000000000000000000000000000000000000000000000000"

-- `[item.lineage_id] if item.lineage_id else []`
lineage_list : Option String → List String
lineage_list none = []
lineage_list (some l) = if truthy (some l) then l ∷ [] else []

inherited_context : VerifiedProvenance → FieldTaint
unfolding lineage_list zero_digest
inherited_context item = record {
  content_digest = zero_digest;
  trust = item.trust;
  classification = item.classification;
  labels = item.labels;
  lineage_ids = lineage_list item.lineage_id;
}

-- The sources of a field: those bound to it, or else all of the call's.
unfoldable pub field_contexts :
    String → List VerifiedProvenance → List (String × List FieldTaint) → List FieldTaint
unfolding inherited_context
field_contexts pointer provenance field_provenance =
    let bound = get_or (get_key pointer field_provenance) [] in
    if is_empty bound && not (is_empty provenance) then map inherited_context provenance else bound

-- `sorted(labels & blocked)` over the labels of several sources
unfoldable pub matched_labels : List String → List String → List String
matched_labels labels blocked = sorted_set (select (λ l. contains l blocked) labels)

unfoldable pub context_labels : List FieldTaint → List String
context_labels = gather (λ item. item.labels)

module _ (pointer risk version : String) (r : FieldRule) (contexts : List FieldTaint) where
  unfoldable pub field_provenance_check : Option Evaluation
  field_provenance_check =
      if get_or r.requires_provenance true && is_empty contexts
      then some (deny_with (cat "FIELD_MISSING_PROVENANCE:" pointer) risk version)
      else none

  unfoldable pub field_label_check : Option Evaluation
  field_label_check =
      let matched = matched_labels (context_labels contexts) r.blocked_labels in
      if not (is_empty matched)
      then some (
          verdict (action_decision (get_or r.action "deny"))
            (map (λ l. cat "FIELD_TAINT_LABEL:" (cat pointer (cat ":" l))) matched) "critical"
            version)
      else none

  unfoldable pub field_trust_check : Option Evaluation
  field_trust_check =
      if r.deny_untrusted && any (λ item. is_untrusted item.trust) contexts
      then some (deny_with (cat "FIELD_UNTRUSTED:" pointer) risk version)
      else none

  unfoldable pub field_limit_check : Option DataClassification → Option Evaluation
  field_limit_check none = some (deny_with "INVALID_FIELD_MAX_CLASSIFICATION" "critical" version)
  field_limit_check (some limit) =
      let actual = highest_classification (map (λ item. item.classification) contexts) in
      if classification_exceeds actual limit
      then some (
          verdict (action_decision (get_or r.action "deny"))
            (cat "FIELD_CLASSIFICATION_BLOCKED:" pointer
              ∷ cat "CLASSIFICATION:" (classification_value actual)
              ∷ cat "MAX_ALLOWED:" (classification_value limit)
              ∷ [])
            "critical" version)
      else none

  unfoldable pub field_classification_check : Option Evaluation
  unfolding field_limit_check
  field_classification_check =
      if truthy r.max_classification && not (is_empty contexts)
      then field_limit_check (parse_classification (get_or r.max_classification ""))
      else none

-- the first early return of two checks
infixr 25 ◌then_check◌
abbrev pub ◌then_check◌ : Option Evaluation → Option Evaluation → Option Evaluation
none then_check next = next
some e then_check next = some e

unfoldable pub evaluate_rule :
    String → String → String → FieldRule → List FieldTaint → Option Evaluation
evaluate_rule pointer risk version r contexts =
    field_provenance_check pointer risk version r contexts
    then_check field_label_check pointer risk version r contexts
    then_check field_trust_check pointer risk version r contexts
    then_check field_classification_check pointer risk version r contexts

module _ (provenance : List VerifiedProvenance) (field_provenance : List (String × List FieldTaint))
    (risk version : String) where
  unfoldable pub evaluate_entry : String → RuleEntry → Option Evaluation
  evaluate_entry pointer not_a_rule = some (deny_with "INVALID_FIELD_POLICY" "critical" version)
  evaluate_entry pointer (rule r) =
      evaluate_rule pointer risk version r (field_contexts pointer provenance field_provenance)

  -- The loop over the rules, in the order of the policy file.
  unfoldable pub evaluate_rules : List (String × RuleEntry) → Option Evaluation
  unfolding evaluate_entry
  evaluate_rules [] = none
  evaluate_rules ((pointer, entry) ∷ rest) =
      evaluate_entry pointer entry then_check evaluate_rules rest

  unfoldable pub evaluate_field_policies : FieldPolicies → Option Evaluation
  unfolding evaluate_rules
  evaluate_field_policies not_an_object = some (deny_with "INVALID_FIELD_POLICY" "critical" version)
  evaluate_field_policies (rules rs) = evaluate_rules rs
