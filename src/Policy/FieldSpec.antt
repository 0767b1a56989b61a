-- ===== src/Policy/FieldSpec.antt =====
-- policy.py: `_evaluate_field_policies` and the argument's sources.
use sentinelgate.Prelude.{
  ◌≤◌, String, ◌≡◌, refl, true, false, Option, none, some, List, [], ◌∷◌, arith, contains, is_empty,
  truthy, get_or, All, All-gather, All-map, any-false,
}
use sentinelgate.Models.{
  DataClassification, parse_classification, VerifiedProvenance, FieldTaint, Evaluation,
}
use sentinelgate.Taint.{classification_rank}
use sentinelgate.Policy.Config.{
  FieldRule, RuleEntry, not_a_rule, rule, FieldPolicies, not_an_object, rules,
}
use sentinelgate.Policy.Verdict.{deny_with, NeverAllows}
use sentinelgate.Policy.Checks.{action_decision-ne-allow, matched_labels_none, within_limit}
use sentinelgate.Policy.Fields.{
  is_untrusted, field_contexts, context_labels, field_provenance_check, field_label_check,
  field_trust_check, field_limit_check, field_classification_check, ◌then_check◌, evaluate_rule,
  evaluate_entry, evaluate_rules, evaluate_field_policies,
}

-- What a rule asks of the sources of its field.
pub record FieldAllowed (r : FieldRule) (contexts : List FieldTaint) : Type 0 where
  pub bound : get_or r.requires_provenance true ≡ true → is_empty contexts ≡ false
  pub labels : All (λ item. All (λ l. contains l r.blocked_labels ≡ false) item.labels) contexts
  pub trust : r.deny_untrusted ≡ true → All (λ item. is_untrusted item.trust ≡ false) contexts
  pub classification :
      truthy r.max_classification ≡ true
      → is_empty contexts ≡ false
      → (limit : DataClassification) × (parse_classification (get_or r.max_classification "")
          ≡ some limit)
        × All (λ item. classification_rank item.classification ≤ classification_rank limit) contexts

abbrev pub EntryAllowed :
    List VerifiedProvenance → List (String × List FieldTaint) → String × RuleEntry → Type 0
EntryAllowed provenance field_provenance (pointer, not_a_rule) = ⊥
EntryAllowed provenance field_provenance (pointer, rule r) =
    FieldAllowed r (field_contexts pointer provenance field_provenance)

abbrev pub FieldsAllowed :
    List VerifiedProvenance → List (String × List FieldTaint) → FieldPolicies → Type 0
FieldsAllowed provenance field_provenance not_an_object = ⊥
FieldsAllowed provenance field_provenance (rules rs) =
    All (EntryAllowed provenance field_provenance) rs

then_check-none : (a b : Option Evaluation) → (a then_check b) ≡ none → (a ≡ none) × (b ≡ none)
then_check-none none b h = (refl, h)
then_check-none (some e) b h = ground arith

then_check-NeverAllows :
    (a b : Option Evaluation) → NeverAllows a → NeverAllows b → NeverAllows (a then_check b)
then_check-NeverAllows none b ha hb = hb
then_check-NeverAllows (some e) b ha hb = ha

module _ (pointer risk version : String) (r : FieldRule) (contexts : List FieldTaint) where
  field_limit_check-none :
      (limit : Option DataClassification)
      → field_limit_check pointer risk version r contexts limit ≡ none
      → (l : DataClassification) × (limit ≡ some l)
        × All (λ item. classification_rank item.classification ≤ classification_rank l) contexts
  unfolding field_limit_check
  field_limit_check-none none h = ground arith
  field_limit_check-none (some l) h =
      (l, refl, All-map _ (λ item. item.classification) contexts (within_limit l _ (ground arith)))

  field_classification_check-none :
      field_classification_check pointer risk version r contexts ≡ none
      → truthy r.max_classification ≡ true
      → is_empty contexts ≡ false
      → (l : DataClassification) × (parse_classification (get_or r.max_classification "") ≡ some l)
        × All (λ item. classification_rank item.classification ≤ classification_rank l) contexts
  unfolding field_classification_check
  field_classification_check-none h given bound =
      field_limit_check-none (parse_classification (get_or r.max_classification ""))
        (rw (given, bound) at h)

  bound_of :
      field_provenance_check pointer risk version r contexts ≡ none
      → get_or r.requires_provenance true ≡ true
      → is_empty contexts ≡ false
  unfolding field_provenance_check
  bound_of h e = ground arith

  labels_of :
      field_label_check pointer risk version r contexts ≡ none
      → All (λ item. All (λ l. contains l r.blocked_labels ≡ false) item.labels) contexts
  unfolding field_label_check context_labels
  labels_of h =
      All-gather _ (λ item. item.labels) contexts
        (matched_labels_none (context_labels contexts) r.blocked_labels (ground arith))

  trust_of :
      field_trust_check pointer risk version r contexts ≡ none
      → r.deny_untrusted ≡ true
      → All (λ item. is_untrusted item.trust ≡ false) contexts
  unfolding field_trust_check
  trust_of h e = any-false _ contexts (ground arith)

  evaluate_rule-FieldAllowed :
      evaluate_rule pointer risk version r contexts ≡ none → FieldAllowed r contexts
  unfolding evaluate_rule
  evaluate_rule-FieldAllowed h =
      let (h1, rest1) = then_check-none _ _ h in
      let (h2, rest2) = then_check-none _ _ rest1 in
      let (h3, h4) = then_check-none _ _ rest2 in
      record {
        bound = bound_of h1;
        labels = labels_of h2;
        trust = trust_of h3;
        classification = field_classification_check-none h4;
      }

  field_limit_check-NeverAllows :
      (limit : Option DataClassification)
      → NeverAllows (field_limit_check pointer risk version r contexts limit)
  unfolding field_limit_check deny_with
  field_limit_check-NeverAllows none = ground arith
  field_limit_check-NeverAllows (some l) =
      ground (arith, action_decision-ne-allow (get_or r.action "deny"))

  field_checks-NeverAllow :
      NeverAllows (field_provenance_check pointer risk version r contexts)
      × NeverAllows (field_label_check pointer risk version r contexts)
      × NeverAllows (field_trust_check pointer risk version r contexts)
      × NeverAllows (field_classification_check pointer risk version r contexts)
  unfolding field_provenance_check field_label_check field_trust_check field_classification_check
      deny_with
  field_checks-NeverAllow = (
    ground arith,
    ground (arith, action_decision-ne-allow (get_or r.action "deny")),
    ground arith,
    ground (
      arith,
      field_limit_check-NeverAllows (parse_classification (get_or r.max_classification "")),
    ),
  )

  evaluate_rule-NeverAllows : NeverAllows (evaluate_rule pointer risk version r contexts)
  unfolding evaluate_rule
  evaluate_rule-NeverAllows =
      let (n1, n2, n3, n4) = field_checks-NeverAllow in
      then_check-NeverAllows _ _ n1
        (then_check-NeverAllows _ _ n2 (then_check-NeverAllows _ _ n3 n4))

module _ (provenance : List VerifiedProvenance) (field_provenance : List (String × List FieldTaint))
    (risk version : String) where
  evaluate_entry-NeverAllows :
      (pointer : String) (entry : RuleEntry)
      → NeverAllows (evaluate_entry provenance field_provenance risk version pointer entry)
  unfolding evaluate_entry deny_with
  evaluate_entry-NeverAllows pointer not_a_rule = ground arith
  evaluate_entry-NeverAllows pointer (rule r) = evaluate_rule-NeverAllows pointer risk version r _

  evaluate_rules-NeverAllows :
      (rs : List (String × RuleEntry))
      → NeverAllows (evaluate_rules provenance field_provenance risk version rs)
  unfolding evaluate_rules
  evaluate_rules-NeverAllows [] = tt
  evaluate_rules-NeverAllows ((pointer, entry) ∷ rs) =
      then_check-NeverAllows _ _ (evaluate_entry-NeverAllows pointer entry)
        (evaluate_rules-NeverAllows rs)

  pub evaluate_field_policies-NeverAllows :
      (policies : FieldPolicies)
      → NeverAllows (evaluate_field_policies provenance field_provenance risk version policies)
  unfolding evaluate_field_policies deny_with
  evaluate_field_policies-NeverAllows not_an_object = ground arith
  evaluate_field_policies-NeverAllows (rules rs) = evaluate_rules-NeverAllows rs

  entry-allowed :
      (pointer : String) (entry : RuleEntry)
      → evaluate_entry provenance field_provenance risk version pointer entry ≡ none
      → EntryAllowed provenance field_provenance (pointer, entry)
  unfolding evaluate_entry
  entry-allowed pointer not_a_rule h = ground arith
  entry-allowed pointer (rule r) h = evaluate_rule-FieldAllowed pointer risk version r _ h

  rules-allowed :
      (rs : List (String × RuleEntry))
      → evaluate_rules provenance field_provenance risk version rs ≡ none
      → All (EntryAllowed provenance field_provenance) rs
  unfolding evaluate_rules
  rules-allowed [] h = tt
  rules-allowed ((pointer, entry) ∷ rs) h =
      let (h1, h2) = then_check-none _ _ h in (entry-allowed pointer entry h1, rules-allowed rs h2)

  -- The field rules let a call pass only if the policy is well formed and every rule is satisfied by
  -- the sources of its field, those bound to the field or else all of the call's.
  pub evaluate_field_policies-FieldsAllowed :
      (policies : FieldPolicies)
      → evaluate_field_policies provenance field_provenance risk version policies ≡ none
      → FieldsAllowed provenance field_provenance policies
  unfolding evaluate_field_policies
  evaluate_field_policies-FieldsAllowed not_an_object h = ground arith
  evaluate_field_policies-FieldsAllowed (rules rs) h = rules-allowed rs h
