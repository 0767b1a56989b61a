-- ===== src/Gateway/Grants.antt =====
-- src/sentinelgate/service.py: a decision of `evaluate` that allows a call.
use sentinelgate.Prelude.{
  ℕ, String, Bool, true, false, Option, none, some, List, ◌≡◌, ◌≢◌, refl, sym, ◌∙◌, arith,
  Bool-cases, Option-cases, inl, inr,
}
use sentinelgate.Json.{object}
use sentinelgate.Models.{
  allow, deny, AgentPrincipal, ToolCallRequest, SecurityFinding, VerifiedProvenance, FieldTaint,
  Evaluation,
}
use sentinelgate.Runtime.{Runtime}
use sentinelgate.Policy.Config.{PolicyEngine}
use sentinelgate.Policy.Evaluate.{evaluate as evaluate_policy}
use sentinelgate.Storage.Containment.{is_quarantined, ContainmentRow}
use sentinelgate.Storage.Mcp.{Observation}
use sentinelgate.Gateway.World.{World, Services, Settings}
use sentinelgate.Gateway.Contexts.{call_contexts, stored_contexts}
use sentinelgate.Gateway.Guards.{
  is_deny, observed_result, apply_mcp_integrity, validated, egress_result, egress_guard,
  guarded_result, containment_result,
}
use sentinelgate.Gateway.Finalize.{finalize, decided}
use sentinelgate.Gateway.Decide.{
  conclude, evaluate_contexts, evaluate_limited, evaluate, is_operational, rate_step,
  containment_of,
}

deny_is_not_allow : deny ≢ allow
deny_is_not_allow e = ground arith

module _ (runtime : Runtime) (services : Services) (engine : PolicyEngine) where
  observed_result_allow :
      (observation : Option Observation) (now : ℕ) (result : Evaluation)
      → (observed_result runtime services engine observation now result).decision ≡ allow
      → result.decision ≡ allow
  unfolding observed_result
  observed_result_allow none now result h = ground arith
  observed_result_allow (some o) now result h = ground arith

  apply_mcp_integrity_allow :
      (call : ToolCallRequest) (w : World) (result : Evaluation)
      → (apply_mcp_integrity runtime services engine call w result).decision ≡ allow
      → result.decision ≡ allow
  unfolding apply_mcp_integrity
  apply_mcp_integrity_allow call w result h = grind (arith, observed_result_allow)

  validated_allow :
      (call : ToolCallRequest) (result : Evaluation)
      → (validated runtime services engine call result).decision ≡ allow
      → (services.validate call.tool_name call.arguments ≡ true) × (result.decision ≡ allow)
  unfolding validated is_deny
  validated_allow call result h = ground arith

  egress_guard_allow :
      (operational : Bool) (call : ToolCallRequest) (principal : AgentPrincipal) (w : World)
      (result : Evaluation)
      → (egress_guard runtime services engine operational call principal w result).decision ≡ allow
      → result.decision ≡ allow
  unfolding egress_guard egress_result
  egress_guard_allow operational call principal w result h = ground arith

  -- No guard turns a result into a grant.
  guarded_result_allow :
      (operational : Bool) (call : ToolCallRequest) (principal : AgentPrincipal)
      (contexts : List VerifiedProvenance) (fields : List (String × List FieldTaint))
      (findings : List SecurityFinding) (w : World)
      → (guarded_result runtime services engine operational call principal contexts fields findings
          w).decision
        ≡ allow
      → (services.validate call.tool_name call.arguments ≡ true)
        × ((evaluate_policy runtime engine call principal contexts findings fields).decision
            ≡ allow)
  unfolding guarded_result
  guarded_result_allow operational call principal contexts fields findings w h =
      let (valid, checked) =
        validated_allow call _ (egress_guard_allow operational call principal w _ h) in
      (valid, apply_mcp_integrity_allow call w _ checked)

module _ (runtime : Runtime) (services : Services) (engine : PolicyEngine)
    (settings : Settings) where
  decision-finalize :
      (call : ToolCallRequest) (principal : AgentPrincipal) (digest : String) (result : Evaluation)
      (findings : List SecurityFinding) (approval_id : Option String)
      (quarantined side_effects : Bool) (w : World)
      → (finalize runtime services engine settings call principal digest result findings approval_id
          quarantined side_effects w).1.decision
        ≡ result.decision
  unfolding finalize decided
  decision-finalize call principal digest result findings approval_id quarantined false w = refl
  decision-finalize call principal digest result findings approval_id quarantined true w = refl

  pub decision-conclude :
      (side_effects : Bool) (call : ToolCallRequest) (principal : AgentPrincipal) (digest : String)
      (findings : List SecurityFinding) (contexts : List VerifiedProvenance)
      (fields : List (String × List FieldTaint)) (result : Evaluation) (w : World)
      → (conclude runtime services engine settings side_effects call principal digest findings
          contexts fields result w).1.decision
        ≡ result.decision
  unfolding conclude
  decision-conclude side_effects call principal digest findings contexts fields result w =
      simp decision-finalize

  -- What an allowed call has passed: the quarantine, the provenance, the policy, the executor.
  unfoldable pub IsGranted : ToolCallRequest → AgentPrincipal → World → Type 0
  IsGranted call principal w =
      (is_quarantined principal.tenant_id principal.agent_id w.now w.contained ≡ false)
      × (services.validate call.tool_name call.arguments ≡ true)
      × ((contexts : List VerifiedProvenance × List (String × List FieldTaint)) × (call_contexts
              services engine call principal w
            ≡ some contexts)
          × ((evaluate_policy runtime engine call principal contexts.0
                (services.scan_secrets (object call.arguments)) contexts.1).decision
              ≡ allow))

  evaluate_contexts_allow :
      (call : ToolCallRequest) (principal : AgentPrincipal) (digest : String)
      (findings : List SecurityFinding)
      (contexts : Option (List VerifiedProvenance × List (String × List FieldTaint))) (w : World)
      → (evaluate_contexts runtime services engine settings true call principal digest findings
          contexts w).1.decision
        ≡ allow
      → (c : List VerifiedProvenance × List (String × List FieldTaint)) × (contexts ≡ some c)
        × (services.validate call.tool_name call.arguments ≡ true)
        × ((evaluate_policy runtime engine call principal c.0 findings c.1).decision ≡ allow)
  unfolding evaluate_contexts finalize decided
  evaluate_contexts_allow call principal digest findings none w h = absurd (deny_is_not_allow h)
  evaluate_contexts_allow call principal digest findings (some (contexts, fields)) w h =
      let (valid, granted) =
        guarded_result_allow runtime services engine
          (is_operational runtime services engine settings true) call principal contexts fields
          findings w
          (sym (
              decision-conclude true call principal digest findings contexts fields
                (guarded_result runtime services engine
                  (is_operational runtime services engine settings true) call principal contexts
                  fields findings w)
                w)
            ∙ h) in
      ((contexts, fields), refl, valid, granted)

  -- The contexts do not depend on the rate events.
  contexts-rate_step :
      (operational : Bool) (call : ToolCallRequest) (principal : AgentPrincipal) (w : World)
      → call_contexts services engine call principal
          (rate_step runtime services engine settings operational principal w).0
        ≡ call_contexts services engine call principal w
  unfolding rate_step call_contexts stored_contexts
  contexts-rate_step false call principal w = refl
  contexts-rate_step true call principal w = refl

  evaluate_limited_allow :
      (call : ToolCallRequest) (principal : AgentPrincipal) (digest : String)
      (findings : List SecurityFinding) (w : World)
      → (evaluate_limited runtime services engine settings true call principal digest findings
          w).1.decision
        ≡ allow
      → (c : List VerifiedProvenance × List (String × List FieldTaint)) × (call_contexts services
            engine call principal w
          ≡ some c)
        × (services.validate call.tool_name call.arguments ≡ true)
        × ((evaluate_policy runtime engine call principal c.0 findings c.1).decision ≡ allow)
  unfolding evaluate_limited finalize decided
  evaluate_limited_allow call principal digest findings w h =
      let limited =
        rate_step runtime services engine settings
          (is_operational runtime services engine settings true) principal w in
      elim (Bool-cases limited.1) [
        | inl within ↦
            rw
              (sym (
                contexts-rate_step (is_operational runtime services engine settings true) call
                  principal w))
              (evaluate_contexts_allow call principal digest findings
                (call_contexts services engine call principal limited.0) limited.0 (rw within at h))
        | inr over ↦ absurd (deny_is_not_allow (rw over at h))
      ]

  containment_result_denies :
      (call : ToolCallRequest) (c : Option ContainmentRow) (result : Evaluation)
      (quarantined : Bool)
      → containment_result runtime services engine call c ≡ some (result, quarantined)
      → result.decision ≡ deny
  unfolding containment_result
  containment_result_denies call none result quarantined h = ground arith
  containment_result_denies call (some c) result quarantined h = ground arith

  -- A call that `evaluate` allows comes from an agent that is not quarantined, with provenance that
  -- verifies; the policy allows it on that provenance, and the executor accepts its arguments.
  pub evaluate-IsGranted :
      (call : ToolCallRequest) (principal : AgentPrincipal) (w : World)
      → (evaluate runtime services engine settings true call principal w).1.decision ≡ allow
      → IsGranted call principal w
  unfolding evaluate IsGranted finalize decided
  evaluate-IsGranted call principal w h =
      elim (Option-cases (
        containment_result runtime services engine call
          (containment_of runtime services engine settings true principal w))) [
            | inr ((result, quarantined), found) ↦ absurd (
                deny_is_not_allow (
                  sym (containment_result_denies call _ result quarantined found)
                  ∙ (rw (found, evaluate) at h)))
            | inl clear ↦
                elim (Bool-cases
                  (is_quarantined principal.tenant_id principal.agent_id w.now w.contained)) [
                    | inl caught ↦ absurd (deny_is_not_allow (rw (clear, caught, evaluate) at h))
                    | inr free ↦
                        let (contexts, known, valid, granted) =
                          evaluate_limited_allow call principal
                            (services.request_hash call principal)
                            (services.scan_secrets (object call.arguments)) w
                            (rw (clear, free, evaluate) at h) in
                        (free, valid, (contexts, known, granted))
                  ]
          ]
