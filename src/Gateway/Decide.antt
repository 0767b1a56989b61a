-- ===== src/Gateway/Decide.antt =====
-- `GatewayService.evaluate` of src/sentinelgate/service.py: every branch with what it writes.
use sentinelgate.Prelude.{
  ◌+◌, String, Bool, true, false, not, ◌&&◌, Option, none, some, get_or, List, [], ◌∷◌, sorted_set,
  if◌then◌else◌,
}
use sentinelgate.Json.{object, text, field, end}
use sentinelgate.Models.{
  deny, AgentPrincipal, ToolCallRequest, SecurityFinding, VerifiedProvenance, FieldTaint,
  Evaluation, PolicyDecision,
}
use sentinelgate.Runtime.{Runtime}
use sentinelgate.Policy.Config.{PolicyEngine}
use sentinelgate.Policy.Verdict.{verdict}
use sentinelgate.Storage.Approvals.{create_approval}
use sentinelgate.Storage.Limits.{rate_allowed}
use sentinelgate.Storage.Containment.{ContainmentRow, active_containment, is_quarantined}
use sentinelgate.Storage.Outbox.{enqueue_outbox}
use sentinelgate.Storage.Snapshots.{record_policy_snapshot}
use sentinelgate.Gateway.World.{World, Services, Settings, is_observe, append_event}
use sentinelgate.Gateway.Contexts.{call_contexts}
use sentinelgate.Gateway.Guards.{is_review, containment_result, guarded_result}
use sentinelgate.Gateway.Finalize.{finalize}

module _ (runtime : Runtime) (services : Services) (engine : PolicyEngine)
    (settings : Settings) where
  -- Telling the reviewers about a new approval.
  unfoldable pub announce : AgentPrincipal → String → List String → World → World
  unfolding append_event
  announce principal approval_id reasons w =
      let job =
        enqueue_outbox (services.uuid w.drawn) "approval.required" approval_id approval_id reasons
          settings.notification_max_attempts w.now w.outbox in
      let parties =
        field "agent_id" (text principal.agent_id)
          (field "tenant_id" (text principal.tenant_id) end) in
      if settings.durable_notifications
      then (append_event runtime services settings "approval_notification_queued"
          (field "approval_id" (text approval_id) (field "job_id" (text job.1) parties))
          (record w { outbox = job.0; drawn = w.drawn + 1 })).0
      else if settings.notifier_enabled
      then (append_event runtime services settings
          (if services.notify approval_id reasons
            then "approval_notification_delivered"
            else "approval_notification_failed")
          (field "approval_id" (text approval_id) parties) w).0
      else w

  -- The approval that a result may need.
  unfoldable pub request_approval :
      Bool → ToolCallRequest → AgentPrincipal → String → Evaluation → World → World × Option String
  unfolding announce is_review
  request_approval operational call principal digest result w =
      let created =
        create_approval (services.uuid w.drawn) call digest principal
          (get_or engine.defaults.approval_ttl_seconds 900) w.now w.approvals in
      if is_review result.decision && operational
      then (
        announce principal (services.uuid w.drawn) result.reasons
            (record w { approvals = created.0; drawn = w.drawn + 1 }),
        some (services.uuid w.drawn),
      )
      else (w, none)

  -- The snapshot is kept without the call's tokens.
  unfoldable pub keep_snapshot :
      Bool
      → ToolCallRequest
      → AgentPrincipal
      → List VerifiedProvenance
      → List (String × List FieldTaint)
      → List SecurityFinding
      → Evaluation
      → World
      → World
  keep_snapshot false call principal contexts fields findings result w = w
  keep_snapshot true call principal contexts fields findings result w = record w {
    snapshots =
        record_policy_snapshot
          (record {
            tenant_id = principal.tenant_id;
            agent_id = principal.agent_id;
            scopes = sorted_set principal.scopes;
            call = record call { provenance_tokens = []; field_provenance = [] };
            provenance = contexts;
            field_provenance = fields;
            findings = findings;
            original_decision = result.decision;
            created_at = w.now;
          })
          w.snapshots;
  }

  -- The rate limit, which only a call with operational effects uses.
  unfoldable pub rate_step : Bool → AgentPrincipal → World → World × Bool
  rate_step false principal w = (w, true)
  rate_step true principal w =
      let outcome =
        rate_allowed principal.tenant_id principal.agent_id
          (get_or engine.defaults.requests_per_minute 60) 60 w.now w.rate in
      (record w { rate = outcome.0 }, outcome.1)

  -- `side_effects and self.enforcement_mode is not EnforcementMode.OBSERVE`
  unfoldable pub is_operational : Bool → Bool
  unfolding is_observe
  is_operational side_effects = side_effects && not (is_observe settings.enforcement_mode)

  -- The end of `evaluate`: the approval, the snapshot and `_finalize` of a result.
  unfoldable pub conclude :
      Bool
      → ToolCallRequest
      → AgentPrincipal
      → String
      → List SecurityFinding
      → List VerifiedProvenance
      → List (String × List FieldTaint)
      → Evaluation
      → World
      → World × PolicyDecision
  unfolding request_approval keep_snapshot finalize is_operational
  conclude side_effects call principal digest findings contexts fields result w =
      let approved =
        request_approval (is_operational side_effects) call principal digest result w in
      finalize runtime services engine settings call principal digest result findings approved.1
        false side_effects
        (keep_snapshot side_effects call principal contexts fields findings result approved.0)

  -- The part of `evaluate` after the rate limit.
  unfoldable pub evaluate_contexts :
      Bool
      → ToolCallRequest
      → AgentPrincipal
      → String
      → List SecurityFinding
      → Option (List VerifiedProvenance × List (String × List FieldTaint))
      → World
      → World × PolicyDecision
  unfolding guarded_result conclude finalize is_operational
  evaluate_contexts side_effects call principal digest findings none w =
      finalize runtime services engine settings call principal digest
        (verdict deny ("INVALID_PROVENANCE" ∷ []) "critical" engine.version) findings none false
        side_effects w
  evaluate_contexts side_effects call principal digest findings (some (contexts, fields)) w =
      conclude side_effects call principal digest findings contexts fields
        (guarded_result runtime services engine (is_operational side_effects) call principal
          contexts fields findings w)
        w

  -- The part of `evaluate` after the containment and the quarantine.
  unfoldable pub evaluate_limited :
      Bool
      → ToolCallRequest
      → AgentPrincipal
      → String
      → List SecurityFinding
      → World
      → World × PolicyDecision
  unfolding rate_step evaluate_contexts is_operational
  evaluate_limited side_effects call principal digest findings w =
      let limited = rate_step (is_operational side_effects) principal w in
      if not limited.1
      then finalize runtime services engine settings call principal digest
          (verdict deny ("RATE_LIMIT_EXCEEDED" ∷ []) "high" engine.version) findings none false
          side_effects limited.0
      else evaluate_contexts side_effects call principal digest findings
          (call_contexts services engine call principal limited.0) limited.0

  -- `store.active_containment`, which a simulation does not ask for
  unfoldable pub containment_of : Bool → AgentPrincipal → World → Option ContainmentRow
  containment_of false principal w = none
  containment_of true principal w =
      active_containment principal.tenant_id principal.agent_id w.now w.contained

  unfoldable pub evaluate : Bool → ToolCallRequest → AgentPrincipal → World → World × PolicyDecision
  unfolding containment_of containment_result evaluate_limited
  evaluate side_effects call principal w =
      let digest = services.request_hash call principal in
      let findings = services.scan_secrets (object call.arguments) in
      elim (containment_result runtime services engine call
        (containment_of side_effects principal w)) [
          | some (result, quarantined) ↦
              finalize runtime services engine settings call principal digest result findings none
                quarantined side_effects w
          | none ↦
              if side_effects
                && is_quarantined principal.tenant_id principal.agent_id w.now w.contained
              then finalize runtime services engine settings call principal digest
                  (verdict deny ("AGENT_QUARANTINED" ∷ []) "critical" engine.version) findings none
                  true side_effects w
              else evaluate_limited side_effects call principal digest findings w
        ]
