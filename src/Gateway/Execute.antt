-- ===== src/Gateway/Execute.antt =====
-- `execute`, `execute_approved`, `simulate` and `available_tools` of src/sentinelgate/service.py.
use sentinelgate.Prelude.{
  ℕ, String, Bool, true, false, not, ◌&&◌, Option, none, some, List, [], ◌∷◌, ◌==◌, all, select,
  leb, contains, cat, if◌then◌else◌,
}
use sentinelgate.Json.{Json, object, text, array, field, end}
use sentinelgate.Models.{
  allow, deny, require_approval, EnforcementMode, AgentPrincipal, ToolCallRequest,
  VerifiedProvenance, FieldTaint, Evaluation, PolicyDecision, ExecutionResult,
}
use sentinelgate.Runtime.{Runtime}
use sentinelgate.Policy.Config.{PolicyEngine, tool_config}
use sentinelgate.Policy.Evaluate.{evaluate as evaluate_policy}
use sentinelgate.Storage.Approvals.{
  ApprovalRow, missing, found, integrity_error, get_approval, consume_approval,
}
use sentinelgate.Storage.Containment.{is_quarantined}
use sentinelgate.Gateway.World.{World, Services, Settings, texts, result_of}
use sentinelgate.Gateway.Contexts.{call_contexts}
use sentinelgate.Gateway.Guards.{is_deny, apply_mcp_integrity}
use sentinelgate.Gateway.Decide.{evaluate}
use sentinelgate.Gateway.Authorized.{Outcome, returned, raised, log, execute_authorized}

module _ (runtime : Runtime) (services : Services) (engine : PolicyEngine)
    (settings : Settings) where
  -- What `execute` does with the decision.
  unfoldable pub act_on :
      ToolCallRequest → AgentPrincipal → PolicyDecision → World → World × Outcome ExecutionResult
  unfolding execute_authorized result_of
  act_on call principal decision w = elim settings.enforcement_mode [
    | EnforcementMode.observe ↦ (
      w,
      returned (record (result_of call.request_id "observed_not_executed" (some decision)) {
        trace_id = some call.trace_id;
      }),
    )
    | mode ↦ elim decision.decision [
      | deny ↦ (
        w,
        returned (
            result_of call.request_id
              (elim mode [ EnforcementMode.warn ↦ "warning_blocked" | _ ↦ "denied" ])
              (some decision)),
      )
      | require_approval ↦ (
        w,
        returned (record (result_of call.request_id "pending_approval" (some decision)) {
          approval_id = decision.approval_id;
        }),
      )
      | allow ↦
          execute_authorized runtime services engine settings call principal decision.request_hash
            (some decision) w
    ]
  ]

  unfoldable pub execute :
      ToolCallRequest → AgentPrincipal → World → World × Outcome ExecutionResult
  unfolding act_on
  execute call principal w =
      let evaluated = evaluate runtime services engine settings true call principal w in
      act_on call principal evaluated.1 evaluated.0

  -- The principal of an approval: the agent's, with the scopes that were stored.
  unfoldable pub approved_principal : ApprovalRow → AgentPrincipal
  approved_principal approval = record {
    agent_id = approval.agent_id;
    tenant_id = approval.tenant_id;
    scopes = approval.scopes;
    token_id = cat "approval:" approval.id;
    expires_at = approval.expires_at;
  }

  -- `not approval or approval.status != "approved" or approval.expires_at <= utc_now()`
  unfoldable pub is_ready : ApprovalRow → ℕ → Bool
  is_ready approval now = (approval.status == "approved") && not (leb approval.expires_at now)

  -- The answer of a request that ends without an execution.
  unfoldable pub ended : ApprovalRow → String → Outcome (Option ExecutionResult)
  unfolding result_of
  ended approval status = returned (some (result_of approval.request.request_id status none))

  unfoldable pub some_result :
      World × Outcome ExecutionResult → World × Outcome (Option ExecutionResult)
  some_result (w, returned r) = (w, returned (some r))
  some_result (w, raised) = (w, raised)

  -- The consumption, and the execution of what was consumed.
  unfoldable pub consume_and_execute :
      ApprovalRow → World → World × Outcome (Option ExecutionResult)
  unfolding approved_principal some_result
  consume_and_execute approval w =
      let consumed = consume_approval approval.id w.now w.approvals in
      let after : World = record w { approvals = consumed.0 } in
      elim consumed.1 [
        | missing ↦ (after, returned none)
        | integrity_error ↦ (after, raised)
        | found _ ↦ some_result (
            execute_authorized runtime services engine settings approval.request
              (approved_principal approval) approval.request_hash none after)
      ]

  -- The current policy's word on an approved request.
  unfoldable pub current_result :
      ApprovalRow → List VerifiedProvenance × List (String × List FieldTaint) → World → Evaluation
  unfolding approved_principal apply_mcp_integrity
  current_result approval (contexts, fields) w =
      apply_mcp_integrity runtime services engine approval.request w (
        evaluate_policy runtime engine approval.request (approved_principal approval) contexts
          (services.scan_secrets (object approval.request.arguments)) fields)

  -- The part of `execute_approved` after the quarantine check.
  unfoldable pub execute_current :
      ApprovalRow
      → Option (List VerifiedProvenance × List (String × List FieldTaint))
      → World
      → World × Outcome (Option ExecutionResult)
  unfolding current_result consume_and_execute ended log is_deny
  execute_current approval none w = (w, ended approval "provenance_expired_or_invalid")
  execute_current approval (some contexts) w =
      let current = current_result approval contexts w in
      if is_deny current.decision
      then (
        log runtime services engine settings "approved_execution_blocked_by_current_policy"
            (field "approval_id" (text approval.id)
              (field "reasons" (array (texts current.reasons)) end))
            w,
        ended approval "blocked_by_current_policy",
      )
      else consume_and_execute approval w

  -- The checks of an approval that was fetched.
  unfoldable pub execute_found : ApprovalRow → World → World × Outcome (Option ExecutionResult)
  unfolding is_ready approved_principal execute_current ended log
  execute_found approval w =
      let principal = approved_principal approval in
      if not (is_ready approval w.now)
      then (w, returned none)
      else if not (services.request_hash approval.request principal == approval.request_hash)
      then (
        log runtime services engine settings "approval_integrity_failure"
            (field "approval_id" (text approval.id) end) w,
        returned none,
      )
      else if is_quarantined principal.tenant_id principal.agent_id w.now w.contained
      then (w, ended approval "agent_quarantined")
      else execute_current approval (call_contexts services engine approval.request principal w) w

  unfoldable pub execute_approved : String → World → World × Outcome (Option ExecutionResult)
  unfolding execute_found log
  execute_approved approval_id w = elim (get_approval approval_id w.approvals) [
    | missing ↦ (w, returned none)
    | integrity_error ↦ (
      log runtime services engine settings "approval_integrity_failure"
          (field "approval_id" (text approval_id) end) w,
      returned none,
    )
    | found approval ↦ execute_found approval w
  ]

  -- `simulate`: the calls one after the other, without side effects.
  unfoldable pub simulate_calls :
      AgentPrincipal → List ToolCallRequest → World → World × List PolicyDecision
  simulate_calls principal [] w = (w, [])
  simulate_calls principal (call ∷ calls) w =
      let evaluated = evaluate runtime services engine settings false call principal w in
      let rest = simulate_calls principal calls evaluated.0 in (rest.0, evaluated.1 ∷ rest.1)

  -- The tools that the executor defines, the policy grants to the agent, and its scopes cover.
  unfoldable pub is_available : AgentPrincipal → String × Json → Bool
  is_available principal (name, definition) = elim (tool_config engine name) [
    | none ↦ false
    | some t ↦
        contains principal.agent_id t.allowed_agents
        && all (λ scope. contains scope principal.scopes) t.required_scopes
  ]

  unfoldable pub available_tools : AgentPrincipal → List (String × Json) → List (String × Json)
  unfolding is_available
  available_tools principal definitions = select (is_available principal) definitions
