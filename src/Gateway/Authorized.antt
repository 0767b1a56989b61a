-- ===== src/Gateway/Authorized.antt =====
-- `_execute_authorized` and `_observe_execution_safely` of src/sentinelgate/service.py: the claim of
-- the request, the egress budget, the tool's run and what is recorded of it.
use sentinelgate.Prelude.{
  ℕ, String, Bool, true, not, Option, none, some, get_or, List, [], ◌∷◌, ◌++◌, ◌==◌, gather,
  sorted_set, is_empty, truthy, cat, if◌then◌else◌,
}
use sentinelgate.Json.{Fields, text, array, number, field, end}
use sentinelgate.Models.{
  AgentPrincipal, ToolCallRequest, VerifiedProvenance, PolicyDecision, ExecutionResult,
}
use sentinelgate.Runtime.{Runtime}
use sentinelgate.Policy.Config.{PolicyEngine, tool_config}
use sentinelgate.Storage.Executions.{claim_execution, finish_execution}
use sentinelgate.Storage.Limits.{reserve_egress}
use sentinelgate.Storage.Lineage.{LineageRecord, record_lineage}
use sentinelgate.Gateway.World.{
  World, Services, Settings, Executed, completed, tool_error, ToolOutput, Attestation, join,
  result_of, append_event,
}
use sentinelgate.Gateway.Contexts.{all_provenance_contexts}
use sentinelgate.Gateway.Guards.{egress_amount, hourly_budget}
use sentinelgate.Gateway.Finalize.{finding_items, watch}

-- What a method does: it returns, or an exception passes through it.
pub data Outcome (A : Type 0) : Type 0 where
  returned : A → Outcome A
  raised : Outcome A

-- `sorted({item.lineage_id for item in parents if item.lineage_id})`
unfoldable pub parent_ids : List VerifiedProvenance → List String
parent_ids parents =
    sorted_set (
      gather (λ item. if truthy item.lineage_id then get_or item.lineage_id "" ∷ [] else [])
        parents)

-- `",".join(result.sources) or f"tool:{call.tool_name}"`
unfoldable pub source_of : ToolCallRequest → ToolOutput → String
source_of call result =
    let joined = join "," result.sources in
    if joined == "" then cat "tool:" call.tool_name else joined

module _ (runtime : Runtime) (services : Services) (engine : PolicyEngine)
    (settings : Settings) where
  -- `store.append_audit` whose identifier is not used
  unfoldable pub log : String → Fields → World → World
  unfolding append_event
  log event_type payload w = (append_event runtime services settings event_type payload w).0

  unfoldable pub finish : String → String → World → World
  finish request_id status w = record w {
    executions = finish_execution request_id status w.now w.executions;
  }

  -- `_observe_execution_safely`
  unfoldable pub observe_execution : ToolCallRequest → AgentPrincipal → String → World → World
  unfolding watch
  observe_execution call principal outcome =
      watch runtime services engine settings call principal outcome
        "watch_execution_observation_failed"

  unfoldable pub lineage_record :
      ToolCallRequest
      → AgentPrincipal
      → ToolOutput
      → List VerifiedProvenance
      → Attestation
      → ℕ
      → LineageRecord
  unfolding parent_ids source_of
  lineage_record call principal result parents attestation now = record {
    id = attestation.lineage_id;
    tenant_id = principal.tenant_id;
    agent_id = principal.agent_id;
    trace_id = call.trace_id;
    request_id = some call.request_id;
    parent_ids = parent_ids parents;
    source_type = "tool_output";
    source_id = source_of call result;
    destination = "agent_context";
    trust = attestation.trust;
    classification = attestation.classification;
    labels = attestation.labels;
    content_digest = attestation.content_digest;
    created_at = now;
    field_taint = attestation.field_taint;
  }

  -- `store.record_lineage`
  unfoldable pub keep_lineage : LineageRecord → World → World
  keep_lineage r w = record w { lineage = record_lineage r w.lineage }

  -- The output's attestation and lineage, once its parents are verified; a `TokenError` there passes
  -- through, after the execution has been recorded as succeeded.
  unfoldable pub attest :
      ToolCallRequest
      → AgentPrincipal
      → Option PolicyDecision
      → ToolOutput
      → Option (List VerifiedProvenance)
      → World
      → World × Outcome ExecutionResult
  unfolding observe_execution keep_lineage lineage_record result_of
  attest call principal decision result none w = (w, raised)
  attest call principal decision result (some parents) w =
      let attestation = services.derive_tool_output call principal result parents in
      (
        observe_execution call principal "succeeded"
            (keep_lineage (lineage_record call principal result parents attestation w.now) w),
        returned (record (result_of call.request_id "succeeded" decision) {
          output = some result.output;
          output_provenance_token = some attestation.token;
          classification = some attestation.classification;
          taint_labels = attestation.labels;
          trace_id = some call.trace_id;
          field_taint = attestation.field_taint;
        }),
      )

  -- What follows the executor's answer.
  unfoldable pub after_execution :
      ToolCallRequest
      → AgentPrincipal
      → String
      → Option PolicyDecision
      → Executed
      → World
      → World × Outcome ExecutionResult
  unfolding log finish observe_execution attest result_of
  after_execution call principal digest decision (tool_error message error_type) w = (
    observe_execution call principal "failed" (
        log "tool_execution_failed"
          (field "request_id" (text call.request_id)
            (field "request_hash" (text digest) (field "error" (text message) end)))
          (finish call.request_id "failed" w)),
    returned (result_of call.request_id "failed" decision),
  )
  after_execution call principal digest decision (completed result) w =
      let output_findings = services.scan_secrets result.output in
      let logged : World =
        log "tool_executed"
          (field "request_id" (text call.request_id) (
            field "request_hash" (text digest) (
              field "agent_id" (text principal.agent_id) (
                field "tenant_id" (text principal.tenant_id) (
                  field "tool_name" (text call.tool_name)
                    (field "output" (services.redact result.output) end))))))
          (finish call.request_id "succeeded" w) in
      if not (is_empty output_findings)
      then (
        log "tool_output_blocked"
            (field "request_id" (text call.request_id) (
              field "request_hash" (text digest)
                (field "findings" (array (finding_items output_findings)) end)))
            (finish call.request_id "output_blocked"
              (observe_execution call principal "output_blocked" w)),
        returned (result_of call.request_id "output_blocked" decision),
      )
      else attest call principal decision result
          (all_provenance_contexts services engine call principal logged) logged

  -- The call of `executor.execute`.
  unfoldable pub run_tool :
      ToolCallRequest
      → AgentPrincipal
      → String
      → Option PolicyDecision
      → World
      → World × Outcome ExecutionResult
  unfolding after_execution
  run_tool call principal digest decision w =
      after_execution call principal digest decision
        (services.execute_tool call.tool_name call.arguments)
        (record w {
          invoked =
              w.invoked
              ++ record {
                request_id = call.request_id;
                tool_name = call.tool_name;
                arguments = call.arguments;
              }
                ∷ [];
        })

  -- `store.reserve_egress`, for a tool with `egress`
  unfoldable pub reserve_step : ToolCallRequest → AgentPrincipal → World → World × Bool
  unfolding egress_amount hourly_budget
  reserve_step call principal w = elim (tool_config engine call.tool_name) [
    | none ↦ (w, true)
    | some t ↦
        let reserved =
          reserve_egress principal.tenant_id principal.agent_id
            (egress_amount runtime services engine call) (hourly_budget runtime services engine t)
            w.now w.egress in
        if t.egress then (record w { egress = reserved.0 }, reserved.1) else (w, true)
  ]

  -- The part of `_execute_authorized` after the claim.
  unfoldable pub execute_claimed :
      ToolCallRequest
      → AgentPrincipal
      → String
      → Option PolicyDecision
      → World
      → World × Outcome ExecutionResult
  unfolding run_tool reserve_step log finish result_of egress_amount
  execute_claimed call principal digest decision w =
      let reserved = reserve_step call principal w in
      if reserved.1 then run_tool call principal digest decision reserved.0 else (
        log "execution_egress_budget_blocked"
            (field "request_id" (text call.request_id) (
              field "agent_id" (text principal.agent_id) (
                field "tenant_id" (text principal.tenant_id) (
                  field "bytes"
                    (number (runtime.decimal (egress_amount runtime services engine call))) end))))
            (finish call.request_id "egress_budget_exceeded" reserved.0),
        returned (result_of call.request_id "egress_budget_exceeded" decision),
      )

  -- `_execute_authorized`
  unfoldable pub execute_authorized :
      ToolCallRequest
      → AgentPrincipal
      → String
      → Option PolicyDecision
      → World
      → World × Outcome ExecutionResult
  unfolding execute_claimed log result_of
  execute_authorized call principal digest decision w =
      let claimed = claim_execution call.request_id digest w.now w.executions in
      if claimed.1
      then execute_claimed call principal digest decision (record w { executions = claimed.0 })
      else (
        log "execution_replay_blocked"
            (field "request_id" (text call.request_id) (field "request_hash" (text digest) end)) w,
        returned (result_of call.request_id "replay_blocked" decision),
      )
