-- ===== src/Gateway/Ledger.antt =====
-- `_execute_authorized` of src/sentinelgate/service.py, the claims of requests and the calls of the
-- executor, on the branches that follow the claim.
use sentinelgate.Prelude.{
  String, Bool, ◌++◌, ◌∷◌, [], Option, none, some, List, ◌≡◌, refl, ◌∙◌, any, is_empty, arith, ◌⊎◌,
  inl, inr, Bool-cases,
}
use sentinelgate.Json.{Fields}
use sentinelgate.Models.{AgentPrincipal, ToolCallRequest, VerifiedProvenance, PolicyDecision}
use sentinelgate.Runtime.{Runtime}
use sentinelgate.Policy.Config.{PolicyEngine}
use sentinelgate.Storage.Executions.{is_request, finish_execution}
use sentinelgate.Storage.Executions.Once.{any-update}
use sentinelgate.Storage.Lineage.{LineageRecord}
use sentinelgate.Gateway.World.{
  World, Invocation, Services, Settings, Executed, completed, tool_error, ToolOutput, append_event,
}
use sentinelgate.Gateway.Frame.{runs, runs-watch}
use sentinelgate.Gateway.Authorized.{
  log, finish, keep_lineage, observe_execution, attest, after_execution, run_tool, reserve_step,
  execute_claimed,
}

-- Whether the request is claimed, and the calls of the executor.
unfoldable pub ledger : String → World → Bool × List Invocation
ledger id w = (any (is_request id) w.executions, w.invoked)

-- The call of the executor for a request.
abbrev pub invocation : ToolCallRequest → Invocation
invocation call = record {
  request_id = call.request_id;
  tool_name = call.tool_name;
  arguments = call.arguments;
}

pub ledger-runs : (id : String) (v w : World) → runs v ≡ runs w → ledger id v ≡ ledger id w
unfolding ledger runs
ledger-runs id v w e = λ i. (any (is_request id) (e i).0, (e i).1)

module _ (runtime : Runtime) (services : Services) (engine : PolicyEngine) (settings : Settings)
    (id : String) where
  pub ledger-log :
      (event_type : String) (payload : Fields) (w : World)
      → ledger id (log runtime services engine settings event_type payload w) ≡ ledger id w
  unfolding ledger log append_event
  ledger-log event_type payload w = refl

  ledger-finish :
      (request_id status : String) (w : World)
      → ledger id (finish runtime services engine settings request_id status w) ≡ ledger id w
  unfolding ledger finish finish_execution
  ledger-finish request_id status w =
      λ i. (any-update id request_id status w.now w.executions i, w.invoked)

  ledger-observe_execution :
      (call : ToolCallRequest) (principal : AgentPrincipal) (outcome : String) (w : World)
      → ledger id (observe_execution runtime services engine settings call principal outcome w)
        ≡ ledger id w
  unfolding observe_execution
  ledger-observe_execution call principal outcome w =
      ledger-runs id _ _ (runs-watch runtime services engine settings call principal outcome _ w)

  ledger-keep_lineage :
      (r : LineageRecord) (w : World)
      → ledger id (keep_lineage runtime services engine settings r w) ≡ ledger id w
  unfolding ledger keep_lineage
  ledger-keep_lineage r w = refl

  ledger-attest :
      (call : ToolCallRequest) (principal : AgentPrincipal) (decision : Option PolicyDecision)
      (result : ToolOutput) (parents : Option (List VerifiedProvenance)) (w : World)
      → ledger id
          (attest runtime services engine settings call principal decision result parents w).0
        ≡ ledger id w
  unfolding attest
  ledger-attest call principal decision result none w = refl
  ledger-attest call principal decision result (some parents) w =
      simp (ledger-observe_execution, ledger-keep_lineage)

  ledger-after_execution :
      (call : ToolCallRequest) (principal : AgentPrincipal) (digest : String)
      (decision : Option PolicyDecision) (executed : Executed) (w : World)
      → ledger id
          (after_execution runtime services engine settings call principal digest decision executed
            w).0
        ≡ ledger id w
  unfolding after_execution
  ledger-after_execution call principal digest decision (tool_error message error_type) w =
      simp (ledger-log, ledger-finish, ledger-observe_execution)
  ledger-after_execution call principal digest decision (completed result) w =
      elim (Bool-cases (is_empty (services.scan_secrets result.output))) [
        | inl clean ↦ rw clean (simp (ledger-log, ledger-finish, ledger-attest))
        | inr dirty ↦ rw dirty (simp (ledger-log, ledger-finish, ledger-observe_execution))
      ]

  ledger-reserve_step :
      (call : ToolCallRequest) (principal : AgentPrincipal) (w : World)
      → ledger id (reserve_step runtime services engine settings call principal w).0 ≡ ledger id w
  unfolding ledger reserve_step
  ledger-reserve_step call principal w = ground arith

  -- A run of the tool is one call of the executor.
  ledger-run_tool :
      (call : ToolCallRequest) (principal : AgentPrincipal) (digest : String)
      (decision : Option PolicyDecision) (w : World)
      → ledger id (run_tool runtime services engine settings call principal digest decision w).0
        ≡ ((ledger id w).0, (ledger id w).1 ++ invocation call ∷ [])
  unfolding run_tool ledger
  ledger-run_tool call principal digest decision w =
      ledger-after_execution call principal digest decision
        (services.execute_tool call.tool_name call.arguments)
        (record w { invoked = w.invoked ++ invocation call ∷ [] })

  -- With the claim made, the executor is called once or not at all.
  pub ledger-execute_claimed :
      (call : ToolCallRequest) (principal : AgentPrincipal) (digest : String)
      (decision : Option PolicyDecision) (w : World)
      → (ledger id
            (execute_claimed runtime services engine settings call principal digest decision w).0
          ≡ ledger id w)
        ⊎ (ledger id
              (execute_claimed runtime services engine settings call principal digest decision w).0
            ≡ ((ledger id w).0, (ledger id w).1 ++ invocation call ∷ []))
  unfolding execute_claimed
  ledger-execute_claimed call principal digest decision w =
      elim (Bool-cases (reserve_step runtime services engine settings call principal w).1) [
        | inl reserved ↦ inr (
            rw reserved (
              ledger-run_tool call principal digest decision _
              ∙ rw (ledger-reserve_step call principal w) refl))
        | inr refused ↦ inl (rw refused (simp (ledger-log, ledger-finish, ledger-reserve_step)))
      ]
