-- ===== src/Gateway/Once.antt =====
-- src/sentinelgate/service.py and the table `executions`: the calls of the executor and the claims.
use sentinelgate.Prelude.{
  ℕ, ◌≤◌, String, Bool, true, false, ◌||◌, Option, none, some, List, [], ◌∷◌, ◌++◌, ◌==◌, ◌≡◌, refl,
  sym, ap, ◌∙◌, inl, inr, any, any-append_one, count, count-append, arith, eq_iff, Bool-cases,
  if◌then◌else◌,
}
use sentinelgate.Models.{
  AgentPrincipal, ToolCallRequest, PolicyDecision, ExecutionResult, VerifiedProvenance, FieldTaint,
}
use sentinelgate.Runtime.{Runtime}
use sentinelgate.Policy.Config.{PolicyEngine}
use sentinelgate.Storage.Executions.{Execution, is_request, claim_execution, running}
use sentinelgate.Gateway.World.{World, Invocation, Services, Settings}
use sentinelgate.Gateway.Frame.{evaluate-runs}
use sentinelgate.Gateway.Guards.{is_deny}
use sentinelgate.Gateway.Decide.{evaluate}
use sentinelgate.Storage.Approvals.{ApprovalRow, consume_approval}
use sentinelgate.Gateway.Ledger.{
  ledger, ledger-runs, ledger-log, ledger-execute_claimed, invocation,
}
use sentinelgate.Gateway.Authorized.{execute_authorized, Outcome, returned, raised}
use sentinelgate.Gateway.Execute.{
  act_on, execute, execute_approved, some_result, consume_and_execute, approved_principal,
  execute_current, execute_found, current_result,
}

-- The calls of the executor for a request.
unfoldable pub calls_for : String → List Invocation → ℕ
calls_for id = count (λ c. c.request_id == id)

-- The executor is called for claimed requests only, once each.
unfoldable pub IsOnce : Bool × List Invocation → String → Type 0
IsOnce (claimed, invoked) id = calls_for id invoked ≤ (if claimed then 1 else 0)

-- The state after the consumption of an approval.
abbrev consumed_world : ApprovalRow → World → World
consumed_world approval w = record w {
  approvals = (consume_approval approval.id w.now w.approvals).0;
}

module _ (runtime : Runtime) (services : Services) (engine : PolicyEngine)
    (settings : Settings) where
  -- A claim that is made was not made before, and it is there afterwards.
  claim_new :
      (id request_id digest : String) (now : ℕ) (table : List Execution)
      → (claim_execution request_id digest now table).1 ≡ true
      → (any (is_request request_id) table ≡ false)
        × (any (is_request id) (claim_execution request_id digest now table).0
            ≡ (any (is_request id) table || (request_id == id)))
  unfolding claim_execution running
  claim_new id request_id digest now table h = grind (arith, any-append_one)

  -- The new claim covers the one call that may follow it.
  IsOnce-new :
      (call : ToolCallRequest) (id : String) (claimed : Bool) (invoked : List Invocation)
      → (call.request_id ≡ id → claimed ≡ false)
      → IsOnce (claimed, invoked) id
      → IsOnce (claimed || (call.request_id == id), invoked) id
        × IsOnce (claimed || (call.request_id == id), invoked ++ invocation call ∷ []) id
  unfolding IsOnce calls_for count
  IsOnce-new call id claimed invoked new once = ground (
    arith,
    eq_iff call.request_id id,
    count-append (λ c. c.request_id == id) invoked (invocation call ∷ []),
  )

  -- After a claim that is made, with the call that may follow it and without.
  IsOnce-after_claim :
      (call : ToolCallRequest) (digest : String) (w : World) (id : String)
      → (claim_execution call.request_id digest w.now w.executions).1 ≡ true
      → IsOnce (ledger id w) id
      → let after = ledger id (record w {
        executions = (claim_execution call.request_id digest w.now w.executions).0;
      }) in
        IsOnce after id × IsOnce (after.0, after.1 ++ invocation call ∷ []) id
  unfolding ledger
  IsOnce-after_claim call digest w id won once =
      let (fresh, known) = claim_new id call.request_id digest w.now w.executions won in
      rw known (
        IsOnce-new call id (any (is_request id) w.executions) w.invoked
          (λ same. ap (λ r. any (is_request r) w.executions) (sym same) ∙ fresh) once)

  IsOnce-execute_authorized :
      (call : ToolCallRequest) (principal : AgentPrincipal) (digest : String)
      (decision : Option PolicyDecision) (w : World) (id : String)
      → IsOnce (ledger id w) id
      → IsOnce
          (ledger id
            (execute_authorized runtime services engine settings call principal digest decision
              w).0)
          id
  unfolding execute_authorized
  IsOnce-execute_authorized call principal digest decision w id once =
      elim (Bool-cases (claim_execution call.request_id digest w.now w.executions).1) [
        | inr lost ↦ rw (lost, ledger-log runtime services engine settings id) once
        | inl won ↦
            rw won
              (elim (ledger-execute_claimed runtime services engine settings id call principal
                digest decision
                (record w {
                  executions = (claim_execution call.request_id digest w.now w.executions).0;
                })) [
                  | inl idle ↦ rw idle (IsOnce-after_claim call digest w id won once).0
                  | inr ran ↦ rw ran (IsOnce-after_claim call digest w id won once).1
                ])
      ]

  IsOnce-act_on :
      (call : ToolCallRequest) (principal : AgentPrincipal) (decision : PolicyDecision) (w : World)
      (id : String)
      → IsOnce (ledger id w) id
      → IsOnce (ledger id (act_on runtime services engine settings call principal decision w).0) id
  unfolding act_on
  IsOnce-act_on call principal decision w id once = ground (
    arith,
    once,
    IsOnce-execute_authorized call principal decision.request_hash (some decision) w id once,
  )

  pub IsOnce-execute :
      (call : ToolCallRequest) (principal : AgentPrincipal) (w : World) (id : String)
      → IsOnce (ledger id w) id
      → IsOnce (ledger id (execute runtime services engine settings call principal w).0) id
  unfolding execute
  IsOnce-execute call principal w id once =
      let evaluated = evaluate runtime services engine settings true call principal w in
      IsOnce-act_on call principal evaluated.1 evaluated.0 id (
        rw
          (ledger-runs id evaluated.0 w
            (evaluate-runs runtime services engine settings true call principal w))
          once)

  ledger-some_result :
      (id : String) (x : World × Outcome ExecutionResult)
      → ledger id (some_result runtime services engine settings x).0 ≡ ledger id x.0
  unfolding some_result
  ledger-some_result id (w, returned r) = refl
  ledger-some_result id (w, raised) = refl

  IsOnce-consume_and_execute :
      (approval : ApprovalRow) (w : World) (id : String)
      → IsOnce (ledger id w) id
      → IsOnce (ledger id (consume_and_execute runtime services engine settings approval w).0) id
  unfolding consume_and_execute ledger
  IsOnce-consume_and_execute approval w id once = ground (
    arith,
    ledger-some_result id (
        execute_authorized runtime services engine settings approval.request
          (approved_principal runtime services engine settings approval) approval.request_hash none
          (consumed_world approval w)),
    IsOnce-execute_authorized approval.request
        (approved_principal runtime services engine settings approval) approval.request_hash none
        (consumed_world approval w) id once,
  )

  IsOnce-execute_current :
      (approval : ApprovalRow)
      (contexts : Option (List VerifiedProvenance × List (String × List FieldTaint))) (w : World)
      (id : String)
      → IsOnce (ledger id w) id
      → IsOnce
          (ledger id (execute_current runtime services engine settings approval contexts w).0)
          id
  unfolding execute_current
  IsOnce-execute_current approval none w id once = once
  IsOnce-execute_current approval (some contexts) w id once =
      elim (Bool-cases
        (is_deny (current_result runtime services engine settings approval contexts w).decision)) [
          | inl denied ↦ rw (denied, ledger-log runtime services engine settings id) once
          | inr passed ↦ rw passed (IsOnce-consume_and_execute approval w id once)
        ]

  IsOnce-execute_found :
      (approval : ApprovalRow) (w : World) (id : String)
      → IsOnce (ledger id w) id
      → IsOnce (ledger id (execute_found runtime services engine settings approval w).0) id
  unfolding execute_found
  IsOnce-execute_found approval w id once =
      grind (arith, ledger-log runtime services engine settings id, IsOnce-execute_current)

  pub IsOnce-execute_approved :
      (approval_id : String) (w : World) (id : String)
      → IsOnce (ledger id w) id
      → IsOnce (ledger id (execute_approved runtime services engine settings approval_id w).0) id
  unfolding execute_approved
  IsOnce-execute_approved approval_id w id once =
      grind (arith, ledger-log runtime services engine settings id, IsOnce-execute_found)
