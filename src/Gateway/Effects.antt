-- ===== src/Gateway/Effects.antt =====
-- src/sentinelgate/service.py: the calls of the executor in `execute` and `execute_approved`.
use sentinelgate.Prelude.{
  String, true, false, Option, none, some, List, [], ◌∷◌, ◌++◌, ◌≡◌, refl, sym, ap, ◌∙◌, arith,
  ◌==◌, eq_iff, any, Bool-cases, inl, inr, ◌⊎◌,
}
use sentinelgate.Json.{Fields, field, text, end}
use sentinelgate.Models.{
  allow, AgentPrincipal, ToolCallRequest, VerifiedProvenance, FieldTaint, PolicyDecision,
  ExecutionResult,
}
use sentinelgate.Runtime.{Runtime}
use sentinelgate.Policy.Config.{PolicyEngine}
use sentinelgate.Storage.Approvals.{
  ApprovalRow, Fetched, missing, found, integrity_error, get_approval, consume_approval,
}
use sentinelgate.Storage.Executions.{is_request, claim_execution}
use sentinelgate.Storage.Containment.{is_quarantined}
use sentinelgate.Gateway.World.{World, Services, Settings, is_observe, append_event}
use sentinelgate.Gateway.Contexts.{call_contexts}
use sentinelgate.Gateway.Guards.{is_deny}
use sentinelgate.Gateway.Decide.{evaluate}
use sentinelgate.Gateway.Authorized.{
  log, execute_claimed, execute_authorized, Outcome, returned, raised,
}
use sentinelgate.Gateway.Execute.{
  act_on, execute, execute_approved, execute_found, execute_current, consume_and_execute,
  some_result, approved_principal, current_result, is_ready,
}
use sentinelgate.Gateway.Frame.{runs, evaluate-runs}
use sentinelgate.Gateway.Ledger.{ledger, ledger-execute_claimed, invocation}
use sentinelgate.Gateway.Grants.{IsGranted, evaluate-IsGranted}

-- What happened to the calls of the executor: nothing, or one call for the request.
unfoldable pub Called : ToolCallRequest → World → World → Type 0
Called call w after = after.invoked ≡ (w.invoked ++ invocation call ∷ [])

unfoldable pub Uncalled : World → World → Type 0
Uncalled w after = after.invoked ≡ w.invoked

module _ (runtime : Runtime) (services : Services) (engine : PolicyEngine)
    (settings : Settings) where
  invoked-log :
      (event_type : String) (payload : Fields) (w : World)
      → (log runtime services engine settings event_type payload w).invoked ≡ w.invoked
  unfolding log append_event
  invoked-log event_type payload w = refl

  claim_fresh :
      (call : ToolCallRequest) (digest : String) (w : World)
      → (claim_execution call.request_id digest w.now w.executions).1 ≡ true
      → any (is_request call.request_id) w.executions ≡ false
  unfolding claim_execution
  claim_fresh call digest w h = ground arith

  execute_claimed_calls :
      (call : ToolCallRequest) (principal : AgentPrincipal) (digest : String)
      (decision : Option PolicyDecision) (w : World)
      → let after =
          (execute_claimed runtime services engine settings call principal digest decision w).0 in
        Uncalled w after ⊎ Called call w after
  unfolding Uncalled Called ledger
  execute_claimed_calls call principal digest decision w =
      elim (ledger-execute_claimed runtime services engine settings call.request_id call principal
        digest decision w) [
          | inl idle ↦ inl (ap (λ p. p.1) idle)
          | inr ran ↦ inr (ap (λ p. p.1) ran)
        ]

  execute_authorized_calls :
      (call : ToolCallRequest) (principal : AgentPrincipal) (digest : String)
      (decision : Option PolicyDecision) (w : World)
      → let after =
          (execute_authorized runtime services engine settings call principal digest decision
            w).0 in
        Uncalled w after
        ⊎ (Called call w after × (any (is_request call.request_id) w.executions ≡ false))
  unfolding execute_authorized Uncalled Called
  execute_authorized_calls call principal digest decision w = ground (
    arith,
    claim_fresh call digest w,
    execute_claimed_calls call principal digest decision
        (record w { executions = (claim_execution call.request_id digest w.now w.executions).0 }),
  )

  act_on_calls :
      (call : ToolCallRequest) (principal : AgentPrincipal) (decision : PolicyDecision) (w : World)
      → let after = (act_on runtime services engine settings call principal decision w).0 in
        Uncalled w after
        ⊎ (Called call w after
            × (any (is_request call.request_id) w.executions ≡ false)
            × (is_observe settings.enforcement_mode ≡ false)
            × (decision.decision ≡ allow))
  unfolding act_on Uncalled Called is_observe
  act_on_calls call principal decision w =
      ground
        (arith, execute_authorized_calls call principal decision.request_hash (some decision) w)

  -- A call of `execute` runs no tool, or it runs the requested one once, and then the mode is not
  -- observe, the request was not claimed before, the agent is not quarantined, and the provenance,
  -- the policy and the executor allow it.
  pub execute-calls :
      (call : ToolCallRequest) (principal : AgentPrincipal) (w : World)
      → let after = (execute runtime services engine settings call principal w).0 in
        Uncalled w after
        ⊎ (Called call w after
            × (any (is_request call.request_id) w.executions ≡ false)
            × (is_observe settings.enforcement_mode ≡ false)
            × IsGranted runtime services engine settings call principal w)
  unfolding execute Uncalled Called runs
  execute-calls call principal w =
      let evaluated = evaluate runtime services engine settings true call principal w in
      let same = evaluate-runs runtime services engine settings true call principal w in
      elim (act_on_calls call principal evaluated.1 evaluated.0) [
        | inl idle ↦ inl (idle ∙ ap (λ r. r.1) same)
        | inr (ran, fresh, enforced, allowed) ↦ inr (
          ran ∙ ap (λ r. r.1 ++ invocation call ∷ []) same,
          sym (ap (λ r. any (is_request call.request_id) r.0) same) ∙ fresh,
          enforced,
          evaluate-IsGranted runtime services engine settings call principal w allowed,
        )
      ]

  invoked-some_result :
      (x : World × Outcome ExecutionResult)
      → (some_result runtime services engine settings x).0 ≡ x.0
  unfolding some_result
  invoked-some_result (w, returned r) = refl
  invoked-some_result (w, raised) = refl

  -- What an approval stands for when its request is run.
  unfoldable pub IsRunnable : ApprovalRow → World → Type 0
  IsRunnable approval w =
      let principal = approved_principal runtime services engine settings approval in
      (is_ready runtime services engine settings approval w.now ≡ true)
      × (services.request_hash approval.request principal ≡ approval.request_hash)
      × (is_quarantined approval.tenant_id approval.agent_id w.now w.contained ≡ false)
      × (any (is_request approval.request.request_id) w.executions ≡ false)
      × ((contexts : List VerifiedProvenance × List (String × List FieldTaint)) × (call_contexts
              services engine approval.request principal w
            ≡ some contexts)
          × (is_deny (current_result runtime services engine settings approval contexts w).decision
              ≡ false))

  consume_and_execute_calls :
      (approval : ApprovalRow) (w : World)
      → let after = (consume_and_execute runtime services engine settings approval w).0 in
        Uncalled w after
        ⊎ (Called approval.request w after
            × (any (is_request approval.request.request_id) w.executions ≡ false))
  unfolding consume_and_execute Uncalled Called
  consume_and_execute_calls approval w =
      let consumed : World = record w {
        approvals = (consume_approval approval.id w.now w.approvals).0;
      } in
      let principal = approved_principal runtime services engine settings approval in
      ground (
        arith,
        invoked-some_result (
            execute_authorized runtime services engine settings approval.request principal
              approval.request_hash none consumed),
        execute_authorized_calls approval.request principal approval.request_hash none consumed,
      )

  execute_current_calls :
      (approval : ApprovalRow)
      (contexts : Option (List VerifiedProvenance × List (String × List FieldTaint))) (w : World)
      → let after = (execute_current runtime services engine settings approval contexts w).0 in
        Uncalled w after
        ⊎ (Called approval.request w after
            × (any (is_request approval.request.request_id) w.executions ≡ false)
            × ((c : List VerifiedProvenance × List (String × List FieldTaint)) × (contexts ≡ some c)
                × (is_deny (current_result runtime services engine settings approval c w).decision
                    ≡ false)))
  unfolding execute_current Uncalled Called
  execute_current_calls approval none w = inl refl
  execute_current_calls approval (some contexts) w =
      elim (Bool-cases
        (is_deny (current_result runtime services engine settings approval contexts w).decision)) [
          | inl denied ↦ inl (simp (denied, invoked-log))
          | inr passed ↦ elim (consume_and_execute_calls approval w) [
            | inl idle ↦ inl (rw passed idle)
            | inr (ran, fresh) ↦ inr (rw passed ran, fresh, (contexts, refl, passed))
          ]
        ]

  execute_found_calls :
      (approval : ApprovalRow) (w : World)
      → let after = (execute_found runtime services engine settings approval w).0 in
        Uncalled w after ⊎ (Called approval.request w after × IsRunnable approval w)
  unfolding execute_found Uncalled Called IsRunnable approved_principal
  execute_found_calls approval w =
      let principal = approved_principal runtime services engine settings approval in
      elim (Bool-cases (is_ready runtime services engine settings approval w.now)) [
        | inr closed ↦ inl (rw closed refl)
        | inl ready ↦
            elim (Bool-cases
              (services.request_hash approval.request principal == approval.request_hash)) [
                | inr altered ↦ inl (simp (ready, altered, invoked-log))
                | inl same ↦
                    elim (Bool-cases
                      (is_quarantined principal.tenant_id principal.agent_id w.now w.contained)) [
                        | inl caught ↦ inl (rw (ready, same, caught) refl)
                        | inr free ↦
                            elim (execute_current_calls approval
                              (call_contexts services engine approval.request principal w) w) [
                                | inl idle ↦ inl (rw (ready, same, free) idle)
                                | inr (ran, fresh, current) ↦ inr (
                                  rw (ready, same, free) ran,
                                  (ready, (eq_iff _ _).0 same, free, fresh, current),
                                )
                              ]
                      ]
              ]
      ]

  -- A run of an approval calls no tool, or it calls the tool of that approval's request once, and then
  -- the approval was approved and not expired, its request hashes to what was approved, its agent is
  -- not quarantined, the request was not claimed, and the current policy does not deny it.
  pub execute_approved-calls :
      (approval_id : String) (w : World)
      → let after = (execute_approved runtime services engine settings approval_id w).0 in
        Uncalled w after
        ⊎ ((approval : ApprovalRow) × (get_approval approval_id w.approvals ≡ found approval)
            × Called approval.request w after
            × IsRunnable approval w)
  unfolding execute_approved Uncalled
  execute_approved-calls approval_id w = go (get_approval approval_id w.approvals) refl
    where
      go :
          (f : Fetched)
          → get_approval approval_id w.approvals ≡ f
          → Uncalled w (execute_approved runtime services engine settings approval_id w).0
            ⊎ ((approval : ApprovalRow) × (get_approval approval_id w.approvals ≡ found approval)
                × Called approval.request w
                    (execute_approved runtime services engine settings approval_id w).0
                × IsRunnable approval w)
      go missing e = inl (rw (e, execute_approved) refl)
      go integrity_error e = inl (
          rw (e, execute_approved)
            (invoked-log "approval_integrity_failure" (field "approval_id" (text approval_id) end)
              w))
      go (found approval) e = elim (execute_found_calls approval w) [
        | inl idle ↦ inl (rw (e, execute_approved) idle)
        | inr (ran, runnable) ↦ inr (approval, e, rw (e, execute_approved) ran, runnable)
      ]
