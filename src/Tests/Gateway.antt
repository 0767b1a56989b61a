-- ===== src/Tests/Gateway.antt =====
-- The gateway's theorems at the small deployment.
use sentinelgate.Prelude.{
  true, false, some, [], ◌∷◌, ◌≡◌, refl, ◌⊎◌, ◌≤◌, ◌∙◌, get_key, any, newest, select, count,
}
use sentinelgate.Models.{allow}
use sentinelgate.Storage.Approvals.{ApprovalRow, found, get_approval}
use sentinelgate.Storage.Executions.{is_request}
use sentinelgate.Gateway.World.{World, is_observe}
use sentinelgate.Gateway.Decide.{
  evaluate, evaluate_limited, evaluate_contexts, rate_step, is_operational,
}
use sentinelgate.Gateway.Guards.{
  guarded_result, egress_guard, validated, apply_mcp_integrity, is_deny, is_unbound, egress_result,
  single_limit, egress_amount, hourly_budget,
}
use sentinelgate.Policy.Config.{tool_config}
use sentinelgate.Tests.Policy.{sample_call-evaluated}
use sentinelgate.Gateway.Contexts.{
  call_contexts, provenance_contexts, stored_contexts, field_provenance_contexts,
}
use sentinelgate.Storage.Limits.{
  egress_allowed, egress_used, rate_allowed, recent_rate, is_recent_rate, kept_rate,
}
use sentinelgate.Storage.Lineage.{
  trace_has_category, trace_summary, list_lineage, recent_agent_lineage, sorted_lineage,
}
use sentinelgate.Storage.Containment.{is_quarantined, active_containment}
use sentinelgate.Gateway.Execute.{execute, execute_approved, simulate_calls}
use sentinelgate.Gateway.Frame.{runs, evaluate-runs}
use sentinelgate.Gateway.Grants.{decision-conclude, IsGranted, evaluate-IsGranted}
use sentinelgate.Gateway.Effects.{
  Called, Uncalled, IsRunnable, execute-calls, execute_approved-calls,
}
use sentinelgate.Gateway.Once.{calls_for}
use sentinelgate.Gateway.Reach.{executes, Reachable, start, next, calls_for-le-one}
use sentinelgate.Gateway.Simulation.{simulate_calls_pure}
use sentinelgate.Storage.Snapshots.{Snapshot}
use sentinelgate.Tests.Data.{
  sample_runtime, sample_services, sample_engine, sample_settings, sample_call, unknown_call,
  sample_principal, empty_world,
}

-- The state after the call.
abbrev ran_world : World
ran_world =
    (execute sample_runtime sample_services sample_engine sample_settings sample_call
      sample_principal empty_world).0

execute-calls_example :
    Uncalled empty_world ran_world
    ⊎ (Called sample_call empty_world ran_world
        × (any (is_request sample_call.request_id) empty_world.executions ≡ false)
        × (is_observe sample_settings.enforcement_mode ≡ false)
        × IsGranted sample_runtime sample_services sample_engine sample_settings sample_call
            sample_principal empty_world)
execute-calls_example =
    execute-calls sample_runtime sample_services sample_engine sample_settings sample_call
      sample_principal empty_world

-- An approved request of the agent.
abbrev approved_row : ApprovalRow
approved_row = record {
  id = "approval-1";
  request = sample_call;
  sealed = true;
  request_hash = "request-1";
  agent_id = "agent";
  tenant_id = "tenant";
  scopes = "send" ∷ [];
  status = "approved";
  created_at = 0;
  expires_at = 9000000;
  resolved_at = some 10;
  reviewer = some "reviewer";
  note = "";
}

abbrev approved_world : World
approved_world = record empty_world { approvals = approved_row ∷ [] }

execute_approved-calls_example :
    Uncalled approved_world
      (execute_approved sample_runtime sample_services sample_engine sample_settings "approval-1"
        approved_world).0
    ⊎ ((approval : ApprovalRow) × (get_approval "approval-1" approved_world.approvals
          ≡ found approval)
        × Called approval.request approved_world
            (execute_approved sample_runtime sample_services sample_engine sample_settings
              "approval-1" approved_world).0
        × IsRunnable sample_runtime sample_services sample_engine sample_settings approval
            approved_world)
execute_approved-calls_example =
    execute_approved-calls sample_runtime sample_services sample_engine sample_settings "approval-1"
      approved_world

-- The state after one call is reachable.
ran_world-Reachable :
    Reachable sample_runtime sample_services sample_engine sample_settings ran_world
ran_world-Reachable =
    next empty_world ran_world (start empty_world refl) (executes sample_call sample_principal refl)

calls_for-le-one_example : calls_for "request-1" ran_world.invoked ≤ 1
calls_for-le-one_example =
    calls_for-le-one sample_runtime sample_services sample_engine sample_settings ran_world
      "request-1" ran_world-Reachable

-- The state after the rate limit.
abbrev limited_world : World
limited_world =
    (rate_step sample_runtime sample_services sample_engine sample_settings true sample_principal
      empty_world).0

sample_call-contexts :
    call_contexts sample_services sample_engine sample_call sample_principal limited_world
    ≡ some ([], [])
unfolding call_contexts provenance_contexts stored_contexts field_provenance_contexts any
    trace_summary list_lineage recent_agent_lineage select sorted_lineage rate_step rate_allowed
sample_call-contexts = refl

sample_call-guarded :
    (guarded_result sample_runtime sample_services sample_engine true sample_call sample_principal
      [] [] [] limited_world).decision
    ≡ allow
unfolding guarded_result egress_guard validated apply_mcp_integrity is_deny tool_config get_key
    is_unbound egress_result single_limit egress_amount hourly_budget egress_allowed egress_used
    trace_has_category any rate_step
sample_call-guarded = rw sample_call-evaluated refl

sample_call-allowed :
    (evaluate sample_runtime sample_services sample_engine sample_settings true sample_call
      sample_principal empty_world).1.decision
    ≡ allow
unfolding evaluate evaluate_limited evaluate_contexts is_operational active_containment select
    newest is_quarantined any rate_allowed recent_rate is_recent_rate kept_rate count
sample_call-allowed = rw sample_call-contexts (
    decision-conclude sample_runtime sample_services sample_engine sample_settings true sample_call
      sample_principal "request-1" [] [] []
      (guarded_result sample_runtime sample_services sample_engine true sample_call sample_principal
        [] [] [] limited_world)
      limited_world
    ∙ sample_call-guarded)

evaluate-IsGranted_example :
    IsGranted sample_runtime sample_services sample_engine sample_settings sample_call
      sample_principal empty_world
evaluate-IsGranted_example =
    evaluate-IsGranted sample_runtime sample_services sample_engine sample_settings sample_call
      sample_principal empty_world sample_call-allowed

evaluate-runs_example :
    runs
      (evaluate sample_runtime sample_services sample_engine sample_settings true unknown_call
        sample_principal empty_world).0
    ≡ runs empty_world
evaluate-runs_example =
    evaluate-runs sample_runtime sample_services sample_engine sample_settings true unknown_call
      sample_principal empty_world

simulate_calls_pure_example :
    (simulate_calls sample_runtime sample_services sample_engine sample_settings sample_principal
      (sample_call ∷ unknown_call ∷ [])
      empty_world).0
    ≡ empty_world
simulate_calls_pure_example =
    simulate_calls_pure sample_runtime sample_services sample_engine sample_settings
      sample_principal (sample_call ∷ unknown_call ∷ []) empty_world

abbrev sample_snapshot : Snapshot
sample_snapshot = record {
  tenant_id = "tenant";
  agent_id = "agent";
  scopes = "send" ∷ [];
  call = sample_call;
  provenance = [];
  field_provenance = [];
  findings = [];
  original_decision = allow;
  created_at = 5;
}
