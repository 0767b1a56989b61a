-- ===== src/Gateway/Replay.antt =====
-- `replay_policy` of src/sentinelgate/service.py: the stored calls under a policy, the current one
-- or a proposed one.
use sentinelgate.Prelude.{ℕ, ◌+◌, String, Bool, not, List, ◌==◌, map, count, length}
use sentinelgate.Models.{Decision, allow, deny, require_approval, decision_value, AgentPrincipal}
use sentinelgate.Runtime.{Runtime}
use sentinelgate.Policy.Config.{PolicyEngine}
use sentinelgate.Policy.Evaluate.{evaluate as evaluate_policy}
use sentinelgate.Storage.Approvals.{seconds}
use sentinelgate.Storage.Snapshots.{Snapshot, list_policy_snapshots}

pub record ReplayDecision : Type 0 where
  pub request_id : String
  pub trace_id : String
  pub tool_name : String
  pub original_decision : Decision
  pub replayed_decision : Decision
  pub changed : Bool
  pub reason_codes : List String

pub record ReplayResult : Type 0 where
  pub policy_version : String
  pub evaluated : ℕ
  pub changed : ℕ
  pub allowed : ℕ
  pub denied : ℕ
  pub needing_approval : ℕ
  pub decisions : List ReplayDecision

-- `a is b`
unfoldable pub same_decision : Decision → Decision → Bool
same_decision a b = decision_value a == decision_value b

module _ (runtime : Runtime) (engine : PolicyEngine) (now : ℕ) where
  unfoldable pub replayed_principal : Snapshot → AgentPrincipal
  replayed_principal snapshot = record {
    agent_id = snapshot.agent_id;
    tenant_id = snapshot.tenant_id;
    scopes = snapshot.scopes;
    token_id = "policy-replay";
    expires_at = now + seconds 300;
  }

  unfoldable pub replay_one : Snapshot → ReplayDecision
  unfolding replayed_principal same_decision
  replay_one snapshot =
      let outcome =
        evaluate_policy runtime engine snapshot.call (replayed_principal snapshot)
          snapshot.provenance snapshot.findings snapshot.field_provenance in
      record {
        request_id = snapshot.call.request_id;
        trace_id = snapshot.call.trace_id;
        tool_name = snapshot.call.tool_name;
        original_decision = snapshot.original_decision;
        replayed_decision = outcome.decision;
        changed = not (same_decision outcome.decision snapshot.original_decision);
        reason_codes = outcome.reasons;
      }

  -- `counts[outcome]` after the loop
  unfoldable pub count_decision : Decision → List ReplayDecision → ℕ
  unfolding same_decision
  count_decision decision = count (λ r. same_decision r.replayed_decision decision)

  unfoldable pub replay_policy : ℕ → List Snapshot → ReplayResult
  unfolding replay_one count_decision
  replay_policy limit table =
      let replayed = map replay_one (list_policy_snapshots limit table) in
      record {
        policy_version = engine.version;
        evaluated = length replayed;
        changed = count (λ r. r.changed) replayed;
        allowed = count_decision allow replayed;
        denied = count_decision deny replayed;
        needing_approval = count_decision require_approval replayed;
        decisions = replayed;
      }
