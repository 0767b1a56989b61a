-- ===== src/Gateway/Reach.antt =====
-- src/sentinelgate/service.py over time: the states that the gateway reaches by any sequence of its
-- operations and of changes elsewhere.
use sentinelgate.Prelude.{◌≤◌, String, Bool, [], ◌≡◌, count, arith}
use sentinelgate.Models.{AgentPrincipal, ToolCallRequest}
use sentinelgate.Runtime.{Runtime}
use sentinelgate.Policy.Config.{PolicyEngine}
use sentinelgate.Gateway.World.{World, Services, Settings}
use sentinelgate.Gateway.Frame.{runs, evaluate-runs}
use sentinelgate.Gateway.Decide.{evaluate}
use sentinelgate.Gateway.Ledger.{ledger, ledger-runs}
use sentinelgate.Gateway.Execute.{execute, execute_approved}
use sentinelgate.Gateway.Once.{IsOnce, calls_for, IsOnce-execute, IsOnce-execute_approved}

module _ (runtime : Runtime) (services : Services) (engine : PolicyEngine)
    (settings : Settings) where
  -- One thing that happens to the gateway's state: a call, the run of an approval, an evaluation, or
  -- any change elsewhere (the clock, the reviewers, the containments), which runs no tool.
  pub data Step (v w : World) : Type 0 where
    executes :
        (call : ToolCallRequest) (principal : AgentPrincipal)
        → w ≡ (execute runtime services engine settings call principal v).0
        → Step v w
    runs_approved :
        (approval_id : String)
        → w ≡ (execute_approved runtime services engine settings approval_id v).0
        → Step v w
    evaluates :
        (side_effects : Bool) (call : ToolCallRequest) (principal : AgentPrincipal)
        → w ≡ (evaluate runtime services engine settings side_effects call principal v).0
        → Step v w
    elsewhere : runs w ≡ runs v → Step v w

  -- The states that follow one in which no tool has run.
  pub data Reachable : World → Type 0 where
    start : (w : World) → w.invoked ≡ [] → Reachable w
    next : (v w : World) → Reachable v → Step v w → Reachable w

  IsOnce-Step :
      (v w : World) (id : String) → Step v w → IsOnce (ledger id v) id → IsOnce (ledger id w) id
  IsOnce-Step v w id (executes call principal e) once =
      rw e (IsOnce-execute runtime services engine settings call principal v id once)
  IsOnce-Step v w id (runs_approved approval_id e) once =
      rw e (IsOnce-execute_approved runtime services engine settings approval_id v id once)
  IsOnce-Step v w id (evaluates side_effects call principal e) once =
      rw
        (
          e,
          ledger-runs id (evaluate runtime services engine settings side_effects call principal v).0
              v (evaluate-runs runtime services engine settings side_effects call principal v),
        )
        once
  IsOnce-Step v w id (elsewhere e) once = rw (ledger-runs id w v e) once

  IsOnce-Reachable : (w : World) (id : String) → Reachable w → IsOnce (ledger id w) id
  unfolding IsOnce ledger calls_for count
  IsOnce-Reachable _ id (start w none_yet) = rw none_yet (grind arith)
  IsOnce-Reachable _ id (next v w before step) =
      IsOnce-Step v w id step (IsOnce-Reachable v id before)

  -- In every state that the gateway reaches from one in which no tool has run, by calls, runs of
  -- approvals, evaluations and changes elsewhere in any order, the executor has been called at most
  -- once for each request.
  pub calls_for-le-one : (w : World) (id : String) → Reachable w → calls_for id w.invoked ≤ 1
  unfolding IsOnce ledger
  calls_for-le-one w id reachable = ground (arith, IsOnce-Reachable w id reachable)
