-- ===== src/Gateway/Simulation.antt =====
-- `simulate` of src/sentinelgate/service.py, and every evaluation without side effects.
use sentinelgate.Prelude.{String, false, Option, none, some, List, [], ◌∷◌, ◌≡◌, refl, ◌∙◌, arith}
use sentinelgate.Json.{object}
use sentinelgate.Gateway.Contexts.{call_contexts}
use sentinelgate.Models.{
  AgentPrincipal, ToolCallRequest, SecurityFinding, VerifiedProvenance, FieldTaint, Evaluation,
}
use sentinelgate.Runtime.{Runtime}
use sentinelgate.Policy.Config.{PolicyEngine}
use sentinelgate.Gateway.World.{World, Services, Settings}
use sentinelgate.Gateway.Guards.{guarded_result}
use sentinelgate.Gateway.Finalize.{finalize}
use sentinelgate.Gateway.Decide.{
  request_approval, keep_snapshot, conclude, evaluate_contexts, evaluate, is_operational,
}
use sentinelgate.Gateway.Execute.{simulate_calls}

module _ (runtime : Runtime) (services : Services) (engine : PolicyEngine)
    (settings : Settings) where
  conclude_pure :
      (call : ToolCallRequest) (principal : AgentPrincipal) (digest : String)
      (findings : List SecurityFinding) (contexts : List VerifiedProvenance)
      (fields : List (String × List FieldTaint)) (result : Evaluation) (w : World)
      → (conclude runtime services engine settings false call principal digest findings contexts
          fields result w).0
        ≡ w
  unfolding conclude request_approval keep_snapshot finalize is_operational
  conclude_pure call principal digest findings contexts fields result w = ground arith

  evaluate_contexts_pure :
      (call : ToolCallRequest) (principal : AgentPrincipal) (digest : String)
      (findings : List SecurityFinding)
      (contexts : Option (List VerifiedProvenance × List (String × List FieldTaint))) (w : World)
      → (evaluate_contexts runtime services engine settings false call principal digest findings
          contexts w).0
        ≡ w
  unfolding evaluate_contexts finalize
  evaluate_contexts_pure call principal digest findings none w = refl
  evaluate_contexts_pure call principal digest findings (some (contexts, fields)) w =
      conclude_pure call principal digest findings contexts fields
        (guarded_result runtime services engine
          (is_operational runtime services engine settings false) call principal contexts fields
          findings w)
        w

  -- An evaluation without side effects leaves the whole state as it was, whatever it decides.
  pub evaluate_pure :
      (call : ToolCallRequest) (principal : AgentPrincipal) (w : World)
      → (evaluate runtime services engine settings false call principal w).0 ≡ w
  unfolding evaluate
  evaluate_pure call principal w =
      evaluate_contexts_pure call principal (services.request_hash call principal)
        (services.scan_secrets (object call.arguments))
        (call_contexts services engine call principal w) w

  -- A simulation of any calls leaves the whole state as it was.
  pub simulate_calls_pure :
      (principal : AgentPrincipal) (calls : List ToolCallRequest) (w : World)
      → (simulate_calls runtime services engine settings principal calls w).0 ≡ w
  unfolding simulate_calls
  simulate_calls_pure principal [] w = refl
  simulate_calls_pure principal (call ∷ calls) w =
      simulate_calls_pure principal calls _ ∙ evaluate_pure call principal w
