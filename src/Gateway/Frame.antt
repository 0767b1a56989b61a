-- ===== src/Gateway/Frame.antt =====
-- `GatewayService.evaluate` of src/sentinelgate/service.py, the table of executions, and the calls of
-- the executor.
use sentinelgate.Prelude.{
  String, Bool, true, false, Option, none, some, List, ◌≡◌, refl, ◌∙◌, arith,
}
use sentinelgate.Models.{
  AgentPrincipal, ToolCallRequest, SecurityFinding, VerifiedProvenance, FieldTaint, Evaluation,
}
use sentinelgate.Runtime.{Runtime}
use sentinelgate.Policy.Config.{PolicyEngine}
use sentinelgate.Storage.Executions.{Execution}
use sentinelgate.Gateway.World.{World, Invocation, Services, Settings, append_event}
use sentinelgate.Gateway.Finalize.{punish, answer_violation, watch, finalize}
use sentinelgate.Gateway.Decide.{
  announce, request_approval, keep_snapshot, rate_step, evaluate_contexts, evaluate_limited,
  evaluate, conclude,
}

-- The executions and the calls of the executor.
unfoldable pub runs : World → List Execution × List Invocation
runs w = (w.executions, w.invoked)

module _ (runtime : Runtime) (services : Services) (engine : PolicyEngine)
    (settings : Settings) where
  pub runs-watch :
      (call : ToolCallRequest) (principal : AgentPrincipal) (outcome event : String) (w : World)
      → runs (watch runtime services engine settings call principal outcome event w) ≡ runs w
  unfolding runs watch append_event
  runs-watch call principal outcome event w = ground arith

  runs-answer_violation :
      (call : ToolCallRequest) (principal : AgentPrincipal) (result : Evaluation) (w : World)
      → runs (answer_violation runtime services engine settings call principal result w).0 ≡ runs w
  unfolding runs answer_violation punish
  runs-answer_violation call principal result w = ground arith

  pub runs-finalize :
      (call : ToolCallRequest) (principal : AgentPrincipal) (digest : String) (result : Evaluation)
      (findings : List SecurityFinding) (approval_id : Option String)
      (quarantined side_effects : Bool) (w : World)
      → runs
          (finalize runtime services engine settings call principal digest result findings
            approval_id quarantined side_effects w).0
        ≡ runs w
  unfolding runs finalize append_event
  runs-finalize call principal digest result findings approval_id quarantined false w = refl
  runs-finalize call principal digest result findings approval_id quarantined true w =
      runs-watch call principal _ _ _ ∙ runs-answer_violation call principal result _

  runs-request_approval :
      (operational : Bool) (call : ToolCallRequest) (principal : AgentPrincipal) (digest : String)
      (result : Evaluation) (w : World)
      → runs
          (request_approval runtime services engine settings operational call principal digest
            result w).0
        ≡ runs w
  unfolding runs request_approval announce append_event
  runs-request_approval operational call principal digest result w = ground arith

  runs-keep_snapshot :
      (side_effects : Bool) (call : ToolCallRequest) (principal : AgentPrincipal)
      (contexts : List VerifiedProvenance) (fields : List (String × List FieldTaint))
      (findings : List SecurityFinding) (result : Evaluation) (w : World)
      → runs (
          keep_snapshot runtime services engine settings side_effects call principal contexts fields
            findings result w)
        ≡ runs w
  unfolding runs keep_snapshot
  runs-keep_snapshot false call principal contexts fields findings result w = refl
  runs-keep_snapshot true call principal contexts fields findings result w = refl

  runs-conclude :
      (side_effects : Bool) (call : ToolCallRequest) (principal : AgentPrincipal) (digest : String)
      (findings : List SecurityFinding) (contexts : List VerifiedProvenance)
      (fields : List (String × List FieldTaint)) (result : Evaluation) (w : World)
      → runs
          (conclude runtime services engine settings side_effects call principal digest findings
            contexts fields result w).0
        ≡ runs w
  unfolding conclude
  runs-conclude side_effects call principal digest findings contexts fields result w =
      simp (runs-finalize, runs-keep_snapshot, runs-request_approval)

  runs-evaluate_contexts :
      (side_effects : Bool) (call : ToolCallRequest) (principal : AgentPrincipal) (digest : String)
      (findings : List SecurityFinding)
      (contexts : Option (List VerifiedProvenance × List (String × List FieldTaint))) (w : World)
      → runs
          (evaluate_contexts runtime services engine settings side_effects call principal digest
            findings contexts w).0
        ≡ runs w
  unfolding evaluate_contexts
  runs-evaluate_contexts side_effects call principal digest findings none w = simp runs-finalize
  runs-evaluate_contexts side_effects call principal digest findings (some (contexts, fields)) w =
      simp runs-conclude

  runs-rate_step :
      (operational : Bool) (principal : AgentPrincipal) (w : World)
      → runs (rate_step runtime services engine settings operational principal w).0 ≡ runs w
  unfolding runs rate_step
  runs-rate_step false principal w = refl
  runs-rate_step true principal w = refl

  runs-evaluate_limited :
      (side_effects : Bool) (call : ToolCallRequest) (principal : AgentPrincipal) (digest : String)
      (findings : List SecurityFinding) (w : World)
      → runs
          (evaluate_limited runtime services engine settings side_effects call principal digest
            findings w).0
        ≡ runs w
  unfolding evaluate_limited
  runs-evaluate_limited side_effects call principal digest findings w =
      grind (arith, runs-rate_step, runs-finalize, runs-evaluate_contexts)

  -- An evaluation runs no tool and claims no request, with or without side effects.
  pub evaluate-runs :
      (side_effects : Bool) (call : ToolCallRequest) (principal : AgentPrincipal) (w : World)
      → runs (evaluate runtime services engine settings side_effects call principal w).0 ≡ runs w
  unfolding evaluate
  evaluate-runs side_effects call principal w = grind (arith, runs-finalize, runs-evaluate_limited)
