-- ===== src/Gateway/Guards.antt =====
-- The verdicts of `GatewayService` of src/sentinelgate/service.py that need no write: the
-- containment's, `_apply_mcp_integrity`, the executor's validation and the egress rules.
use sentinelgate.Prelude.{
  ℕ, ◌-◌, String, Bool, true, false, not, ◌&&◌, Option, none, some, get_or, List, [], ◌∷◌, ◌++◌,
  ◌==◌, map, ltb, contains, sorted_set, truthy, cat, if◌then◌else◌,
}
use sentinelgate.Json.{object}
use sentinelgate.Models.{
  Decision, deny, require_approval, mode_upper, ContainmentMode, AgentPrincipal, ToolCallRequest,
  SecurityFinding, VerifiedProvenance, FieldTaint, Evaluation,
}
use sentinelgate.Runtime.{Runtime}
use sentinelgate.Policy.Config.{PolicyEngine, ToolPolicy, tool_config}
use sentinelgate.Policy.Verdict.{verdict}
use sentinelgate.Policy.Evaluate.{evaluate as evaluate_policy}
use sentinelgate.Storage.Approvals.{seconds}
use sentinelgate.Storage.Limits.{egress_allowed}
use sentinelgate.Storage.Containment.{ContainmentRow, blocks_all}
use sentinelgate.Storage.Lineage.{trace_has_category}
use sentinelgate.Storage.Mcp.{Observation, get_mcp_tool_observation}
use sentinelgate.Gateway.World.{World, Services}

-- `decision is Decision.DENY`, and the other two
unfoldable pub is_deny : Decision → Bool
is_deny deny = true
is_deny _ = false

unfoldable pub is_review : Decision → Bool
is_review require_approval = true
is_review _ = false

unfoldable pub is_stale : ℕ → ℕ → ℕ → Bool
is_stale ttl now observed_at = ltb observed_at (now - seconds ttl)

module _ (runtime : Runtime) (services : Services) (engine : PolicyEngine) where
  -- The denial or the review that an observation of the tool asks for.
  unfoldable pub observed_result : Option Observation → ℕ → Evaluation → Evaluation
  unfolding is_stale
  observed_result none now result =
      verdict deny ("MCP_TOOL_NOT_INSPECTED" ∷ []) "critical" engine.version
  observed_result (some observation) now result =
      let reasons =
        cat "MCP_INTEGRITY:" (runtime.upper observation.status)
        ∷ map (cat "MCP_FINDING:") observation.findings in
      if is_stale (get_or engine.defaults.mcp_observation_ttl_seconds 3600) now
        observation.observed_at
      then verdict deny ("MCP_TOOL_INSPECTION_STALE" ∷ []) "critical" engine.version
      else if observation.status == "blocked"
      then verdict deny reasons "critical" engine.version
      else if observation.status == "review"
      then verdict require_approval (sorted_set (result.reasons ++ reasons)) "high" engine.version
      else result

  -- `expected_server and call.mcp_server_id != expected_server`
  unfoldable pub is_unbound : Option String → Option String → Bool
  is_unbound expected none = truthy expected
  is_unbound expected (some server) = truthy expected && not (server == get_or expected "")

  -- `str(tool.get("mcp_tool_name", call.tool_name))`
  unfoldable pub manifest_name : ToolCallRequest → String
  manifest_name call = elim (tool_config engine call.tool_name) [
    | none ↦ call.tool_name
    | some t ↦ get_or t.mcp_tool_name call.tool_name
  ]

  -- `tool.get("mcp_server_id")`
  unfoldable pub expected_server : ToolCallRequest → Option String
  expected_server call = elim (tool_config engine call.tool_name) [
    | none ↦ none
    | some t ↦ t.mcp_server_id
  ]

  unfoldable pub apply_mcp_integrity : ToolCallRequest → World → Evaluation → Evaluation
  unfolding observed_result is_unbound is_deny expected_server
  apply_mcp_integrity call w result =
      if is_deny result.decision
      then result
      else if is_unbound (expected_server call) call.mcp_server_id
      then verdict deny ("MCP_SERVER_BINDING_REQUIRED" ∷ []) "critical" engine.version
      else if not (truthy call.mcp_server_id)
      then result
      else observed_result
          (get_mcp_tool_observation (get_or call.mcp_server_id "") (manifest_name call)
            w.observations)
          w.now result

  -- `executor.validate`, for a result that is no denial
  unfoldable pub validated : ToolCallRequest → Evaluation → Evaluation
  unfolding is_deny
  validated call result =
      if not (is_deny result.decision) && not (services.validate call.tool_name call.arguments)
      then verdict deny ("INVALID_TOOL_ARGUMENTS" ∷ []) "high" engine.version
      else result

  -- The bytes that a call sends, and the hour's budget of its tool.
  unfoldable pub egress_amount : ToolCallRequest → ℕ
  egress_amount call = runtime.byte_length (runtime.dumps (object call.arguments))

  unfoldable pub hourly_budget : ToolPolicy → ℕ
  hourly_budget t =
      get_or t.hourly_egress_bytes (get_or engine.defaults.hourly_egress_bytes 1000000)

  unfoldable pub single_limit : ToolPolicy → ℕ
  single_limit t = get_or t.max_egress_bytes (get_or engine.defaults.max_egress_bytes 100000)

  -- The egress rules, for a tool with `egress`.
  unfoldable pub egress_result :
      ToolCallRequest → AgentPrincipal → World → ToolPolicy → Evaluation → Evaluation
  unfolding egress_amount hourly_budget single_limit
  egress_result call principal w t result =
      if ltb (single_limit t) (egress_amount call)
      then verdict deny ("EGRESS_SINGLE_LIMIT_EXCEEDED" ∷ []) "critical" engine.version
      else if not (
          egress_allowed principal.tenant_id principal.agent_id (egress_amount call)
            (hourly_budget t) w.now w.egress)
      then verdict deny ("EGRESS_HOURLY_BUDGET_EXCEEDED" ∷ []) "critical" engine.version
      else if trace_has_category principal.tenant_id principal.agent_id call.trace_id
          "sensitive_read" 900 w.now w.actions
      then verdict require_approval
          (sorted_set (result.reasons ++ "SUSPICIOUS_SEQUENCE:SENSITIVE_READ_TO_EGRESS" ∷ []))
          "high" engine.version
      else result

  unfoldable pub egress_guard :
      Bool → ToolCallRequest → AgentPrincipal → World → Evaluation → Evaluation
  unfolding egress_result is_deny
  egress_guard operational call principal w result = elim (tool_config engine call.tool_name) [
    | none ↦ result
    | some t ↦
        if operational && not (is_deny result.decision) && t.egress
        then egress_result call principal w t result
        else result
  ]

  -- The containment's denial, and whether it is reported as a quarantine.
  unfoldable pub containment_result :
      ToolCallRequest → Option ContainmentRow → Option (Evaluation × Bool)
  unfolding blocks_all
  containment_result call none = none
  containment_result call (some c) =
      if blocks_all c.mode
      then some (
        verdict deny ("AGENT_QUARANTINED" ∷ cat "CONTAINMENT:" (mode_upper c.mode) ∷ []) "critical"
            engine.version,
        true,
      )
      else elim c.mode [
        | ContainmentMode.restrict ↦
            if contains call.tool_name c.allowed_tools
            then none
            else some
                (verdict deny ("CONTAINMENT:TOOL_RESTRICTED" ∷ []) "high" engine.version, false)
        | _ ↦ none
      ]

  -- `self.policy.evaluate`, and what follows it up to the egress rules.
  unfoldable pub guarded_result :
      Bool
      → ToolCallRequest
      → AgentPrincipal
      → List VerifiedProvenance
      → List (String × List FieldTaint)
      → List SecurityFinding
      → World
      → Evaluation
  unfolding apply_mcp_integrity validated egress_guard
  guarded_result operational call principal contexts fields findings w =
      egress_guard operational call principal w (
        validated call (
          apply_mcp_integrity call w
            (evaluate_policy runtime engine call principal contexts findings fields)))
