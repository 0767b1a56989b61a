-- ===== src/Gateway/Integrity.antt =====
-- `_apply_mcp_integrity` of src/sentinelgate/service.py, and the answer of `_finalize` to a violation.
use sentinelgate.Prelude.{
  ℕ, ◌+◌, ◌-◌, String, true, false, not, ◌&&◌, ◌||◌, List, contains, count, leb, eq_self,
  count-append, sym, ap, ◌∙◌, Bool-cases, inl, inr, ◌∷◌, Option, none, some, get_or, [], ◌≡◌, refl,
  arith, ◌==◌, truthy, any,
}
use sentinelgate.Models.{allow, AgentPrincipal, ToolCallRequest, Evaluation}
use sentinelgate.Runtime.{Runtime}
use sentinelgate.Policy.Config.{PolicyEngine}
use sentinelgate.Storage.Containment.{Contained, is_quarantined, quarantine_agent}
use sentinelgate.Storage.Containment.Quarantine.{apply_all, quarantine_agent-blocks}
use sentinelgate.Storage.Mcp.{Observation, get_mcp_tool_observation}
use sentinelgate.Gateway.World.{World, Services, Settings, is_observe, join}
use sentinelgate.Gateway.Guards.{
  is_deny, is_stale, observed_result, manifest_name, apply_mcp_integrity,
}
use sentinelgate.Gateway.Finalize.{is_violation, punish, answer_violation}
use sentinelgate.Storage.Approvals.{seconds}
use sentinelgate.Storage.Limits.{Violation, is_recent_violation, record_violation}

-- The count that `record_violation` answers.
recorded-count :
    (tenant_id agent_id severity reason : String) (window now : ℕ) (table : List Violation)
    → ((severity == "high") || (severity == "critical")) ≡ true
    → (record_violation tenant_id agent_id severity reason window now table).1
      ≡ count (is_recent_violation tenant_id agent_id (now - seconds window)) table + 1
unfolding record_violation is_recent_violation count
recorded-count tenant_id agent_id severity reason window now table severe = ground (
  arith,
  severe,
  eq_self tenant_id,
  eq_self agent_id,
  count-append (is_recent_violation tenant_id agent_id (now - seconds window)) table (
      record {
        tenant_id = tenant_id;
        agent_id = agent_id;
        severity = severity;
        reason = reason;
        created_at = now;
      }
      ∷ []),
)

module _ (runtime : Runtime) (services : Services) (engine : PolicyEngine)
    (settings : Settings) where
  -- An observation that lets a call pass.
  unfoldable pub IsClean : Observation → ℕ → Type 0
  IsClean o now =
      (is_stale (get_or engine.defaults.mcp_observation_ttl_seconds 3600) now o.observed_at ≡ false)
      × ((o.status == "blocked") ≡ false)
      × ((o.status == "review") ≡ false)

  observed_result-IsClean :
      (observation : Option Observation) (now : ℕ) (result : Evaluation)
      → (observed_result runtime services engine observation now result).decision ≡ allow
      → (o : Observation) × (observation ≡ some o) × IsClean o now
  unfolding observed_result IsClean
  observed_result-IsClean none now result h = ground arith
  observed_result-IsClean (some o) now result h = (o, refl, ground arith)

  observed_result_reached :
      (call : ToolCallRequest) (w : World) (result : Evaluation)
      → truthy call.mcp_server_id ≡ true
      → (apply_mcp_integrity runtime services engine call w result).decision ≡ allow
      → (observed_result runtime services engine
          (get_mcp_tool_observation
            (get_or call.mcp_server_id "")
            (manifest_name runtime services engine call)
            w.observations)
          w.now
          result).decision
        ≡ allow
  unfolding apply_mcp_integrity is_deny
  observed_result_reached call w result server h = ground arith

  -- If a call of an MCP server passes the integrity check as allowed, the store holds an observation of
  -- the tool under its manifest name at that server, fresh, and neither blocked nor under review.
  pub apply_mcp_integrity-IsClean :
      (call : ToolCallRequest) (w : World) (result : Evaluation)
      → truthy call.mcp_server_id ≡ true
      → (apply_mcp_integrity runtime services engine call w result).decision ≡ allow
      → (o : Observation) × (get_mcp_tool_observation
            (get_or call.mcp_server_id "")
            (manifest_name runtime services engine call)
            w.observations
          ≡ some o)
        × IsClean o w.now
  apply_mcp_integrity-IsClean call w result server h =
      observed_result-IsClean
        (get_mcp_tool_observation (get_or call.mcp_server_id "")
          (manifest_name runtime services engine call) w.observations)
        w.now result (observed_result_reached call w result server h)

  quarantine_agent_now :
      (uuid tenant_id agent_id reason : String) (now later : ℕ) (s : Contained)
      → is_quarantined tenant_id agent_id later
          (quarantine_agent uuid tenant_id agent_id reason now now s)
        ≡ true
  unfolding any apply_all
  quarantine_agent_now uuid tenant_id agent_id reason now later s =
      quarantine_agent-blocks uuid tenant_id agent_id reason now now later [] s refl

  punish-is_quarantined :
      (call : ToolCallRequest) (principal : AgentPrincipal) (result : Evaluation) (w : World)
      (later : ℕ)
      → ((result.risk == "high") || (result.risk == "critical")) ≡ true
      → let window = get_or engine.defaults.quarantine_window_seconds 300 in
        let threshold = get_or engine.defaults.quarantine_threshold 5 in
        let earlier =
          count
            (is_recent_violation principal.tenant_id principal.agent_id (w.now - seconds window))
            w.violations in
        let (after, became) = punish runtime services engine settings call principal result w in
        (became ≡ leb threshold (earlier + 1))
        × (is_quarantined principal.tenant_id principal.agent_id later after.contained
            ≡ (became || is_quarantined principal.tenant_id principal.agent_id later w.contained))
  unfolding punish
  punish-is_quarantined call principal result w later severe =
      let window = get_or engine.defaults.quarantine_window_seconds 300 in
      let counted =
        recorded-count principal.tenant_id principal.agent_id result.risk (join "," result.reasons)
          window w.now w.violations severe in
      let threshold = get_or engine.defaults.quarantine_threshold 5 in
      let answered =
        (record_violation principal.tenant_id principal.agent_id result.risk
          (join "," result.reasons) window w.now w.violations).1 in
      elim (Bool-cases (leb threshold answered)) [
        | inl e ↦
            rw (e, punish)
              (
                sym e ∙ ap (leb threshold) counted,
                quarantine_agent_now _ principal.tenant_id principal.agent_id _ w.now later
                    w.contained,
              )
        | inr e ↦ rw (e, punish) (sym e ∙ ap (leb threshold) counted, refl)
      ]

  -- A result ends in a quarantine exactly if it is a denial of high or critical risk outside the
  -- observe mode, neither for the rate limit nor for a quarantine, and with it the agent's high and
  -- critical violations in the window reach the threshold. At every later time the agent is then
  -- quarantined, and otherwise it is exactly if it was before.
  pub answer_violation-is_quarantined :
      (call : ToolCallRequest) (principal : AgentPrincipal) (result : Evaluation) (w : World)
      (later : ℕ)
      → let window = get_or engine.defaults.quarantine_window_seconds 300 in
        let threshold = get_or engine.defaults.quarantine_threshold 5 in
        let earlier =
          count
            (is_recent_violation principal.tenant_id principal.agent_id (w.now - seconds window))
            w.violations in
        let (after, became) =
          answer_violation runtime services engine settings call principal result w in
        (became ≡ (
          not (is_observe settings.enforcement_mode)
          && is_deny result.decision
          && ((result.risk == "high") || (result.risk == "critical"))
          && not (contains "RATE_LIMIT_EXCEEDED" result.reasons)
          && not (contains "AGENT_QUARANTINED" result.reasons)
          && leb threshold (earlier + 1)))
        × (is_quarantined principal.tenant_id principal.agent_id later after.contained
            ≡ (became || is_quarantined principal.tenant_id principal.agent_id later w.contained))
  unfolding answer_violation is_violation
  answer_violation-is_quarantined call principal result w later =
      elim (Bool-cases (is_violation runtime services engine settings result)) [
        | inl e ↦
            let (flag, effect) =
              punish-is_quarantined call principal result w later
                (unfold is_violation in ground arith) in
            rw (e, answer_violation) (flag, effect)
        | inr e ↦ rw (e, answer_violation) (refl, refl)
      ]
