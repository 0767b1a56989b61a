-- ===== src/Gateway/Finalize.antt =====
-- `_finalize` of src/sentinelgate/service.py: the action, the violation with its incident and
-- quarantine, the event in the audit trail, the decision, and the call of the watch service.
use sentinelgate.Prelude.{
  ◌+◌, String, Bool, true, false, not, ◌&&◌, ◌||◌, Option, none, some, get_or, List, [], ◌∷◌, ◌++◌,
  ◌==◌, leb, contains, cat, if◌then◌else◌,
}
use sentinelgate.Json.{Json, Fields, Items, object, text, array, boolean, field, end, nil, cons}
use sentinelgate.Models.{
  decision_value, AgentPrincipal, ToolCallRequest, SecurityFinding, Evaluation, PolicyDecision,
}
use sentinelgate.Runtime.{Runtime}
use sentinelgate.Policy.Config.{PolicyEngine, tool_config}
use sentinelgate.Storage.Limits.{record_violation}
use sentinelgate.Storage.Containment.{quarantine_agent}
use sentinelgate.Storage.Incidents.{upsert_incident}
use sentinelgate.Storage.Lineage.{record_action}
use sentinelgate.Gateway.World.{World, Services, Settings, is_observe, join, texts, append_event}
use sentinelgate.Gateway.Guards.{is_deny}

-- Some text, or the JSON null.
unfoldable pub optional_text : Option String → Json
optional_text none = Json.null
optional_text (some s) = text s

-- `item.model_dump()` of each finding
unfoldable pub finding_items : List SecurityFinding → Items
finding_items [] = nil
finding_items (f ∷ fs) =
    cons
      (object (
        field "code" (text f.code) (
          field "severity" (text f.severity)
            (field "path" (text f.path) (field "fingerprint" (text f.fingerprint) end)))))
      (finding_items fs)

module _ (runtime : Runtime) (services : Services) (engine : PolicyEngine)
    (settings : Settings) where
  -- An `Evaluation` counts as a violation outside the observe mode.
  unfoldable pub is_violation : Evaluation → Bool
  unfolding is_observe is_deny
  is_violation result =
      not (is_observe settings.enforcement_mode)
      && is_deny result.decision
      && ((result.risk == "high") || (result.risk == "critical"))
      && not (contains "RATE_LIMIT_EXCEEDED" result.reasons)
      && not (contains "AGENT_QUARANTINED" result.reasons)

  -- The violation, its incident, and the quarantine of the agent that reaches the threshold.
  unfoldable pub punish : ToolCallRequest → AgentPrincipal → Evaluation → World → World × Bool
  punish call principal result w =
      let window = get_or engine.defaults.quarantine_window_seconds 300 in
      let threshold = get_or engine.defaults.quarantine_threshold 5 in
      let recorded =
        record_violation principal.tenant_id principal.agent_id result.risk
          (join "," result.reasons) window w.now w.violations in
      let incident =
        upsert_incident (services.uuid w.drawn) principal.tenant_id principal.agent_id call.trace_id
          result.risk (cat "Blocked " (cat call.tool_name (cat ": " (join ", " result.reasons))))
          w.now w.incidents in
      let noted : World = record w {
        violations = recorded.0;
        incidents = incident.0;
        drawn = w.drawn + 1;
      } in
      if leb threshold recorded.1
      then (
        record noted {
          contained =
              quarantine_agent (services.uuid (w.drawn + 1)) principal.tenant_id principal.agent_id
                (cat (runtime.decimal recorded.1)
                  (cat " high-risk denials in " (cat (runtime.decimal window) "s")))
                w.now w.now w.contained;
          drawn = w.drawn + 2;
        },
        true,
      )
      else (noted, false)

  unfoldable pub answer_violation :
      ToolCallRequest → AgentPrincipal → Evaluation → World → World × Bool
  unfolding is_violation punish
  answer_violation call principal result w =
      if is_violation result then punish call principal result w else (w, false)

  -- The payload of the event `policy_decision`.
  unfoldable pub decision_payload :
      ToolCallRequest
      → AgentPrincipal
      → String
      → Evaluation
      → List SecurityFinding
      → Option String
      → Bool
      → Fields
  unfolding texts optional_text finding_items
  decision_payload call principal digest result findings approval_id quarantined =
      field "request" (services.redact (services.dump_call call)) (
        field "request_hash" (text digest) (
          field "agent_id" (text principal.agent_id) (
            field "tenant_id" (text principal.tenant_id) (
              field "decision" (text (decision_value result.decision)) (
                field "reason_codes" (array (texts result.reasons)) (
                  field "risk" (text result.risk) (
                    field "policy_version" (text result.policy_version) (
                      field "security_findings" (array (finding_items findings)) (
                        field "approval_id" (optional_text approval_id)
                          (field "quarantined" (boolean quarantined) end))))))))))

  -- What a call of the watch service leaves: the call, and an event if it raised.
  unfoldable pub watch : ToolCallRequest → AgentPrincipal → String → String → World → World
  unfolding append_event
  watch call principal outcome failure_event w =
      let told : World = record w { watched = w.watched ++ (call.request_id, outcome) ∷ [] } in
      if not settings.has_watch then w else elim (services.watch_raises call.request_id outcome) [
        | none ↦ told
        | some error_type ↦
            (append_event runtime services settings failure_event
              (field "request_id" (text call.request_id) (
                field "tenant_id" (text principal.tenant_id) (
                  field "agent_id" (text principal.agent_id)
                    (field "error_type" (text error_type) end))))
              told).0
      ]

  unfoldable pub decided :
      ToolCallRequest
      → AgentPrincipal
      → String
      → Evaluation
      → List SecurityFinding
      → Option String
      → String
      → Bool
      → PolicyDecision
  unfolding is_observe
  decided call principal digest result findings approval_id event_id quarantined = record {
    request_id = call.request_id;
    request_hash = digest;
    agent_id = principal.agent_id;
    tenant_id = principal.tenant_id;
    decision = result.decision;
    reason_codes = result.reasons;
    risk = result.risk;
    policy_version = result.policy_version;
    security_findings = findings;
    approval_id = approval_id;
    audit_event_id = event_id;
    quarantined = quarantined;
    enforcement_mode = settings.enforcement_mode;
    enforced = not (is_observe settings.enforcement_mode);
  }

  -- `_finalize`
  unfoldable pub finalize :
      ToolCallRequest
      → AgentPrincipal
      → String
      → Evaluation
      → List SecurityFinding
      → Option String
      → Bool
      → Bool
      → World
      → World × PolicyDecision
  unfolding answer_violation decision_payload watch decided append_event
  finalize call principal digest result findings approval_id quarantined false w =
      (w, decided call principal digest result findings approval_id "simulation" quarantined)
  finalize call principal digest result findings approval_id quarantined true w =
      let category : String = elim (tool_config engine call.tool_name) [
        | none ↦ "other"
        | some t ↦ get_or t.category "other"
      ] in
      let acted : World = record w {
        actions =
            record_action principal.tenant_id principal.agent_id call.trace_id call.tool_name
              category (decision_value result.decision) w.now w.actions;
      } in
      let punished = answer_violation call principal result acted in
      let became = quarantined || punished.1 in
      let logged =
        append_event runtime services settings "policy_decision"
          (decision_payload call principal digest result findings approval_id became) punished.0 in
      let decision = decided call principal digest result findings approval_id logged.1 became in
      (watch call principal "policy_decision" "watch_observation_failed" logged.0, decision)
