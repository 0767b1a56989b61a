-- ===== src/Watch/Observe.antt =====
-- `observe_gateway_call` and `observe_execution` of src/sentinelgate/watch.py.
use sentinelgate.Prelude.{
  ℕ, ◌+◌, String, not, Option, none, some, List, [], ◌∷◌, cat, get_or, truthy, ◌==◌, if◌then◌else◌,
}
use sentinelgate.Json.{object}
use sentinelgate.Models.{
  AgentPrincipal, ToolCallRequest, PolicyDecision, Decision, allow, deny, require_approval,
}
use sentinelgate.Runtime.{Runtime}
use sentinelgate.Security.{canonical_json}
use sentinelgate.Storage.Watch.{
  balanced, tool_call, tool_result, WatchTask, WatchEventRequest, create_watch_task, get_watch_task,
  record_watch_event,
}
use sentinelgate.Storage.Watch.Findings.{WatchFinding}
use sentinelgate.Watch.Service.{
  WatchTables, WatchService, Watched, watched, refused, analyze_updated,
}

-- `call.task_id or call.trace_id`
unfoldable pub watched_task : ToolCallRequest → String
watched_task call = if truthy call.task_id then get_or call.task_id "" else call.trace_id

unfoldable pub decision_text : Decision → String
decision_text allow = "allow"
decision_text deny = "deny"
decision_text require_approval = "require_approval"

-- The first reason code of a denial.
unfoldable pub denial_code : Decision → List String → Option String
denial_code deny (code ∷ codes) = some code
denial_code _ _ = none

module _ (runtime : Runtime) (service : WatchService) where
  -- The task of the call, which is there or is created; `none` is the `ValueError` for the task of
  -- another agent.
  unfoldable pub task_of_call :
      ToolCallRequest → AgentPrincipal → ℕ → List WatchTask → List WatchTask × Option WatchTask
  unfolding watched_task get_watch_task create_watch_task
  task_of_call call principal now tasks =
      elim (get_watch_task (watched_task call) principal.tenant_id (some principal.agent_id)
        tasks) [
          | some task ↦ (tasks, some task)
          | none ↦
              create_watch_task principal
                (record {
                  task_id = watched_task call;
                  description =
                      if call.purpose == ""
                      then cat "Gateway trace " call.trace_id
                      else call.purpose;
                  profile = balanced;
                  expected_tools = [];
                  success_criteria = [];
                  max_runtime_seconds = 3600;
                  max_tool_calls = 250;
                  max_cost_usd = service.default_max_cost;
                })
                now tasks
        ]

  unfoldable pub call_event : ToolCallRequest → PolicyDecision → String → WatchEventRequest
  unfolding decision_text denial_code canonical_json
  call_event call decision task_id = record {
    task_id = task_id;
    event_type = tool_call;
    tool_name = some call.tool_name;
    outcome = some (decision_text decision.decision);
    error_code = denial_code decision.decision decision.reason_codes;
    call_fingerprint = some (
        runtime.hmac_sha256 service.signing_key
          (cat call.tool_name (cat "\0" (canonical_json runtime (object call.arguments)))));
    progress_signal = none;
    input_tokens = 0;
    output_tokens = 0;
    estimated_cost_usd = 0;
    duration_ms = none;
  }

  -- The event is recorded for the task, and the task analysed.
  unfoldable pub observe_event :
      AgentPrincipal
      → WatchTask
      → WatchEventRequest
      → ℕ
      → WatchTables
      → WatchTables × Watched (List WatchFinding)
  unfolding record_watch_event analyze_updated
  observe_event principal task request now t =
      elim (record_watch_event (service.uuid t.drawn) principal request now t.tasks t.events) [
        | none ↦ (t, refused "Watch task not found for this agent identity")
        | some (event, (tasks, events)) ↦
            let seen =
              analyze_updated runtime service principal task now
                (record t { tasks = tasks; events = events; drawn = t.drawn + 1 }) in
            (seen.0, watched seen.1)
      ]

  unfoldable pub observe_gateway_call :
      ToolCallRequest
      → AgentPrincipal
      → PolicyDecision
      → ℕ
      → WatchTables
      → WatchTables × Watched (List WatchFinding)
  unfolding task_of_call call_event observe_event
  observe_gateway_call call principal decision now t =
      if not service.enabled
      then (t, watched [])
      else let started = task_of_call call principal now t.tasks in
        elim started.1 [
          | none ↦ (t, refused "Watch task identifier is already owned by another agent")
          | some task ↦
              observe_event principal task (call_event call decision task.task_id) now
                (record t { tasks = started.0 })
        ]

  unfoldable pub observe_execution :
      ToolCallRequest
      → AgentPrincipal
      → String
      → Option ℕ
      → Option String
      → ℕ
      → WatchTables
      → WatchTables × Watched (List WatchFinding)
  unfolding watched_task get_watch_task observe_event
  observe_execution call principal outcome duration_ms error_code now t =
      if not service.enabled
      then (t, watched [])
      else elim (get_watch_task (watched_task call) principal.tenant_id (some principal.agent_id)
          t.tasks) [
            | none ↦ (t, watched [])
            | some task ↦
                observe_event principal task
                  (record {
                    task_id = watched_task call;
                    event_type = tool_result;
                    tool_name = some call.tool_name;
                    outcome = some outcome;
                    error_code = error_code;
                    call_fingerprint = none;
                    progress_signal = none;
                    input_tokens = 0;
                    output_tokens = 0;
                    estimated_cost_usd = 0;
                    duration_ms = duration_ms;
                  })
                  now t
          ]
