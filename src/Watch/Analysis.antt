-- ===== src/Watch/Analysis.antt =====
-- `WatchService.analyze` of src/sentinelgate/watch.py: the findings of a task from its events, before
-- they are stored.
use Prim.Native.Nat.{◌/◌}
use sentinelgate.Prelude.{
  ℕ, ◌+◌, ◌-◌, String, Bool, true, false, not, ◌&&◌, Option, none, some, get_or, List, [], ◌∷◌,
  ◌++◌, ◌==◌, select, length, leb, ltb, is_empty, cat, truthy, if◌then◌else◌,
}
use sentinelgate.Runtime.{Runtime}
use sentinelgate.Security.{prefix}
use sentinelgate.Storage.Approvals.{seconds}
use sentinelgate.Storage.Watch.{
  WatchProfile, relaxed, balanced, strict, tool_call, progress, heartbeat, WatchTask, WatchEvent,
}
use sentinelgate.Storage.Watch.Findings.{WatchFinding}
use sentinelgate.Watch.Patterns.{most_common, cycle_pattern, looks_like_poll}

pub record WatchThresholds : Type 0 where
  pub repeated_calls : ℕ
  pub repeated_errors : ℕ
  pub repeated_denials : ℕ
  pub poll_calls : ℕ
  pub cycle_repetitions : ℕ
  pub no_progress_seconds : ℕ
  pub window_seconds : ℕ

-- `PROFILES`
unfoldable pub thresholds_of : WatchProfile → WatchThresholds
thresholds_of relaxed = record {
  repeated_calls = 10;
  repeated_errors = 8;
  repeated_denials = 6;
  poll_calls = 20;
  cycle_repetitions = 4;
  no_progress_seconds = 1800;
  window_seconds = 300;
}
thresholds_of balanced = record {
  repeated_calls = 6;
  repeated_errors = 5;
  repeated_denials = 4;
  poll_calls = 12;
  cycle_repetitions = 3;
  no_progress_seconds = 900;
  window_seconds = 300;
}
thresholds_of strict = record {
  repeated_calls = 4;
  repeated_errors = 3;
  repeated_denials = 3;
  poll_calls = 8;
  cycle_repetitions = 3;
  no_progress_seconds = 600;
  window_seconds = 300;
}

unfoldable pub is_call : WatchEvent → Bool
is_call e = elim e.request.event_type [ tool_call ↦ true | _ ↦ false ]

unfoldable pub is_progress : WatchEvent → Bool
is_progress e = elim e.request.event_type [ progress ↦ true | _ ↦ false ]

unfoldable pub is_heartbeat : WatchEvent → Bool
is_heartbeat e = elim e.request.event_type [ heartbeat ↦ true | _ ↦ false ]

-- `max((item.created_at for item in events), default=...)`
unfoldable pub latest_time : List WatchEvent → Option ℕ
latest_time [] = none
latest_time (e ∷ es) = elim (latest_time es) [
  | none ↦ some e.created_at
  | some t ↦ some (if ltb e.created_at t then t else e.created_at)
]

-- `[value for value in values if value]`
unfoldable pub present : List (Option String) → List String
present [] = []
present (o ∷ os) = if truthy o then get_or o "" ∷ present os else present os

unfoldable pub fingerprints : List WatchEvent → List (Option String)
fingerprints [] = []
fingerprints (e ∷ es) = e.request.call_fingerprint ∷ fingerprints es

unfoldable pub error_codes : List WatchEvent → List (Option String)
error_codes [] = []
error_codes (e ∷ es) = e.request.error_code ∷ error_codes es

unfoldable pub backwards : List String → List String
backwards [] = []
backwards (x ∷ xs) = backwards xs ++ x ∷ []

-- `item.created_at > last_window_progress`, where there is one
unfoldable pub is_after : Option ℕ → WatchEvent → Bool
is_after none e = true
is_after (some t) e = ltb t e.created_at

-- The events of the window that ends now.
unfoldable pub window_of : WatchThresholds → ℕ → List WatchEvent → List WatchEvent
window_of thresholds now events =
    select (λ e. leb now (e.created_at + seconds thresholds.window_seconds)) events

-- The calls since the last milestone in the window.
unfoldable pub loop_calls : List WatchEvent → List WatchEvent
unfolding is_call is_progress latest_time is_after
loop_calls window =
    select (is_after (latest_time (select is_progress window))) (select is_call window)

module _ (runtime : Runtime) (now : ℕ) (task : WatchTask) where
  -- `_finding`
  unfoldable pub finding : String → String → ℕ → String → List String → String → WatchFinding
  finding code severity confidence summary evidence recommended_action = record {
    id = runtime.sha256 (cat task.tenant_id (cat "\0" (cat task.task_id (cat "\0" code))));
    tenant_id = task.tenant_id;
    agent_id = task.agent_id;
    task_id = task.task_id;
    code = code;
    severity = severity;
    confidence = confidence;
    summary = summary;
    evidence = evidence;
    recommended_action = recommended_action;
    status = "open";
    occurrences = 1;
    first_seen = now;
    last_seen = now;
    resolved_at = none;
    reviewer = none;
    note = "";
  }

  -- `f"{name}={n}"`
  numbered : String → ℕ → String
  numbered name n = cat name (cat "=" (runtime.decimal n))

  -- A finding where a condition holds.
  raised_if : Bool → WatchFinding → List WatchFinding
  raised_if true f = f ∷ []
  raised_if false f = []

  unfoldable pub repeated_call : WatchThresholds → List WatchEvent → List WatchFinding
  unfolding finding numbered raised_if most_common present fingerprints prefix
  repeated_call thresholds calls = elim (most_common (present (fingerprints calls))) [
    | none ↦ []
    | some (value, n) ↦ raised_if (leb thresholds.repeated_calls n) (
        finding "WATCH_REPEATED_CALL" "medium" 98
          "The same tool call repeated without a progress signal."
          (cat "fingerprint=" (prefix 12 value)
            ∷ numbered "count" n
            ∷ cat (numbered "window" thresholds.window_seconds) "s"
            ∷ [])
          "Review the task and pause it if the repeated call is not expected.")
  ]

  unfoldable pub retry_storm : WatchThresholds → List WatchEvent → List WatchFinding
  unfolding finding numbered raised_if most_common present error_codes
  retry_storm thresholds window = elim (most_common (present (error_codes window))) [
    | none ↦ []
    | some (value, n) ↦ raised_if (leb thresholds.repeated_errors n) (
        finding "WATCH_RETRY_STORM" "high" 99
          "The same failure is recurring beyond the configured retry tolerance."
          (cat "error=" value ∷ numbered "count" n ∷ [])
          "Require human review before additional retries.")
  ]

  unfoldable pub is_denied : WatchEvent → Bool
  is_denied e = get_or e.request.outcome "" == "deny"

  unfoldable pub repeated_denial : WatchThresholds → List WatchEvent → List WatchFinding
  unfolding finding numbered raised_if is_denied
  repeated_denial thresholds calls =
      let denied : ℕ = length (select is_denied calls) in
      raised_if (leb thresholds.repeated_denials denied) (
        finding "WATCH_REPEATED_DENIAL" "high" 99
          "The agent continues attempting actions SentinelGate Core denied."
          (numbered "denied_calls" denied
            ∷ cat (numbered "window" thresholds.window_seconds) "s"
            ∷ [])
          "Inspect the policy mismatch and consider restricting the agent session.")

  unfoldable pub excessive_polling : WatchThresholds → List WatchEvent → List WatchFinding
  unfolding finding numbered raised_if looks_like_poll
  excessive_polling thresholds calls =
      let polling : ℕ = length (select (λ e. looks_like_poll runtime e.request.tool_name) calls) in
      raised_if (leb thresholds.poll_calls polling) (
        finding "WATCH_EXCESSIVE_POLLING" "medium" 95
          "The task is polling status-like tools unusually frequently."
          (numbered "poll_calls" polling
            ∷ cat (numbered "window" thresholds.window_seconds) "s"
            ∷ [])
          "Increase the polling interval or use an event-driven callback.")

  unfoldable pub cyclic_workflow : WatchThresholds → List WatchEvent → List WatchFinding
  unfolding finding numbered raised_if cycle_pattern backwards present fingerprints
  cyclic_workflow thresholds calls =
      let cycle =
        cycle_pattern (backwards (present (fingerprints calls))) thresholds.cycle_repetitions in
      raised_if (not (is_empty cycle)) (
        finding "WATCH_CYCLIC_WORKFLOW" "high" 96
          "The task is cycling through the same sequence of tool calls."
          (numbered "cycle_length" (length cycle)
            ∷ numbered "repetitions" thresholds.cycle_repetitions
            ∷ [])
          "Pause and change strategy before continuing the workflow.")

  unfoldable pub over_budget : List WatchEvent → List WatchFinding
  unfolding finding numbered raised_if is_call
  over_budget events =
      let calls : ℕ = length (select is_call events) in
      let running : ℕ = (now - task.created_at) / 1000000 in
      raised_if (ltb task.max_tool_calls calls) (
        finding "WATCH_TOOL_BUDGET_EXCEEDED" "high" 100
          "The task exceeded its configured event budget."
          (numbered "tool_calls" calls ∷ numbered "budget" task.max_tool_calls ∷ [])
          "Require review before extending the task budget.")
      ++ raised_if (ltb task.max_cost_usd task.estimated_cost_usd) (
          finding "WATCH_COST_BUDGET_EXCEEDED" "high" 100
            "The task exceeded its configured estimated-cost budget."
            (cat "estimated_cost_usd=" (runtime.cost_text task.estimated_cost_usd)
              ∷ cat "budget_usd=" (runtime.cost_text task.max_cost_usd)
              ∷ [])
            "Require review before allowing additional paid inference or tools.")
      ++ raised_if
          (ltb (task.created_at + seconds task.max_runtime_seconds) now
            && (task.status == "active"))
          (finding "WATCH_RUNTIME_BUDGET_EXCEEDED" "high" 100
            "The task exceeded its configured runtime budget."
            (numbered "runtime_seconds" running
              ∷ numbered "budget_seconds" task.max_runtime_seconds
              ∷ [])
            "Review or pause the long-running task.")

  unfoldable pub no_progress : WatchThresholds → List WatchEvent → List WatchFinding
  unfolding finding numbered raised_if is_progress is_heartbeat latest_time
  no_progress thresholds events =
      let last = get_or (latest_time (select is_progress events)) task.created_at in
      raised_if
        (not (is_empty (select (λ e. not (is_heartbeat e)) events))
          && (task.status == "active")
          && ltb (last + seconds thresholds.no_progress_seconds) now)
        (finding "WATCH_NO_PROGRESS" "medium" 85
          "The task has emitted activity but no explicit progress signal."
          (numbered "seconds_since_progress" ((now - last) / 1000000) ∷ [])
          "Ask the runtime to report a milestone or request human review.")

  -- The findings in the order of the code, from the task's newest 500 events.
  unfoldable pub findings_in : List WatchEvent → List WatchFinding
  unfolding thresholds_of window_of loop_calls is_call repeated_call retry_storm repeated_denial
      excessive_polling cyclic_workflow over_budget no_progress
  findings_in events =
      let thresholds = thresholds_of task.profile in
      let window = window_of thresholds now events in
      let calls = select is_call window in
      repeated_call thresholds (loop_calls window)
      ++ retry_storm thresholds window
      ++ repeated_denial thresholds calls
      ++ excessive_polling thresholds calls
      ++ cyclic_workflow thresholds (loop_calls window)
      ++ over_budget events
      ++ no_progress thresholds events
