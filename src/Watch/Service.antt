-- ===== src/Watch/Service.antt =====
-- `WatchService` of src/sentinelgate/watch.py: `create_task`, `ingest` and `analyze` with the writes
-- of its findings. The clock is read once for each operation.
use sentinelgate.Prelude.{ℕ, ◌+◌, String, Bool, not, none, some, List, [], ◌∷◌, if◌then◌else◌}
use sentinelgate.Json.{Fields, field, end, text, boolean, object}
use sentinelgate.Models.{AgentPrincipal}
use sentinelgate.Runtime.{Runtime}
use sentinelgate.Storage.Audit.{AuditRow, append_audit}
use sentinelgate.Storage.Watch.{
  WatchProfile, relaxed, balanced, strict, WatchTaskCreateRequest, WatchTask, WatchEventRequest,
  WatchEvent, create_watch_task, get_watch_task, record_watch_event, list_watch_events,
}
use sentinelgate.Storage.Watch.Findings.{WatchFinding, upsert_watch_finding}
use sentinelgate.Watch.Analysis.{findings_in}

-- The tables that the service reads and writes, and how many identifiers have been drawn.
pub record WatchTables : Type 0 where
  pub tasks : List WatchTask
  pub events : List WatchEvent
  pub findings : List WatchFinding
  pub audit : List AuditRow
  pub drawn : ℕ

pub record WatchService : Type 0 where
  pub enabled : Bool
  pub monitor_only : Bool
  pub uuid : ℕ → String
  pub signing_key : String
  -- ten dollars in the unit of costs, the budget of a task that the gateway starts
  pub default_max_cost : ℕ

-- An answer, or the text of a `ValueError` (`WatchTaskNotFound` is one).
pub data Watched (A : Type 0) : Type 0 where
  watched : A → Watched A
  refused : String → Watched A

unfoldable pub profile_text : WatchProfile → String
profile_text relaxed = "relaxed"
profile_text balanced = "balanced"
profile_text strict = "strict"

-- `[self.store.upsert_watch_finding(item) for item in findings]`: the table, and the rows read back.
unfoldable pub persist :
    List WatchFinding → ℕ → List WatchFinding → List WatchFinding × List WatchFinding
unfolding upsert_watch_finding
persist [] now table = (table, [])
persist (f ∷ findings) now table =
    let stored = upsert_watch_finding f now table in
    let rest = persist findings now stored.0 in
    (rest.0, elim stored.1 [ none ↦ rest.1 | some row ↦ row ∷ rest.1 ])

module _ (runtime : Runtime) (service : WatchService) where
  -- `self.store.append_audit`
  unfoldable pub audited : String → Fields → ℕ → WatchTables → WatchTables
  audited event_type payload now t = record t {
    audit =
        append_audit runtime service.signing_key (service.uuid t.drawn) event_type
          (runtime.dumps (object payload)) now t.audit;
    drawn = t.drawn + 1;
  }

  unfoldable pub create_task :
      AgentPrincipal → WatchTaskCreateRequest → ℕ → WatchTables → WatchTables × Watched WatchTask
  unfolding create_watch_task audited profile_text
  create_task principal request now t =
      let created = create_watch_task principal request now t.tasks in
      elim created.1 [
        | none ↦ (t, refused "Watch task identifier is already owned by another agent")
        | some task ↦ (
          audited "watch_task_created"
              (field "task_id" (text task.task_id) (
                field "tenant_id" (text task.tenant_id) (
                  field "agent_id" (text task.agent_id)
                    (field "profile" (text (profile_text task.profile)) end))))
              now (record t { tasks = created.0 }),
          watched task,
        )
      ]

  -- The audit event of each stored finding.
  unfoldable pub audit_findings : List WatchFinding → ℕ → WatchTables → WatchTables
  unfolding audited
  audit_findings [] now t = t
  audit_findings (f ∷ findings) now t = audit_findings findings now (
      audited "watch_finding_observed"
        (field "finding_id" (text f.id) (
          field "task_id" (text f.task_id) (
            field "tenant_id" (text f.tenant_id) (
              field "agent_id" (text f.agent_id) (
                field "code" (text f.code) (
                  field "severity" (text f.severity)
                    (field "monitor_only" (boolean service.monitor_only) end)))))))
        now t)

  unfoldable pub analyze : WatchTask → ℕ → WatchTables → WatchTables × List WatchFinding
  unfolding findings_in list_watch_events persist audit_findings
  analyze task now t =
      let events =
        list_watch_events task.task_id (some task.tenant_id) (some task.agent_id) 500 t.events in
      let stored = persist (findings_in runtime now task events) now t.findings in
      (audit_findings stored.1 now (record t { findings = stored.0 }), stored.1)

  -- `self.analyze(updated or task)` after an event of the task
  unfoldable pub analyze_updated :
      AgentPrincipal → WatchTask → ℕ → WatchTables → WatchTables × List WatchFinding
  unfolding get_watch_task analyze
  analyze_updated principal task now t =
      elim (get_watch_task task.task_id principal.tenant_id (some principal.agent_id) t.tasks) [
        | none ↦ analyze task now t
        | some updated ↦ analyze updated now t
      ]

  unfoldable pub ingest :
      AgentPrincipal
      → WatchEventRequest
      → ℕ
      → WatchTables
      → WatchTables × Watched (WatchEvent × List WatchFinding)
  unfolding get_watch_task record_watch_event analyze_updated
  ingest principal request now t =
      if not service.enabled
      then (t, refused "SentinelGate Watch is disabled")
      else elim (get_watch_task request.task_id principal.tenant_id (some principal.agent_id)
          t.tasks) [
            | none ↦ (t, refused "Watch task not found for this agent identity")
            | some task ↦
                elim (record_watch_event (service.uuid t.drawn) principal request now t.tasks
                  t.events) [
                    | none ↦ (t, refused "Watch task not found for this agent identity")
                    | some (event, (tasks, events)) ↦
                        let seen =
                          analyze_updated principal task now
                            (record t { tasks = tasks; events = events; drawn = t.drawn + 1 }) in
                        (seen.0, watched (event, seen.1))
                  ]
          ]
