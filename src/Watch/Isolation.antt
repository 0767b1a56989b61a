-- ===== src/Watch/Isolation.antt =====
-- watch.py: `ingest` and the tasks and events of other agents.
use sentinelgate.Prelude.{
  ℕ, ◌+◌, String, Bool, true, false, not, ◌&&◌, some, List, [], ◌∷◌, ◌++◌, ◌==◌, ◌≡◌, refl, select,
  update, Option-cases, Bool-cases, inl, inr, arith, eq_self,
}
use sentinelgate.Models.{AgentPrincipal}
use sentinelgate.Runtime.{Runtime}
use sentinelgate.Storage.Watch.{
  WatchTask, WatchEventRequest, WatchEvent, is_task, is_task_of, after_event, terminal_status,
  get_watch_task, record_watch_event, list_watch_events,
}
use sentinelgate.Storage.Watch.Findings.{WatchFinding}
use sentinelgate.Watch.Analysis.{findings_in}
use sentinelgate.Watch.Service.{
  WatchTables, WatchService, audited, persist, audit_findings, analyze, analyze_updated, ingest,
}

-- The task belongs to another agent.
unfoldable pub is_task_of_other : AgentPrincipal → WatchTask → Bool
is_task_of_other p t = not ((t.tenant_id == p.tenant_id) && (t.agent_id == p.agent_id))

unfoldable pub is_event_of_other : AgentPrincipal → WatchEvent → Bool
is_event_of_other p e = not ((e.tenant_id == p.tenant_id) && (e.agent_id == p.agent_id))

-- The tasks and events of the other agents are the same ones.
unfoldable pub KeepsOthers : AgentPrincipal → WatchTables → WatchTables → Type 0
KeepsOthers p t after =
    (select (is_task_of_other p) after.tasks ≡ select (is_task_of_other p) t.tasks)
    × (select (is_event_of_other p) after.events ≡ select (is_event_of_other p) t.events)

-- Rows that the update selects are not among the kept ones, before and after.
select-update_other :
    {A : Type 0} (keep q : A → Bool) (f : A → A)
    → ((x : A) → q x ≡ true → keep x ≡ false)
    → ((x : A) → keep (f x) ≡ keep x)
    → (xs : List A) → select keep (update q f xs) ≡ select keep xs
unfolding select update
select-update_other keep q f dropped same [] = refl
select-update_other keep q f dropped same (x ∷ xs) = elim (Bool-cases (q x)) [
  | inl e ↦ rw (e, same x, dropped x e) (select-update_other keep q f dropped same xs)
  | inr e ↦ rw (e, select-update_other keep q f dropped same xs) refl
]

module _ (p : AgentPrincipal) where
  after_event-owner :
      (event : WatchEvent) (t : WatchTask)
      → is_task_of_other p (after_event event t) ≡ is_task_of_other p t
  unfolding is_task_of_other after_event
  after_event-owner event t = elim (Option-cases (terminal_status event.request)) [
    | inl e ↦ rw (e, after_event) refl
    | inr (s, e) ↦ rw (e, after_event) refl
  ]

  is_task_of-own :
      (task_id : String) (t : WatchTask)
      → is_task_of p.tenant_id task_id p.agent_id t ≡ true
      → is_task_of_other p t ≡ false
  unfolding is_task_of is_task is_task_of_other
  is_task_of-own task_id t h = ground arith

  select-own_event :
      (events : List WatchEvent) (e : WatchEvent)
      → is_event_of_other p e ≡ false
      → select (is_event_of_other p) (events ++ e ∷ []) ≡ select (is_event_of_other p) events
  unfolding select
  select-own_event [] e h = rw h refl
  select-own_event (x ∷ events) e h = ground (arith, select-own_event events e h)

  module _ (runtime : Runtime) (service : WatchService) where
    audit_findings-frame :
        (findings : List WatchFinding) (now : ℕ) (t : WatchTables)
        → ((audit_findings runtime service findings now t).tasks ≡ t.tasks)
          × ((audit_findings runtime service findings now t).events ≡ t.events)
    unfolding audit_findings audited
    audit_findings-frame [] now t = (refl, refl)
    audit_findings-frame (f ∷ findings) now t = audit_findings-frame findings now _

    analyze-frame :
        (task : WatchTask) (now : ℕ) (t : WatchTables)
        → ((analyze runtime service task now t).0.tasks ≡ t.tasks)
          × ((analyze runtime service task now t).0.events ≡ t.events)
    unfolding analyze
    analyze-frame task now t =
        let events =
          list_watch_events task.task_id (some task.tenant_id) (some task.agent_id) 500 t.events in
        let stored = persist (findings_in runtime now task events) now t.findings in
        audit_findings-frame stored.1 now (record t { findings = stored.0 })

    pub analyze_updated-frame :
        (task : WatchTask) (now : ℕ) (t : WatchTables)
        → ((analyze_updated runtime service p task now t).0.tasks ≡ t.tasks)
          × ((analyze_updated runtime service p task now t).0.events ≡ t.events)
    unfolding analyze_updated
    analyze_updated-frame task now t =
        elim (Option-cases (get_watch_task task.task_id p.tenant_id (some p.agent_id) t.tasks)) [
          | inl e ↦ rw (e, analyze_updated) (analyze-frame task now t)
          | inr (updated, e) ↦ rw (e, analyze_updated) (analyze-frame updated now t)
        ]

    own_event :
        (id : String) (request : WatchEventRequest) (now : ℕ)
        → is_event_of_other p (record {
          id = id;
          tenant_id = p.tenant_id;
          agent_id = p.agent_id;
          created_at = now;
          request = request;
        })
          ≡ false
    unfolding is_event_of_other
    own_event id request now = rw (eq_self p.tenant_id, eq_self p.agent_id) refl

    -- The step of `ingest` that records the event.
    recorded :
        (id : String) (request : WatchEventRequest) (now : ℕ) (tasks : List WatchTask)
        (events : List WatchEvent) (task : WatchTask)
        → get_watch_task request.task_id p.tenant_id (some p.agent_id) tasks ≡ some task
        → (event : WatchEvent) × ((record_watch_event id p request now tasks events
              ≡ some (
                event,
                (
                  update
                      (is_task_of p.tenant_id request.task_id p.agent_id)
                      (after_event event)
                      tasks,
                  events ++ event ∷ [],
                ),
              ))
            × (is_event_of_other p event ≡ false))
    unfolding record_watch_event
    recorded id request now tasks events task present =
        (_, (rw (present, record_watch_event) refl, own_event id request now))

    -- Whatever an agent sends to `ingest`, and whether it is refused or not, the tasks and the events
    -- of all other agents stay as they are.
    pub ingest-KeepsOthers :
        (request : WatchEventRequest) (now : ℕ) (t : WatchTables)
        → KeepsOthers p t (ingest runtime service p request now t).0
    unfolding KeepsOthers ingest
    ingest-KeepsOthers request now t = elim (Bool-cases service.enabled) [
      | inr e ↦ rw e (refl, refl)
      | inl e ↦
          elim (Option-cases
            (get_watch_task request.task_id p.tenant_id (some p.agent_id) t.tasks)) [
              | inl missing ↦ rw (e, missing) (refl, refl)
              | inr (task, present) ↦
                  let (event, (written, own)) =
                    recorded (service.uuid t.drawn) request now t.tasks t.events task present in
                  let after : WatchTables = record t {
                    tasks =
                        update (is_task_of p.tenant_id request.task_id p.agent_id)
                          (after_event event) t.tasks;
                    events = t.events ++ event ∷ [];
                    drawn = t.drawn + 1;
                  } in
                  let frame = analyze_updated-frame task now after in
                  rw (e, present, written, frame.0, frame.1)
                    (
                      select-update_other (is_task_of_other p)
                          (is_task_of p.tenant_id request.task_id p.agent_id) (after_event event)
                          (is_task_of-own request.task_id) (after_event-owner event) t.tasks,
                      select-own_event t.events event own,
                    )
            ]
    ]
