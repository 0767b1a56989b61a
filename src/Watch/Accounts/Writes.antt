-- ===== src/Watch/Accounts/Writes.antt =====
-- `record_watch_event` of storage.py: the rows that it writes, and when it writes none.
use sentinelgate.Prelude.{
  ℕ, ◌+◌, String, true, none, some, List, [], ◌∷◌, ◌++◌, ◌≡◌, refl, update, any, truthy,
}
use sentinelgate.Models.{AgentPrincipal}
use sentinelgate.Storage.Watch.{
  WatchTask, WatchEventRequest, WatchEvent, is_task_of, after_event, get_watch_task,
  record_watch_event,
}
use sentinelgate.Watch.Service.{WatchTables}
use sentinelgate.Watch.Accounts.{is_event_of, first-any}

abbrev pub event_of : String → AgentPrincipal → WatchEventRequest → ℕ → WatchEvent
event_of id p request now = record {
  id = id;
  tenant_id = p.tenant_id;
  agent_id = p.agent_id;
  created_at = now;
  request = request;
}

-- The tables with the rows that a recorded event leaves.
abbrev pub with_rows : WatchTables → List WatchTask × List WatchEvent → WatchTables
with_rows t rows = record t { tasks = rows.0; events = rows.1; drawn = t.drawn + 1 }

pub record_watch_event-written :
    (id : String) (p : AgentPrincipal) (request : WatchEventRequest) (now : ℕ)
    (tasks : List WatchTask) (events : List WatchEvent) (task : WatchTask)
    → get_watch_task request.task_id p.tenant_id (some p.agent_id) tasks ≡ some task
    → record_watch_event id p request now tasks events
      ≡ some (
        event_of id p request now,
        (
          update
              (λ t. is_event_of t (event_of id p request now))
              (after_event (event_of id p request now))
              tasks,
          events ++ event_of id p request now ∷ [],
        ),
      )
unfolding record_watch_event is_event_of
record_watch_event-written id p request now tasks events task present =
    rw (present, record_watch_event) refl

pub record_watch_event-missing :
    (id : String) (p : AgentPrincipal) (request : WatchEventRequest) (now : ℕ)
    (tasks : List WatchTask) (events : List WatchEvent)
    → get_watch_task request.task_id p.tenant_id (some p.agent_id) tasks ≡ none
    → record_watch_event id p request now tasks events ≡ none
unfolding record_watch_event
record_watch_event-missing id p request now tasks events missing =
    rw (missing, record_watch_event) refl

pub get_watch_task-any :
    (id : String) (p : AgentPrincipal) (request : WatchEventRequest) (now : ℕ)
    (tasks : List WatchTask) (task : WatchTask)
    → truthy (some p.agent_id) ≡ true
    → get_watch_task request.task_id p.tenant_id (some p.agent_id) tasks ≡ some task
    → any (λ t. is_event_of t (event_of id p request now)) tasks ≡ true
unfolding get_watch_task is_event_of
get_watch_task-any id p request now tasks task named present =
    first-any (is_task_of p.tenant_id request.task_id p.agent_id) tasks task
      (rw (named, get_watch_task) at present)
