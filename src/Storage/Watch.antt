-- ===== src/Storage/Watch.antt =====
-- The tables of the watch service in src/sentinelgate/storage.py: `create_watch_task`,
-- `get_watch_task`, `record_watch_event` and `list_watch_events`; the findings are in the child
-- module. A cost is a number of a unit in which the amounts are whole.
pub mod Findings
use Prim.Native.Nat.{compare as compare_times, Ordering}
use Prim.Native.String.{compare}
use sentinelgate.Prelude.{
  ℕ, zero, suc, ◌+◌, String, Bool, true, false, ◌&&◌, ◌||◌, Option, none, some, get_or, List, [],
  ◌∷◌, ◌++◌, ◌==◌, any, first, select, update, count, length, truthy, sorted_set, if◌then◌else◌,
}
use sentinelgate.Models.{AgentPrincipal}

pub data WatchProfile : Type 0 where
  relaxed balanced strict : WatchProfile

pub data WatchEventType : Type 0 where
  tool_call tool_result progress heartbeat task_status : WatchEventType

pub record WatchTaskCreateRequest : Type 0 where
  pub task_id : String
  pub description : String
  pub profile : WatchProfile
  pub expected_tools : List String
  pub success_criteria : List String
  pub max_runtime_seconds : ℕ
  pub max_tool_calls : ℕ
  pub max_cost_usd : ℕ

pub record WatchTask : Type 0 where
  pub task_id : String
  pub tenant_id : String
  pub agent_id : String
  pub description : String
  pub profile : WatchProfile
  pub expected_tools : List String
  pub success_criteria : List String
  pub max_runtime_seconds : ℕ
  pub max_tool_calls : ℕ
  pub max_cost_usd : ℕ
  pub status : String
  pub event_count : ℕ
  pub estimated_cost_usd : ℕ
  pub created_at : ℕ
  pub updated_at : ℕ
  pub completed_at : Option ℕ

pub record WatchEventRequest : Type 0 where
  pub task_id : String
  pub event_type : WatchEventType
  pub tool_name : Option String
  pub outcome : Option String
  pub error_code : Option String
  pub call_fingerprint : Option String
  pub progress_signal : Option String
  pub input_tokens : ℕ
  pub output_tokens : ℕ
  pub estimated_cost_usd : ℕ
  pub duration_ms : Option ℕ

pub record WatchEvent : Type 0 where
  pub id : String
  pub tenant_id : String
  pub agent_id : String
  pub created_at : ℕ
  pub request : WatchEventRequest

-- The primary key of `watch_tasks`.
unfoldable pub is_task : String → String → WatchTask → Bool
is_task tenant_id task_id t = (t.tenant_id == tenant_id) && (t.task_id == task_id)

-- ... `AND agent_id=?`
unfoldable pub is_task_of : String → String → String → WatchTask → Bool
unfolding is_task
is_task_of tenant_id task_id agent_id t = is_task tenant_id task_id t && (t.agent_id == agent_id)

-- The task that is there after the insert; `none` is the `ValueError` for another agent's task.
unfoldable pub create_watch_task :
    AgentPrincipal → WatchTaskCreateRequest → ℕ → List WatchTask → List WatchTask × Option WatchTask
unfolding is_task is_task_of
create_watch_task principal request now table =
    let after : List WatchTask =
      if any (is_task principal.tenant_id request.task_id) table
      then table
      else table
        ++ record {
          task_id = request.task_id;
          tenant_id = principal.tenant_id;
          agent_id = principal.agent_id;
          description = request.description;
          profile = request.profile;
          expected_tools = sorted_set request.expected_tools;
          success_criteria = request.success_criteria;
          max_runtime_seconds = request.max_runtime_seconds;
          max_tool_calls = request.max_tool_calls;
          max_cost_usd = request.max_cost_usd;
          status = "active";
          event_count = 0;
          estimated_cost_usd = 0;
          created_at = now;
          updated_at = now;
          completed_at = none;
        }
          ∷ [] in
    (after, first (is_task_of principal.tenant_id request.task_id principal.agent_id) after)

-- An agent that is `None` or empty is not asked for.
unfoldable pub get_watch_task : String → String → Option String → List WatchTask → Option WatchTask
unfolding is_task is_task_of
get_watch_task task_id tenant_id agent_id table =
    if truthy agent_id
    then first (is_task_of tenant_id task_id (get_or agent_id "")) table
    else first (is_task tenant_id task_id) table

-- The status that an event ends its task with.
unfoldable pub terminal_status : WatchEventRequest → Option String
terminal_status request = elim request.event_type [
  | WatchEventType.task_status ↦ terminal request.outcome
  | _ ↦ none
]
  where
    terminal : Option String → Option String
    terminal none = none
    terminal (some s) =
        if (s == "completed") || (s == "failed") || (s == "cancelled") then some s else none

-- `status=COALESCE(?, status)`, and the time of completion with it
unfoldable pub after_event : WatchEvent → WatchTask → WatchTask
unfolding terminal_status
after_event event t = elim (terminal_status event.request) [
  | none ↦ record t {
    event_count = t.event_count + 1;
    estimated_cost_usd = t.estimated_cost_usd + event.request.estimated_cost_usd;
    updated_at = event.created_at;
  }
  | some s ↦ record t {
    event_count = t.event_count + 1;
    estimated_cost_usd = t.estimated_cost_usd + event.request.estimated_cost_usd;
    updated_at = event.created_at;
    status = s;
    completed_at = some event.created_at;
  }
]

-- The event and the two tables; `none` is the `ValueError` for a task that is not the agent's.
unfoldable pub record_watch_event :
    String
    → AgentPrincipal
    → WatchEventRequest
    → ℕ
    → List WatchTask
    → List WatchEvent
    → Option (WatchEvent × (List WatchTask × List WatchEvent))
unfolding get_watch_task after_event is_task_of
record_watch_event uuid principal request now tasks events =
    elim (get_watch_task request.task_id principal.tenant_id (some principal.agent_id) tasks) [
      | none ↦ none
      | some task ↦
          let event : WatchEvent = record {
            id = uuid;
            tenant_id = principal.tenant_id;
            agent_id = principal.agent_id;
            created_at = now;
            request = request;
          } in
          some (
            event,
            (
              update (is_task_of principal.tenant_id request.task_id principal.agent_id)
                  (after_event event) tasks,
              events ++ event ∷ [],
            ),
          )
    ]

-- `ORDER BY created_at DESC, id DESC`: the first comes before the second.
unfoldable pub is_newer : WatchEvent → WatchEvent → Bool
is_newer a b = elim (compare_times a.created_at b.created_at) [
  | Ordering.gt ↦ true
  | Ordering.eq ↦ elim (compare a.id b.id) [ Ordering.gt ↦ true | _ ↦ false ]
  | Ordering.lt ↦ false
]

unfoldable pub insert_newest : WatchEvent → List WatchEvent → List WatchEvent
unfolding is_newer
insert_newest x [] = x ∷ []
insert_newest x (y ∷ ys) = if is_newer y x then y ∷ insert_newest x ys else x ∷ y ∷ ys

unfoldable pub newest_first : List WatchEvent → List WatchEvent
unfolding insert_newest
newest_first [] = []
newest_first (x ∷ xs) = insert_newest x (newest_first xs)

-- `LIMIT ?`
unfoldable pub limited {ℓ} : {A : Type ℓ} → ℕ → List A → List A
limited n [] = []
limited zero (x ∷ xs) = []
limited (suc n) (x ∷ xs) = x ∷ limited n xs

-- `column=?` for a filter that is given
unfoldable pub matches : Option String → String → Bool
matches wanted s = if truthy wanted then s == get_or wanted "" else true

unfoldable pub list_watch_events :
    String → Option String → Option String → ℕ → List WatchEvent → List WatchEvent
unfolding newest_first limited matches
list_watch_events task_id tenant_id agent_id limit events = limited limit (
    newest_first (
      select
        (λ e.
          (e.request.task_id == task_id)
          && matches tenant_id e.tenant_id
          && matches agent_id e.agent_id)
        events))
