-- ===== src/Watch/Accounts.antt =====
-- The tables `watch_tasks` and `watch_events` of storage.py: what a task counts, and the events.
pub mod Writes
pub mod Steps
use sentinelgate.Prelude.{
  ℕ, ◌+◌, String, Bool, true, false, ◌&&◌, Option, none, some, List, [], ◌∷◌, ◌++◌, ◌==◌, ◌≡◌, refl,
  ◌∙◌, sym, count, count-append, update, any, first, truthy, All, All-weaken, Option-cases,
  Bool-cases, inl, inr, arith, eq_iff, eq_self, ap, if◌then◌else◌, any-append_one,
}
use sentinelgate.Models.{AgentPrincipal}
use sentinelgate.Runtime.{Runtime}
use sentinelgate.Storage.Watch.{
  WatchTask, WatchTaskCreateRequest, WatchEventRequest, WatchEvent, is_task, is_task_of,
  after_event, terminal_status, create_watch_task, get_watch_task, record_watch_event,
}
use sentinelgate.Watch.Service.{WatchTables, WatchService, audited, create_task, ingest}
use sentinelgate.Watch.Isolation.{analyze_updated-frame}

-- The event is one of the task's.
unfoldable pub is_event_of : WatchTask → WatchEvent → Bool
is_event_of t e = is_task_of e.tenant_id e.request.task_id e.agent_id t

-- The costs of the events that a test selects.
unfoldable pub spent : (WatchEvent → Bool) → List WatchEvent → ℕ
spent p [] = 0
spent p (e ∷ es) = (if p e then e.request.estimated_cost_usd else 0) + spent p es

-- The task counts its events and their costs.
unfoldable pub IsAccounted : List WatchEvent → WatchTask → Type 0
IsAccounted events t =
    (t.event_count ≡ count (is_event_of t) events)
    × (t.estimated_cost_usd ≡ spent (is_event_of t) events)

-- Every task counts its events, and every event has its task.
unfoldable pub Accounted : List WatchTask → List WatchEvent → Type 0
Accounted tasks events =
    All (IsAccounted events) tasks × All (λ e. any (λ t. is_event_of t e) tasks ≡ true) events

spent-append :
    (p : WatchEvent → Bool) (xs ys : List WatchEvent) → spent p (xs ++ ys) ≡ spent p xs + spent p ys
unfolding spent
spent-append p [] ys = omega arith
spent-append p (x ∷ xs) ys = omega (arith, spent-append p xs ys)

none-selected :
    (p : WatchEvent → Bool) (events : List WatchEvent)
    → All (λ e. p e ≡ false) events
    → (count p events ≡ 0) × (spent p events ≡ 0)
unfolding count spent
none-selected p [] h = (refl, refl)
none-selected p (e ∷ events) h =
    let (counted, cost) = none-selected p events h.1 in rw (h.0) (counted, omega (arith, cost))

-- A task that the event is not of.
IsAccounted-other :
    (events : List WatchEvent) (event : WatchEvent) (t : WatchTask)
    → is_event_of t event ≡ false
    → IsAccounted events t
    → IsAccounted (events ++ event ∷ []) t
unfolding IsAccounted count spent
IsAccounted-other events event t other (n, c) = (
  ground (arith, count-append (is_event_of t) events (event ∷ []), n, other),
  ground (arith, spent-append (is_event_of t) events (event ∷ []), c, other),
)

IsAccounted-own :
    (events : List WatchEvent) (event : WatchEvent) (t : WatchTask)
    → is_event_of t event ≡ true
    → IsAccounted events t
    → IsAccounted (events ++ event ∷ []) (after_event event t)
unfolding IsAccounted count spent is_event_of is_task_of is_task after_event
IsAccounted-own events event t own (n, c) =
    let number = count-append (is_event_of t) events (event ∷ []) in
    let cost = spent-append (is_event_of t) events (event ∷ []) in
    elim (Option-cases (terminal_status event.request)) [
      | inl e ↦ rw (e, after_event) (ground (arith, number, n, own), ground (arith, cost, c, own))
      | inr (s, e) ↦
          rw (e, after_event) (ground (arith, number, n, own), ground (arith, cost, c, own))
    ]

All-IsAccounted :
    (events : List WatchEvent) (event : WatchEvent) (tasks : List WatchTask)
    → All (IsAccounted events) tasks
    → All
        (IsAccounted (events ++ event ∷ []))
        (update (λ t. is_event_of t event) (after_event event) tasks)
unfolding update
All-IsAccounted events event [] h = tt
All-IsAccounted events event (t ∷ tasks) (held, h) = elim (Bool-cases (is_event_of t event)) [
  | inl e ↦ rw e (IsAccounted-own events event t e held, All-IsAccounted events event tasks h)
  | inr e ↦ rw e (IsAccounted-other events event t e held, All-IsAccounted events event tasks h)
]

All-append_one :
    {A : Type 0} (P : A → Type 0) (xs : List A) (x : A) → All P xs → P x → All P (xs ++ x ∷ [])
All-append_one P [] x h k = (k, tt)
All-append_one P (y ∷ ys) x (held, h) k = (held, All-append_one P ys x h k)

pub first-any :
    (q : WatchTask → Bool) (tasks : List WatchTask) (t : WatchTask)
    → first q tasks ≡ some t
    → any q tasks ≡ true
unfolding first any
first-any q [] t h = ground arith
first-any q (x ∷ tasks) t h = ground (arith, first-any q tasks t)

after_event-task :
    (event e : WatchEvent) (t : WatchTask) → is_event_of (after_event event t) e ≡ is_event_of t e
unfolding is_event_of is_task_of is_task after_event
after_event-task event e t = elim (Option-cases (terminal_status event.request)) [
  | inl h ↦ rw (h, after_event) refl
  | inr (s, h) ↦ rw (h, after_event) refl
]

any-updated :
    (event e : WatchEvent) (q : WatchTask → Bool) (tasks : List WatchTask)
    → any (λ t. is_event_of t e) (update q (after_event event) tasks)
      ≡ any (λ t. is_event_of t e) tasks
unfolding any update
any-updated event e q [] = refl
any-updated event e q (t ∷ tasks) = elim (Bool-cases (q t)) [
  | inl h ↦ rw (h, after_event-task event e t, any-updated event e q tasks) refl
  | inr h ↦ rw (h, any-updated event e q tasks) refl
]

-- The write of an event whose task is there.
pub Accounted-recorded :
    (event : WatchEvent) (tasks : List WatchTask) (events : List WatchEvent)
    → any (λ t. is_event_of t event) tasks ≡ true
    → Accounted tasks events
    → Accounted (update (λ t. is_event_of t event) (after_event event) tasks) (events ++ event ∷ [])
unfolding Accounted
Accounted-recorded event tasks events present (counts, owned) =
    let keeps = λ (e : WatchEvent). any-updated event e (λ t. is_event_of t event) tasks in
    (
      All-IsAccounted events event tasks counts,
      All-append_one _ events event (All-weaken events (λ e h. keeps e ∙ h) owned)
          (keeps event ∙ present),
    )

-- An event that has a task is not of a task whose key is new.
new_task-other :
    (t : WatchTask) (e : WatchEvent) (tasks : List WatchTask)
    → any (is_task t.tenant_id t.task_id) tasks ≡ false
    → any (λ x. is_event_of x e) tasks ≡ true
    → is_event_of t e ≡ false
unfolding any is_event_of is_task_of is_task
new_task-other t e [] fresh owned = ground arith
new_task-other t e (x ∷ tasks) fresh owned = ground (
  arith,
  new_task-other t e tasks,
  eq_iff x.tenant_id e.tenant_id,
  eq_iff t.tenant_id e.tenant_id,
  eq_iff x.tenant_id t.tenant_id,
  eq_iff x.task_id e.request.task_id,
  eq_iff t.task_id e.request.task_id,
  eq_iff x.task_id t.task_id,
)

Accounted-created :
    (t : WatchTask) (tasks : List WatchTask) (events : List WatchEvent)
    → t.event_count ≡ 0
    → t.estimated_cost_usd ≡ 0
    → any (is_task t.tenant_id t.task_id) tasks ≡ false
    → Accounted tasks events
    → Accounted (tasks ++ t ∷ []) events
unfolding Accounted IsAccounted any
Accounted-created t tasks events number cost fresh (counts, owned) =
    let others = All-weaken events (λ e h. new_task-other t e tasks fresh h) owned in
    let (counted, paid) = none-selected (is_event_of t) events others in
    (
      All-append_one (IsAccounted events) tasks t counts (number ∙ sym counted, cost ∙ sym paid),
      All-weaken events (λ e h. ground (arith, h, any-append_one (λ x. is_event_of x e) tasks t))
          owned,
    )

pub create_watch_task-Accounted :
    (principal : AgentPrincipal) (request : WatchTaskCreateRequest) (now : ℕ)
    (tasks : List WatchTask) (events : List WatchEvent)
    → Accounted tasks events
    → Accounted (create_watch_task principal request now tasks).0 events
unfolding create_watch_task
create_watch_task-Accounted principal request now tasks events held =
    elim (Bool-cases (any (is_task principal.tenant_id request.task_id) tasks)) [
      | inl e ↦ rw e held
      | inr e ↦ rw e (Accounted-created _ tasks events refl refl e held)
    ]
