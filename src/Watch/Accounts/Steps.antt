-- ===== src/Watch/Accounts/Steps.antt =====
-- watch.py: `create_task`, `ingest`, `observe_gateway_call` and `observe_execution` over any sequence,
-- and the tables of tasks and events.
use sentinelgate.Prelude.{ℕ, String, Option, true, some, List, [], ◌∷◌, ◌≡◌, truthy}
use sentinelgate.Models.{AgentPrincipal, ToolCallRequest, PolicyDecision}
use sentinelgate.Runtime.{Runtime}
use sentinelgate.Storage.Watch.{WatchTaskCreateRequest, WatchEventRequest}
use sentinelgate.Watch.Service.{WatchTables, WatchService, create_task, ingest}
use sentinelgate.Watch.Observe.{observe_gateway_call, observe_execution}

-- What an agent and the gateway do with the service.
pub data Operation : Type 0 where
  created : AgentPrincipal → WatchTaskCreateRequest → ℕ → Operation
  ingested : AgentPrincipal → WatchEventRequest → ℕ → Operation
  called : ToolCallRequest → AgentPrincipal → PolicyDecision → ℕ → Operation
  executed : ToolCallRequest → AgentPrincipal → String → Option ℕ → Option String → ℕ → Operation

-- The agent of an operation has a name.
unfoldable pub HasAgent : Operation → Type 0
HasAgent (created p request now) = Unit
HasAgent (ingested p request now) = truthy (some p.agent_id) ≡ true
HasAgent (called call p decision now) = truthy (some p.agent_id) ≡ true
HasAgent (executed call p outcome duration_ms error_code now) = truthy (some p.agent_id) ≡ true

module _ (runtime : Runtime) (service : WatchService) where
  unfoldable pub apply : Operation → WatchTables → WatchTables
  apply (created p request now) t = (create_task runtime service p request now t).0
  apply (ingested p request now) t = (ingest runtime service p request now t).0
  apply (called call p decision now) t =
      (observe_gateway_call runtime service call p decision now t).0
  apply (executed call p outcome duration_ms error_code now) t =
      (observe_execution runtime service call p outcome duration_ms error_code now t).0

  unfoldable pub apply_all : List Operation → WatchTables → WatchTables
  unfolding apply
  apply_all [] t = t
  apply_all (op ∷ ops) t = apply_all ops (apply op t)
