-- ===== src/Watch/Refused.antt =====
-- watch.py: the `ValueError`s of `create_task`, `ingest` and `observe_gateway_call`.
use sentinelgate.Prelude.{String, Option, none, some}
use sentinelgate.Runtime.{Runtime}
use sentinelgate.Watch.Service.{
  WatchTables, WatchService, Watched, watched, refused, create_task, ingest,
}
use sentinelgate.Watch.Observe.{observe_gateway_call, observe_execution}
use sentinelgate.Watch.Accounts.Steps.{Operation, created, ingested, called, executed}

-- The text of the error, if there is one.
unfoldable pub refusal : {A : Type 0} → Watched A → Option String
refusal (watched a) = none
refusal (refused message) = some message

module _ (runtime : Runtime) (service : WatchService) where
  unfoldable pub refusal_of : Operation → WatchTables → Option String
  unfolding refusal
  refusal_of (created p request now) t = refusal (create_task runtime service p request now t).1
  refusal_of (ingested p request now) t = refusal (ingest runtime service p request now t).1
  refusal_of (called call p decision now) t =
      refusal (observe_gateway_call runtime service call p decision now t).1
  refusal_of (executed call p outcome duration_ms error_code now) t =
      refusal (observe_execution runtime service call p outcome duration_ms error_code now t).1
