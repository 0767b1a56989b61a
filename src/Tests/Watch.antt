-- ===== src/Tests/Watch.antt =====
-- The theorems on the watch service, applied.
use sentinelgate.Prelude.{String, true, false, some, none, List, [], ◌∷◌, refl, arith, sorted_set}
use sentinelgate.Models.{deny, enforce, PolicyDecision}
use sentinelgate.Storage.Watch.{
  balanced, tool_call, WatchTask, WatchTaskCreateRequest, WatchEventRequest,
}
use sentinelgate.Watch.Service.{WatchTables, WatchService, ingest}
use sentinelgate.Watch.Accounts.Steps.{Operation, created, ingested, called, executed}
use sentinelgate.Watch.Isolation.{KeepsOthers, ingest-KeepsOthers}
use sentinelgate.Tests.Data.{sample_runtime, sample_principal, sample_call}
use sentinelgate.Watch.Patterns.{most_common, cycle_pattern, repeated}
use sentinelgate.Watch.Common.{IsMostCommon, most_common-IsMostCommon}
use sentinelgate.Watch.Cycle.{EndsIn, cycle_pattern-EndsIn}

most_common-IsMostCommon_example :
    IsMostCommon ("a" ∷ "b" ∷ "b" ∷ []) (most_common ("a" ∷ "b" ∷ "b" ∷ []))
most_common-IsMostCommon_example = most_common-IsMostCommon ("a" ∷ "b" ∷ "b" ∷ [])

abbrev looping : List String
looping = "x" ∷ "a" ∷ "b" ∷ "a" ∷ "b" ∷ "a" ∷ "b" ∷ []

looping-EndsIn : EndsIn looping 3 ("a" ∷ "b" ∷ [])
unfolding EndsIn repeated sorted_set
looping-EndsIn = ("x" ∷ [], (refl, refl))

cycle_pattern-EndsIn_example : EndsIn looping 3 (cycle_pattern looping 3)
cycle_pattern-EndsIn_example =
    cycle_pattern-EndsIn looping 2 ("a" ∷ "b" ∷ []) (omega arith) (omega arith) looping-EndsIn

abbrev task_of : String → String → WatchTask
task_of agent task = record {
  task_id = task;
  tenant_id = "tenant";
  agent_id = agent;
  description = "report";
  profile = balanced;
  expected_tools = [];
  success_criteria = [];
  max_runtime_seconds = 3600;
  max_tool_calls = 250;
  max_cost_usd = 1000;
  status = "active";
  event_count = 0;
  estimated_cost_usd = 0;
  created_at = 10;
  updated_at = 10;
  completed_at = none;
}

abbrev sample_event : WatchEventRequest
sample_event = record {
  task_id = "mine";
  event_type = tool_call;
  tool_name = some "job_status";
  outcome = some "allow";
  error_code = none;
  call_fingerprint = some "abc";
  progress_signal = none;
  input_tokens = 5;
  output_tokens = 7;
  estimated_cost_usd = 3;
  duration_ms = none;
}

abbrev sample_tables : WatchTables
sample_tables = record {
  tasks = task_of "agent" "mine" ∷ task_of "other" "theirs" ∷ [];
  events =
      record {
        id = "e0";
        tenant_id = "tenant";
        agent_id = "other";
        created_at = 12;
        request = record sample_event { task_id = "theirs" };
      }
      ∷ [];
  findings = [];
  audit = [];
  drawn = 0;
}

abbrev sample_watch : WatchService
sample_watch = record {
  enabled = true;
  monitor_only = true;
  uuid = λ n. "id";
  signing_key = "key";
  default_max_cost = 1000;
}

ingest-KeepsOthers_example :
    KeepsOthers sample_principal sample_tables
      (ingest sample_runtime sample_watch sample_principal sample_event 20 sample_tables).0
ingest-KeepsOthers_example =
    ingest-KeepsOthers sample_principal sample_runtime sample_watch sample_event 20 sample_tables

abbrev sample_request : WatchTaskCreateRequest
sample_request = record {
  task_id = "mine";
  description = "report";
  profile = balanced;
  expected_tools = [];
  success_criteria = [];
  max_runtime_seconds = 3600;
  max_tool_calls = 250;
  max_cost_usd = 1000;
}

abbrev no_rows : WatchTables
no_rows = record { tasks = []; events = []; findings = []; audit = []; drawn = 0 }

abbrev sample_decision : PolicyDecision
sample_decision = record {
  request_id = "request-1";
  request_hash = "hash";
  agent_id = "agent";
  tenant_id = "tenant";
  decision = deny;
  reason_codes = "UNKNOWN_TOOL" ∷ [];
  risk = "critical";
  policy_version = "v1";
  security_findings = [];
  approval_id = none;
  audit_event_id = "event-1";
  quarantined = false;
  enforcement_mode = enforce;
  enforced = true;
}

abbrev all_steps : List Operation
all_steps =
    created sample_principal sample_request 10
    ∷ ingested sample_principal sample_event 20
    ∷ called sample_call sample_principal sample_decision 30
    ∷ executed sample_call sample_principal "succeeded" (some 4) none 40
    ∷ []

-- The task of the call is another agent's.
abbrev their_call : Operation
their_call =
    called (record sample_call { task_id = some "theirs" }) sample_principal sample_decision 30
