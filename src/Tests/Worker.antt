-- ===== src/Tests/Worker.antt =====
-- The theorems on the worker and on MCP inspections, applied.
use sentinelgate.Prelude.{
  ◌+◌, ◌≤◌, true, none, some, [], ◌∷◌, ◌≡◌, refl, All, count, first, ◌==◌, any, select, is_empty,
  sorted_set,
}
use sentinelgate.Json.{object, end}
use sentinelgate.Storage.Approvals.{ApprovalRow, found, get_approval}
use sentinelgate.Storage.Outbox.{Job, next_job, has_job_id, is_ready}
use sentinelgate.Storage.Outbox.Lease.{KeysUnique}
use sentinelgate.Storage.Outbox.Work.{work_left}
use sentinelgate.Storage.Mcp.{get_mcp_tool_baseline}
use sentinelgate.Worker.{DurableWorker, Tables, answered, process_one, process_all}
use sentinelgate.Worker.Drained.{process_all-claims}
use sentinelgate.Worker.Delivered.{process_one-delivers}
use sentinelgate.Security.{canonical_json, injection_signals}
use sentinelgate.McpSecurity.{
  McpTool, McpManifestInspectionRequest, Seen, inspect_manifest, inspect_tools, inspect_tool,
  findings_of, is_blocking, is_accepted, status_of, baseline_digest_of, is_changed,
  has_hidden_controls, is_control, schema_paths, when, take_first, comma_separated,
}
use sentinelgate.McpSecurity.Blocked.{inspect_manifest-baseline}
use sentinelgate.Tests.Data.{sample_runtime, sample_call, sample_digest}

abbrev sample_job : Job
sample_job = record {
  id = "job-1";
  kind = "approval.required";
  deduplication_key = "approval-1";
  payload_approval = "approval-1";
  payload_reasons = [];
  status = "pending";
  attempts = 0;
  max_attempts = 3;
  next_attempt_at = 5;
  locked_by = none;
  locked_at = none;
  last_error = none;
  created_at = 5;
  completed_at = none;
}

abbrev sample_approval : ApprovalRow
sample_approval = record {
  id = "approval-1";
  request = sample_call;
  sealed = true;
  request_hash = sample_digest;
  agent_id = "agent";
  tenant_id = "tenant";
  scopes = [];
  status = "pending";
  created_at = 1;
  expires_at = 100;
  resolved_at = none;
  reviewer = none;
  note = "";
}

abbrev sample_tables : Tables
sample_tables = record {
  approvals = sample_approval ∷ [];
  outbox = sample_job ∷ [];
  heartbeats = [];
  audit = [];
  drawn = 0;
}

abbrev sample_worker : DurableWorker
sample_worker = record {
  worker_id = "worker-1";
  lease_seconds = 30;
  integrity_text = "";
  notify = λ approval reasons. answered true;
  uuid = λ n. "event-1";
  audit_key = "key";
}

process_all-claims_example :
    count
        (λ r. r.claimed)
        (process_all sample_runtime sample_worker (6 ∷ 7 ∷ 8 ∷ 9 ∷ []) sample_tables).1
      + work_left
          (process_all sample_runtime sample_worker (6 ∷ 7 ∷ 8 ∷ 9 ∷ []) sample_tables).0.outbox
    ≤ work_left sample_tables.outbox
process_all-claims_example =
    process_all-claims sample_runtime sample_worker (6 ∷ 7 ∷ 8 ∷ 9 ∷ []) sample_tables

job_is_next : next_job 6 30 sample_tables.outbox ≡ some sample_job
unfolding next_job is_ready
job_is_next = refl

keys_unique : KeysUnique sample_tables.outbox
unfolding first
keys_unique = (refl, tt)

approval_found : get_approval "approval-1" sample_tables.approvals ≡ found sample_approval
unfolding get_approval first
approval_found = refl

process_one-delivers_example :
    ((process_one sample_runtime sample_worker 6 sample_tables).1
      ≡ record { claimed = true; completed = true; job_id = some "job-1" })
    × ((row : Job) × (first
            (has_job_id "job-1")
            (process_one sample_runtime sample_worker 6 sample_tables).0.outbox
          ≡ some row)
        × (row.status ≡ "completed"))
process_one-delivers_example =
    process_one-delivers sample_runtime sample_worker 6 sample_tables sample_job sample_approval
      keys_unique job_is_next refl approval_found refl refl

abbrev sample_tool : McpTool
sample_tool = record {
  name = "search";
  description = "Finds documents.";
  input_schema = object end;
  definition = object end;
}

-- The tool is declared twice.
abbrev sample_request : McpManifestInspectionRequest
sample_request = record { tools = sample_tool ∷ sample_tool ∷ []; accept_baseline = true }

abbrev nothing_seen : Seen
nothing_seen = record { observations = []; baselines = []; audit = []; drawn = 0 }

twice_blocked :
    All
      (λ item. (item.tool_name == "search") ≡ true → (item.status == "blocked") ≡ true)
      (inspect_manifest sample_runtime
        (λ n. "event-1")
        "key"
        "server"
        sample_request
        5
        nothing_seen).1.tools
unfolding inspect_manifest inspect_tools inspect_tool findings_of is_blocking is_accepted status_of
    baseline_digest_of is_changed canonical_json injection_signals has_hidden_controls is_control
    schema_paths when take_first comma_separated any count select is_empty sorted_set first
    get_mcp_tool_baseline
twice_blocked = (λ h. refl, (λ h. refl, tt))

inspect_manifest-baseline_example :
    get_mcp_tool_baseline "server" "search"
      (inspect_manifest sample_runtime
        (λ n. "event-1")
        "key"
        "server"
        sample_request
        5
        nothing_seen).0.baselines
    ≡ get_mcp_tool_baseline "server" "search" []
inspect_manifest-baseline_example =
    inspect_manifest-baseline sample_runtime "server" sample_request 5 (λ n. "event-1") "key"
      nothing_seen "search" twice_blocked
