-- ===== src/Tests/Integrity.antt =====
-- The theorems on MCP observations, on violations and on lineage, applied.
use sentinelgate.Prelude.{
  ◌≤◌, true, none, some, [], ◌∷◌, ◌≡◌, refl, count, first, get_key, select, contains, ◌==◌, ◌&&◌,
  sorted_set, any, if◌then◌else◌,
}
use sentinelgate.Models.{
  allow, deny, Evaluation, ToolCallRequest, trusted, mixed, internal, restricted,
}
use sentinelgate.Taint.{classification_rank, trust_rank}
use sentinelgate.Policy.Config.{PolicyEngine, tool_config}
use sentinelgate.Storage.Containment.{is_quarantined}
use sentinelgate.Storage.Limits.{record_violation}
use sentinelgate.Storage.Lineage.{
  LineageRecord, TraceSummary, record_lineage, trace_summary, list_lineage, sorted_lineage,
  summarize_trace,
}
use sentinelgate.Storage.Lineage.Monotone.{trace_summary-record_lineage}
use sentinelgate.Storage.Mcp.{Observation, get_mcp_tool_observation, record_mcp_tool_observation}
use sentinelgate.Storage.Mcp.Lookup.{get_mcp_tool_observation-record_mcp_tool_observation}
use sentinelgate.Gateway.World.{World}
use sentinelgate.Gateway.Guards.{apply_mcp_integrity, manifest_name}
use sentinelgate.Gateway.Finalize.{answer_violation}
use sentinelgate.Gateway.Integrity.{
  IsClean, apply_mcp_integrity-IsClean, answer_violation-is_quarantined,
}
use sentinelgate.Tests.Data.{
  sample_runtime, sample_services, sample_engine, sample_settings, sample_call, sample_principal,
  empty_world,
}

abbrev server_call : ToolCallRequest
server_call = record sample_call { mcp_server_id = some "server-1" }

abbrev inspected_world : World
inspected_world = record empty_world {
  observations =
      record {
        server_id = "server-1";
        tool_name = "send_email";
        digest = "digest";
        status = "trusted";
        findings = [];
        observed_at = 500000;
      }
      ∷ [];
}

abbrev allowed_result : Evaluation
allowed_result = record {
  decision = allow;
  reasons = "POLICY_EFFECT:allow" ∷ [];
  risk = "high";
  policy_version = "v1";
}

server_call-passes :
    (apply_mcp_integrity sample_runtime sample_services sample_engine server_call inspected_world
      allowed_result).decision
    ≡ allow
unfolding apply_mcp_integrity manifest_name get_mcp_tool_observation first tool_config get_key
server_call-passes = refl

apply_mcp_integrity-IsClean_example :
    (o : Observation) × (get_mcp_tool_observation "server-1"
        (manifest_name sample_runtime sample_services sample_engine server_call)
        inspected_world.observations
      ≡ some o)
    × IsClean sample_runtime sample_services sample_engine sample_settings o 1000000
apply_mcp_integrity-IsClean_example =
    apply_mcp_integrity-IsClean sample_runtime sample_services sample_engine sample_settings
      server_call inspected_world allowed_result refl server_call-passes

-- An engine whose first violation is one too many.
abbrev strict_engine : PolicyEngine
strict_engine = record sample_engine {
  defaults = record sample_engine.defaults { quarantine_threshold = some 1 };
}

abbrev denied_result : Evaluation
denied_result = record {
  decision = deny;
  reasons = "UNKNOWN_TOOL" ∷ [];
  risk = "critical";
  policy_version = "v1";
}

answer_violation-is_quarantined_example :
    let (after, became) =
      answer_violation sample_runtime sample_services strict_engine sample_settings sample_call
        sample_principal denied_result empty_world in
    (became ≡ true) × (is_quarantined "tenant" "agent" 99000000000 after.contained ≡ true)
unfolding answer_violation record_violation count contains
answer_violation-is_quarantined_example =
    answer_violation-is_quarantined sample_runtime sample_services strict_engine sample_settings
      sample_call sample_principal denied_result empty_world 99000000000

abbrev sample_lineage : LineageRecord
sample_lineage = record {
  id = "lineage-1";
  tenant_id = "tenant";
  agent_id = "agent";
  trace_id = "trace-1";
  request_id = none;
  parent_ids = [];
  source_type = "tool_output";
  source_id = "tool:search";
  destination = "agent_context";
  trust = mixed;
  classification = restricted;
  labels = [];
  content_digest = "digest";
  created_at = 5;
  field_taint = [];
}

-- A later record of the same trace, trusted and internal.
abbrev milder_lineage : LineageRecord
milder_lineage = record sample_lineage {
  id = "lineage-2";
  trust = trusted;
  classification = internal;
  created_at = 6;
}

sample_lineage-summary :
    trace_summary "tenant" "agent" "trace-1" (sample_lineage ∷ [])
    ≡ some (summarize_trace sample_lineage [])
unfolding trace_summary list_lineage select sorted_lineage any
sample_lineage-summary = refl

trace_summary-record_lineage_example :
    (after : TraceSummary) × (trace_summary "tenant" "agent" "trace-1"
        (record_lineage milder_lineage (sample_lineage ∷ []))
      ≡ some after)
    × (classification_rank (summarize_trace sample_lineage []).classification
        ≤ classification_rank after.classification)
    × (trust_rank (summarize_trace sample_lineage []).trust ≤ trust_rank after.trust)
trace_summary-record_lineage_example =
    trace_summary-record_lineage "tenant" "agent" "trace-1" milder_lineage (sample_lineage ∷ [])
      (summarize_trace sample_lineage []) sample_lineage-summary

get_mcp_tool_observation-record_mcp_tool_observation_example :
    get_mcp_tool_observation "server-1" "send_email" (
      record_mcp_tool_observation "server-2" "send_email" "digest-2" "review" [] 7
        inspected_world.observations)
    ≡ (if ("server-2" == "server-1") && ("send_email" == "send_email")
        then some (record {
          server_id = "server-2";
          tool_name = "send_email";
          digest = "digest-2";
          status = "review";
          findings = sorted_set [];
          observed_at = 7;
        })
        else get_mcp_tool_observation "server-1" "send_email" inspected_world.observations)
get_mcp_tool_observation-record_mcp_tool_observation_example =
    get_mcp_tool_observation-record_mcp_tool_observation "server-2" "send_email" "digest-2" "review"
      [] 7 "server-1" "send_email" inspected_world.observations
