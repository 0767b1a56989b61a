-- ===== src/Tests/Data.antt =====
-- A small deployment: one agent, one tool that the policy allows, an executor that answers with a
-- text, and an empty store.
use Prim.Native.String.{count as size}
use sentinelgate.Prelude.{String, true, false, none, some, List, [], ◌∷◌, ◌==◌}
use sentinelgate.Json.{text, object, end, field}
use sentinelgate.Models.{
  AgentPrincipal, ToolCallRequest, EnforcementMode, trusted, public_data, VerifiedProvenance,
}
use sentinelgate.Runtime.{Runtime}
use sentinelgate.Policy.Config.{PolicyEngine, ToolPolicy, tool, rules}
use sentinelgate.Gateway.World.{World, Services, Settings, completed}

abbrev pub sample_digest : String
sample_digest = "0123456789abcdef0123456789abcdef0123456789abcdef0123456789abcdef"

abbrev pub sample_runtime : Runtime
sample_runtime = record {
  casefold = λ s. s;
  fnmatch = λ s p. s == p;
  str = λ v. "value";
  dumps = λ v. "{}";
  sha256 = λ s. sample_digest;
  hmac_sha256 = λ k m. sample_digest;
  injection_search = λ c s. false;
  isoformat = λ n. "2026-01-01T00:00:00+00:00";
  upper = λ s. s;
  decimal = λ n. "5";
  byte_length = size;
  isdigit = λ s. false;
  parse_int = λ s. none;
  secret_key_search = λ s. s == "password";
  secret_matches = λ c s. [];
  secret_sub = λ c s. s;
  dumps_unicode = λ v. "{}";
  dumps_compact = λ v. "{}";
  loads = λ s. none;
  is_zero = λ s. false;
  cost_text = λ n. "0.000000";
  is_substring = λ p s. p == s;
  schema_search = λ s. s == "token";
  category = λ c. "Ll";
  json_equal = λ v w. false;
  replace = λ s p r. s;
  validate_field_taint = λ v. none;
  urlsafe_b64encode = λ s. s;
  b64decode = λ s. some s;
  hmac_digest = λ k m. sample_digest;
}

abbrev pub sample_services : Services
sample_services = record {
  uuid = λ n. "id-1";
  request_hash = λ c p. c.request_id;
  scan_secrets = λ v. [];
  redact = λ v. v;
  dump_call = λ c. object c.arguments;
  verify_many = λ now tokens tenant. some [];
  derive_tool_output = λ c p output parents. record {
    token = "token-1";
    lineage_id = "lineage-1";
    trust = output.trust;
    classification = output.classification;
    labels = output.labels;
    content_digest = sample_digest;
    field_taint = [];
  };
  resolve_pointer = λ arguments pointer. none;
  value_digest = λ v. sample_digest;
  validate = λ name arguments. true;
  execute_tool = λ name arguments. completed (record {
    output = text "done";
    trust = trusted;
    classification = public_data;
    labels = [];
    sources = [];
  });
  notify = λ approval reasons. true;
  watch_raises = λ request outcome. none;
}

abbrev pub sample_settings : Settings
sample_settings = record {
  enforcement_mode = EnforcementMode.enforce;
  notifier_enabled = false;
  durable_notifications = true;
  notification_max_attempts = 8;
  has_watch = true;
  audit_key = "key";
}

abbrev pub send_policy : ToolPolicy
send_policy = record {
  risk = some "high";
  effect = some "allow";
  allowed_agents = "agent" ∷ [];
  required_scopes = "send" ∷ [];
  max_string_length = none;
  blocked_argument_patterns = [];
  sensitive = true;
  requires_provenance = false;
  field_policies = rules [];
  blocked_taint_labels = [];
  max_input_classification = none;
  classification_violation_action = none;
  egress = true;
  dlp_action = none;
  category = none;
  max_egress_bytes = none;
  hourly_egress_bytes = none;
  mcp_server_id = none;
  mcp_tool_name = none;
}

abbrev pub sample_engine : PolicyEngine
sample_engine = record {
  version = "v1";
  tools = ("send_email", tool send_policy) ∷ [];
  runtime_tools = [];
  defaults = record {
    max_string_length = none;
    requests_per_minute = none;
    approval_ttl_seconds = none;
    quarantine_threshold = none;
    quarantine_window_seconds = none;
    max_egress_bytes = none;
    hourly_egress_bytes = none;
    cross_trace_taint_window_seconds = none;
    mcp_observation_ttl_seconds = none;
  };
}

abbrev pub sample_principal : AgentPrincipal
sample_principal = record {
  agent_id = "agent";
  tenant_id = "tenant";
  scopes = "send" ∷ [];
  token_id = "token";
  expires_at = 9000000;
}

abbrev pub sample_call : ToolCallRequest
sample_call = record {
  request_id = "request-1";
  user_id = "user";
  tool_name = "send_email";
  arguments = field "to" (text "someone") end;
  provenance_tokens = [];
  field_provenance = [];
  purpose = "test";
  trace_id = "trace-1";
  task_id = none;
  mcp_server_id = none;
}

abbrev pub unknown_call : ToolCallRequest
unknown_call = record sample_call { tool_name = "delete_all" }

abbrev pub empty_world : World
empty_world = record {
  approvals = [];
  executions = [];
  rate = [];
  egress = [];
  violations = [];
  contained = record {
    containments = [];
    quarantines = [];
    agents = record { agents = []; tokens = [] };
    prefers = λ earlier later. true;
  };
  incidents = [];
  outbox = [];
  lineage = [];
  actions = [];
  observations = [];
  audit = [];
  snapshots = [];
  invoked = [];
  watched = [];
  now = 1000000;
  drawn = 0;
}

-- The evidence of a call without tokens.
abbrev pub no_provenance : List VerifiedProvenance
no_provenance = []
