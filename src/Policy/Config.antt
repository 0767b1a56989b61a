-- ===== src/Policy/Config.antt =====
-- The policy file that `PolicyEngine` of src/sentinelgate/policy.py reads: the tools' rules, with the
-- keys that the file may leave out, and `tool_config`.
use sentinelgate.Prelude.{ℕ, String, Bool, Option, none, some, List, get_key}

-- One entry of `field_policies`.
pub record FieldRule : Type 0 where
  pub requires_provenance : Option Bool
  pub blocked_labels : List String
  pub action : Option String
  pub deny_untrusted : Bool
  pub max_classification : Option String

-- The value at a pointer, a rule or something that is no object.
pub data RuleEntry : Type 0 where
  not_a_rule : RuleEntry
  rule : FieldRule → RuleEntry

-- The value of `field_policies`, an object or something else.
pub data FieldPolicies : Type 0 where
  not_an_object : FieldPolicies
  rules : List (String × RuleEntry) → FieldPolicies

pub record ToolPolicy : Type 0 where
  pub risk : Option String
  pub effect : Option String
  pub allowed_agents : List String
  pub required_scopes : List String
  pub max_string_length : Option ℕ
  pub blocked_argument_patterns : List (String × List String)
  pub sensitive : Bool
  pub requires_provenance : Bool
  pub field_policies : FieldPolicies
  pub blocked_taint_labels : List String
  pub max_input_classification : Option String
  pub classification_violation_action : Option String
  pub egress : Bool
  pub dlp_action : Option String
  pub category : Option String
  pub max_egress_bytes : Option ℕ
  pub hourly_egress_bytes : Option ℕ
  pub mcp_server_id : Option String
  pub mcp_tool_name : Option String

-- The value of a tool's name in `tools`.
pub data ToolEntry : Type 0 where
  not_a_tool : ToolEntry
  tool : ToolPolicy → ToolEntry

-- The keys of `defaults` that the program reads.
pub record Defaults : Type 0 where
  pub max_string_length : Option ℕ
  pub requests_per_minute : Option ℕ
  pub approval_ttl_seconds : Option ℕ
  pub quarantine_threshold : Option ℕ
  pub quarantine_window_seconds : Option ℕ
  pub max_egress_bytes : Option ℕ
  pub hourly_egress_bytes : Option ℕ
  pub cross_trace_taint_window_seconds : Option ℕ
  pub mcp_observation_ttl_seconds : Option ℕ

pub record PolicyEngine : Type 0 where
  pub version : String
  pub tools : List (String × ToolEntry)
  pub runtime_tools : List (String × ToolPolicy)
  pub defaults : Defaults

as_tool : Option ToolEntry → Option ToolPolicy
as_tool none = none
as_tool (some not_a_tool) = none
as_tool (some (tool t)) = some t

-- A runtime registration comes before the file's entry.
unfoldable pub tool_config : PolicyEngine → String → Option ToolPolicy
unfolding as_tool
tool_config engine name = elim (get_key name engine.runtime_tools) [
  | some t ↦ some t
  | none ↦ as_tool (get_key name engine.tools)
]
