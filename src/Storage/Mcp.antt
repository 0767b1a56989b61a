-- ===== src/Storage/Mcp.antt =====
-- The observed MCP tools of src/sentinelgate/storage.py: `record_mcp_tool_observation` and
-- `get_mcp_tool_observation` over `mcp_tool_observations`; `upsert_mcp_tool_baseline`,
-- `get_mcp_tool_baseline` and `mcp_tool_name_owners` over `mcp_tool_baselines`.
pub mod Lookup
pub mod Baselines
use sentinelgate.Prelude.{
  ℕ, String, Bool, ◌&&◌, not, Option, List, [], ◌∷◌, ◌++◌, ◌==◌, map, any, first, select, update,
  sorted_set, if◌then◌else◌,
}
use sentinelgate.Json.{Json}

pub record Observation : Type 0 where
  pub server_id : String
  pub tool_name : String
  pub digest : String
  pub status : String
  pub findings : List String
  pub observed_at : ℕ

abbrev pub is_observation_of : String → String → Observation → Bool
is_observation_of server_id tool_name o = (o.server_id == server_id) && (o.tool_name == tool_name)

-- The row of an observation replaces the one for the same tool.
put_observation : Observation → List Observation → List Observation
put_observation o [] = o ∷ []
put_observation o (x ∷ xs) =
    if is_observation_of o.server_id o.tool_name x then o ∷ xs else x ∷ put_observation o xs

unfoldable pub record_mcp_tool_observation :
    String → String → String → String → List String → ℕ → List Observation → List Observation
unfolding put_observation
record_mcp_tool_observation server_id tool_name digest status findings now table =
    put_observation
      (record {
        server_id = server_id;
        tool_name = tool_name;
        digest = digest;
        status = status;
        findings = sorted_set findings;
        observed_at = now;
      })
      table

unfoldable pub get_mcp_tool_observation : String → String → List Observation → Option Observation
get_mcp_tool_observation server_id tool_name = first (is_observation_of server_id tool_name)

pub record Baseline : Type 0 where
  pub server_id : String
  pub tool_name : String
  pub digest : String
  pub definition : Json
  pub status : String
  pub first_seen : ℕ
  pub last_seen : ℕ

abbrev pub is_baseline_of : String → String → Baseline → Bool
is_baseline_of server_id tool_name b = (b.server_id == server_id) && (b.tool_name == tool_name)

rebased : String → Json → String → ℕ → Baseline → Baseline
rebased digest definition status now b = record b {
  digest = digest;
  definition = definition;
  status = status;
  last_seen = now;
}

unfoldable pub upsert_mcp_tool_baseline :
    String → String → String → Json → String → ℕ → List Baseline → List Baseline
unfolding rebased
upsert_mcp_tool_baseline server_id tool_name digest definition status now table =
    if any (is_baseline_of server_id tool_name) table
    then update (is_baseline_of server_id tool_name) (rebased digest definition status now) table
    else table
      ++ record {
        server_id = server_id;
        tool_name = tool_name;
        digest = digest;
        definition = definition;
        status = status;
        first_seen = now;
        last_seen = now;
      }
        ∷ []

unfoldable pub get_mcp_tool_baseline : String → String → List Baseline → Option Baseline
get_mcp_tool_baseline server_id tool_name = first (is_baseline_of server_id tool_name)

-- `ORDER BY server_id` of identifiers that differ
unfoldable pub mcp_tool_name_owners : String → String → List Baseline → List String
mcp_tool_name_owners tool_name excluding table = sorted_set (
    map (λ b. b.server_id)
      (select (λ b. (b.tool_name == tool_name) && not (b.server_id == excluding)) table))
