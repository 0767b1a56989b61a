-- ===== src/Storage/Mcp/Lookup.antt =====
-- `record_mcp_tool_observation` and `get_mcp_tool_observation` of storage.py.
use sentinelgate.Prelude.{
  ℕ, String, ◌&&◌, some, List, [], ◌∷◌, ◌≡◌, refl, ◌==◌, eq_iff, arith, first, sorted_set,
  if◌then◌else◌,
}
use sentinelgate.Storage.Mcp.{
  Observation, is_observation_of, put_observation, record_mcp_tool_observation,
  get_mcp_tool_observation,
}

first-put_observation :
    (server_id tool_name : String) (o : Observation) (table : List Observation)
    → first (is_observation_of server_id tool_name) (put_observation o table) ≡ (
        if is_observation_of server_id tool_name o
        then some o
        else first (is_observation_of server_id tool_name) table)
unfolding first put_observation
first-put_observation server_id tool_name o [] = refl
first-put_observation server_id tool_name o (x ∷ xs) = ground (
  arith,
  eq_iff o.server_id server_id,
  eq_iff o.tool_name tool_name,
  eq_iff x.server_id o.server_id,
  eq_iff x.tool_name o.tool_name,
  eq_iff x.server_id server_id,
  eq_iff x.tool_name tool_name,
  first-put_observation server_id tool_name o xs,
)

-- A look-up after an observation is recorded answers the new one for its tool, and for every other
-- tool what it answered before.
pub get_mcp_tool_observation-record_mcp_tool_observation :
    (server_id tool_name digest status : String) (findings : List String) (now : ℕ)
    (asked_server asked_tool : String) (table : List Observation)
    → get_mcp_tool_observation asked_server asked_tool
        (record_mcp_tool_observation server_id tool_name digest status findings now table)
      ≡ (if (server_id == asked_server) && (tool_name == asked_tool)
          then some (record {
            server_id = server_id;
            tool_name = tool_name;
            digest = digest;
            status = status;
            findings = sorted_set findings;
            observed_at = now;
          })
          else get_mcp_tool_observation asked_server asked_tool table)
unfolding record_mcp_tool_observation get_mcp_tool_observation
get_mcp_tool_observation-record_mcp_tool_observation server_id tool_name digest status findings now
      asked_server asked_tool table =
    first-put_observation asked_server asked_tool _ table
