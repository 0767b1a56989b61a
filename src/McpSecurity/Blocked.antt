-- ===== src/McpSecurity/Blocked.antt =====
-- mcp_security.py: the baselines and the blocked tools of `inspect_manifest`.
use sentinelgate.Prelude.{
  ℕ, String, Bool, true, false, ◌≡◌, refl, ap, ◌∙◌, Option, none, some, List, [], ◌∷◌, ◌==◌, any,
  All, is_empty, arith, Bool-cases, inl, inr, if◌then◌else◌,
}
use sentinelgate.Runtime.{Runtime}
use sentinelgate.Json.{Json}
use sentinelgate.Security.{canonical_json}
use sentinelgate.Storage.Mcp.{
  Baseline, get_mcp_tool_baseline, upsert_mcp_tool_baseline, mcp_tool_name_owners,
}
use sentinelgate.Storage.Mcp.Baselines.{get_mcp_tool_baseline-upsert_other}
use sentinelgate.McpSecurity.{
  McpTool, McpToolFinding, McpManifestInspectionRequest, Seen, is_blocking, is_accepted, status_of,
  findings_of, is_changed, baseline_digest_of, inspect_tool, inspect_tools, inspect_manifest,
}

status_of-blocked :
    (blocked : Bool) (findings : List McpToolFinding)
    → (status_of blocked findings == "blocked") ≡ true
    → blocked ≡ true
unfolding status_of is_empty
status_of-blocked true findings h = refl
status_of-blocked false [] h = ground arith
status_of-blocked false (x ∷ xs) h = ground arith

is_accepted-blocked :
    (accept : Bool) (baseline : Option Baseline) (changed : Bool) (findings : List McpToolFinding)
    → any (is_blocking accept) findings ≡ true
    → is_accepted accept true baseline changed findings ≡ false
unfolding is_accepted is_empty any
is_accepted-blocked accept baseline changed [] h = ground arith
is_accepted-blocked accept none changed (x ∷ xs) h = ground arith
is_accepted-blocked accept (some b) changed (x ∷ xs) h = ground arith

module _ (runtime : Runtime) (server_id : String) (request : McpManifestInspectionRequest)
    (now : ℕ) where
  stays_if :
      (accepted : Bool) (name : String) (table seen : List Baseline)
      → accepted ≡ false
      → get_mcp_tool_baseline server_id name (if accepted then table else seen)
        ≡ get_mcp_tool_baseline server_id name seen
  stays_if true name table seen h = ground arith
  stays_if false name table seen h = refl

  upsert_if :
      (accepted : Bool) (tool_name name digest status : String) (definition : Json)
      (table : List Baseline)
      → (tool_name == name) ≡ false
      → get_mcp_tool_baseline server_id name (
          if accepted
          then upsert_mcp_tool_baseline server_id tool_name digest definition status now table
          else table)
        ≡ get_mcp_tool_baseline server_id name table
  upsert_if true tool_name name digest status definition table other =
      get_mcp_tool_baseline-upsert_other server_id name tool_name digest status definition now table
        other
  upsert_if false tool_name name digest status definition table other = refl

  inspect_tool-baseline :
      (tool : McpTool) (seen : Seen) (name : String)
      → (let (after, item) = inspect_tool runtime server_id request now tool seen in
          ((item.tool_name == name) ≡ true → (item.status == "blocked") ≡ true)
          → get_mcp_tool_baseline server_id name after.baselines
            ≡ get_mcp_tool_baseline server_id name seen.baselines)
  unfolding inspect_tool
  inspect_tool-baseline tool seen name h =
      let changed =
        is_changed (baseline_digest_of (get_mcp_tool_baseline server_id tool.name seen.baselines))
          (runtime.sha256 (canonical_json runtime tool.definition)) in
      let findings =
        findings_of runtime request.tools tool
          (mcp_tool_name_owners tool.name server_id seen.baselines) changed in
      elim (Bool-cases (tool.name == name)) [
        | inl e ↦
            let blocked = status_of-blocked _ findings (h e) in
            stays_if _ name _ seen.baselines (
              ap
                (λ b.
                  is_accepted request.accept_baseline b
                    (get_mcp_tool_baseline server_id tool.name seen.baselines) changed findings)
                blocked
              ∙ is_accepted-blocked request.accept_baseline
                  (get_mcp_tool_baseline server_id tool.name seen.baselines) changed findings
                  blocked)
        | inr e ↦ upsert_if _ tool.name name _ _ _ seen.baselines e
      ]

  inspect_tools-baseline :
      (tools : List McpTool) (seen : Seen) (name : String)
      → (let (after, items) = inspect_tools runtime server_id request now tools seen in
          All (λ item. (item.tool_name == name) ≡ true → (item.status == "blocked") ≡ true) items
          → get_mcp_tool_baseline server_id name after.baselines
            ≡ get_mcp_tool_baseline server_id name seen.baselines)
  unfolding inspect_tools
  inspect_tools-baseline [] seen name h = refl
  inspect_tools-baseline (tool ∷ tools) seen name h =
      inspect_tools-baseline tools (inspect_tool runtime server_id request now tool seen).0 name h.1
      ∙ inspect_tool-baseline tool seen name h.0

  -- An inspection changes the accepted baseline of a tool only if it reports the tool, under that
  -- name, as not blocked: where every report of the name is blocked, the baseline stays.
  pub inspect_manifest-baseline :
      (uuid : ℕ → String) (audit_key : String) (seen : Seen) (name : String)
      → (let (after, result) = inspect_manifest runtime uuid audit_key server_id request now seen in
          All
            (λ item. (item.tool_name == name) ≡ true → (item.status == "blocked") ≡ true)
            result.tools
          → get_mcp_tool_baseline server_id name after.baselines
            ≡ get_mcp_tool_baseline server_id name seen.baselines)
  unfolding inspect_manifest
  inspect_manifest-baseline uuid audit_key seen name h =
      inspect_tools-baseline request.tools seen name h
