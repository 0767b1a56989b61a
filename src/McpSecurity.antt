-- ===== src/McpSecurity.antt =====
-- The inspection of MCP manifests of src/sentinelgate/mcp_security.py.
pub mod Blocked
use Prim.Native.Char.{Char}
use sentinelgate.Prelude.{
  ℕ, suc, ◌+◌, String, Bool, true, false, not, ◌&&◌, ◌||◌, Option, none, some, List, [], ◌∷◌, ◌++◌,
  ◌==◌, map, any, all, count, select, is_empty, ltb, cat, sorted_set, if◌then◌else◌,
}
use sentinelgate.Json.{
  Json, Items, Fields, nil, cons, end, field, null, boolean, number, text, array, object,
}
use sentinelgate.Runtime.{Runtime}
use sentinelgate.Security.{canonical_json, injection_signals}
use sentinelgate.FieldTaint.Pointer.{same_char}
use sentinelgate.Storage.Audit.{AuditRow, append_audit}
use sentinelgate.Storage.Mcp.{
  Observation, Baseline, get_mcp_tool_baseline, upsert_mcp_tool_baseline, mcp_tool_name_owners,
  record_mcp_tool_observation,
}

pub record McpTool : Type 0 where
  pub name : String
  pub description : String
  pub input_schema : Json
  -- `tool.model_dump(mode="json")`
  pub definition : Json

pub record McpToolFinding : Type 0 where
  pub code : String
  pub severity : String
  pub location : String
  pub detail : String

pub record McpToolInspection : Type 0 where
  pub server_id : String
  pub tool_name : String
  pub digest : String
  pub baseline_digest : Option String
  pub status : String
  pub changed : Bool
  pub findings : List McpToolFinding

pub record McpManifestInspectionRequest : Type 0 where
  pub tools : List McpTool
  pub accept_baseline : Bool

pub record McpManifestInspectionResult : Type 0 where
  pub server_id : String
  pub safe : Bool
  pub accepted : Bool
  pub inspected_at : ℕ
  pub tools : List McpToolInspection

-- The tables that an inspection writes.
pub record Seen : Type 0 where
  pub observations : List Observation
  pub baselines : List Baseline
  pub audit : List AuditRow
  -- how many identifiers have been drawn
  pub drawn : ℕ

-- `xs[:n]`
unfoldable pub take_first : {A : Type 0} → ℕ → List A → List A
take_first n [] = []
take_first ℕ.zero (x ∷ xs) = []
take_first (suc n) (x ∷ xs) = x ∷ take_first n xs

unfoldable pub comma_separated : List String → String
comma_separated [] = ""
comma_separated (x ∷ []) = x
comma_separated (x ∷ y ∷ ys) = cat x (cat ", " (comma_separated (y ∷ ys)))

unfoldable pub baseline_digest_of : Option Baseline → Option String
baseline_digest_of none = none
baseline_digest_of (some b) = some b.digest

-- `baseline_digest is not None and baseline_digest != digest`
unfoldable pub is_changed : Option String → String → Bool
is_changed none digest = false
is_changed (some d) digest = not (d == digest)

-- A finding if a condition holds.
unfoldable pub when : Bool → String → String → String → String → List McpToolFinding
when holds code severity location detail =
    if holds
    then record { code = code; severity = severity; location = location; detail = detail } ∷ []
    else []

-- `item.severity == "critical" and not (accept_baseline and item.code == "TOOL_DEFINITION_CHANGED")`
unfoldable pub is_blocking : Bool → McpToolFinding → Bool
is_blocking accept_baseline item =
    (item.severity == "critical")
    && not (accept_baseline && (item.code == "TOOL_DEFINITION_CHANGED"))

-- `(accept_baseline and not blocked) or first_seen_clean or unchanged_clean`
unfoldable pub is_accepted : Bool → Bool → Option Baseline → Bool → List McpToolFinding → Bool
is_accepted accept_baseline blocked none changed findings =
    (accept_baseline && not blocked) || is_empty findings
is_accepted accept_baseline blocked (some b) changed findings =
    (accept_baseline && not blocked) || (not changed && is_empty findings)

unfoldable pub status_of : Bool → List McpToolFinding → String
status_of blocked findings =
    if blocked then "blocked" else if is_empty findings then "trusted" else "review"

module _ (runtime : Runtime) where
  -- `_schema_paths`, and its two loops
  unfoldable mutual
    pub schema_paths : Json → String → List String
    schema_paths null path = []
    schema_paths (boolean b) path = []
    schema_paths (number n) path = []
    schema_paths (text s) path = []
    schema_paths (array xs) path = item_paths xs 0 path
    schema_paths (object d) path = field_paths d path

    pub item_paths : Items → ℕ → String → List String
    item_paths nil index path = []
    item_paths (cons x xs) index path =
        schema_paths x (cat path (cat "[" (cat (runtime.decimal index) "]")))
        ++ item_paths xs (index + 1) path

    pub field_paths : Fields → String → List String
    field_paths end path = []
    field_paths (field k v d) path =
        let child_path : String = cat path (cat "." k) in
        (if runtime.schema_search k then child_path ∷ [] else [])
        ++ (schema_paths v child_path ++ field_paths d path)

  unfoldable pub is_control : Char → Bool
  is_control c =
      ((runtime.category c == "Cf") || (runtime.category c == "Cc"))
      && not (same_char c "\n" || same_char c "\r" || same_char c "\t")

  unfoldable pub has_hidden_controls : String → Bool
  unfolding is_control
  has_hidden_controls String.[] = false
  has_hidden_controls (String.◌∷◌ c s) = is_control c || has_hidden_controls s

  -- The findings of one tool, in the order of the code.
  unfoldable pub findings_of : List McpTool → McpTool → List String → Bool → List McpToolFinding
  unfolding injection_signals canonical_json has_hidden_controls schema_paths when take_first
      comma_separated
  findings_of tools tool owners changed =
      let schema_text = canonical_json runtime tool.input_schema in
      map
        (λ signal. record {
          code = cat "DESCRIPTION_" signal;
          severity = "critical";
          location = "description";
          detail = "Instruction-like content appeared in the tool description.";
        })
        (injection_signals runtime tool.description)
      ++ map
          (λ signal. record {
            code = cat "SCHEMA_" signal;
            severity = "critical";
            location = "inputSchema";
            detail = "Instruction-like content appeared in the input schema.";
          })
          (injection_signals runtime schema_text)
      ++ when (has_hidden_controls tool.description || has_hidden_controls schema_text)
          "HIDDEN_UNICODE_CONTROL" "critical" "definition"
          "The definition contains non-printing control characters."
      ++ map
          (λ path. record {
            code = "SENSITIVE_SCHEMA_FIELD";
            severity = "high";
            location = path;
            detail = "The schema requests a credential- or prompt-like field.";
          })
          (sorted_set (schema_paths tool.input_schema "inputSchema"))
      ++ when (ltb 1 (count (λ other. other.name == tool.name) tools)) "DUPLICATE_TOOL_NAME"
          "critical" "name" "The same manifest declares this tool name more than once."
      ++ when (not (is_empty owners)) "CROSS_SERVER_NAME_COLLISION" "high" "name"
          (cat "Also registered by: " (comma_separated (take_first 5 owners)))
      ++ when changed "TOOL_DEFINITION_CHANGED" "critical" "definition"
          "The definition differs from the accepted baseline."

  -- The body of the loop.
  unfoldable pub inspect_tool :
      String → McpManifestInspectionRequest → ℕ → McpTool → Seen → Seen × McpToolInspection
  unfolding findings_of is_blocking is_accepted status_of baseline_digest_of is_changed
      canonical_json
  inspect_tool server_id request now tool seen =
      let digest = runtime.sha256 (canonical_json runtime tool.definition) in
      let baseline = get_mcp_tool_baseline server_id tool.name seen.baselines in
      let baseline_digest = baseline_digest_of baseline in
      let changed = is_changed baseline_digest digest in
      let owners = mcp_tool_name_owners tool.name server_id seen.baselines in
      let findings = findings_of request.tools tool owners changed in
      let blocked = any (is_blocking request.accept_baseline) findings in
      let status = status_of blocked findings in
      (
        record seen {
          observations =
              record_mcp_tool_observation server_id tool.name digest status
                (map (λ item. item.code) findings) now seen.observations;
          baselines =
              if is_accepted request.accept_baseline blocked baseline changed findings
              then upsert_mcp_tool_baseline server_id tool.name digest tool.definition status now
                  seen.baselines
              else seen.baselines;
        },
        record {
          server_id = server_id;
          tool_name = tool.name;
          digest = digest;
          baseline_digest = baseline_digest;
          status = status;
          changed = changed;
          findings = findings;
        },
      )

  unfoldable pub inspect_tools :
      String
      → McpManifestInspectionRequest
      → ℕ
      → List McpTool
      → Seen
      → Seen × List McpToolInspection
  unfolding inspect_tool
  inspect_tools server_id request now [] seen = (seen, [])
  inspect_tools server_id request now (tool ∷ tools) seen =
      let (after, inspection) = inspect_tool server_id request now tool seen in
      let (last, inspections) = inspect_tools server_id request now tools after in
      (last, inspection ∷ inspections)

  unfoldable pub has_baseline : String → List Baseline → McpToolInspection → Bool
  has_baseline server_id baselines item =
      elim (get_mcp_tool_baseline server_id item.tool_name baselines) [
        | none ↦ false
        | some b ↦ true
      ]

  unfoldable pub codes_of : List McpToolFinding → Items
  codes_of [] = nil
  codes_of (item ∷ items) = cons (text item.code) (codes_of items)

  unfoldable pub tool_items : List McpToolInspection → Items
  tool_items [] = nil
  tool_items (item ∷ items) =
      cons
        (object (
          field "name" (text item.tool_name) (
            field "digest" (text item.digest) (
              field "status" (text item.status)
                (field "findings" (array (codes_of item.findings)) end)))))
        (tool_items items)

  -- The identifiers and the key are those of the store's audit chain.
  unfoldable pub inspect_manifest :
      (ℕ → String)
      → String
      → String
      → McpManifestInspectionRequest
      → ℕ
      → Seen
      → Seen × McpManifestInspectionResult
  unfolding inspect_tools has_baseline tool_items codes_of
  inspect_manifest uuid audit_key server_id request now seen =
      let (after, results) = inspect_tools server_id request now request.tools seen in
      let safe = all (λ item. not (item.status == "blocked")) results in
      let accepted = safe && all (has_baseline server_id after.baselines) results in
      let payload = field "server_id" (text server_id) (
        field "safe" (boolean safe)
          (field "accepted" (boolean accepted) (field "tools" (array (tool_items results)) end))) in
      (
        record after {
          audit =
              append_audit runtime audit_key (uuid after.drawn) "mcp_manifest_inspected"
                (runtime.dumps (object payload)) now after.audit;
          drawn = after.drawn + 1;
        },
        record {
          server_id = server_id;
          safe = safe;
          accepted = accepted;
          inspected_at = now;
          tools = results;
        },
      )
