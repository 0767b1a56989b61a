-- ===== src/Security.antt =====
-- src/sentinelgate/security.py: `canonical_json`, `request_hash`, `fingerprint`, `scan_secrets`,
-- `injection_signals` and `redact`.
pub mod Redacted
use sentinelgate.Prelude.{
  ℕ, zero, suc, ◌+◌, String, Bool, true, false, ◌&&◌, not, List, [], ◌∷◌, ◌++◌, ◌==◌, map, cat,
  select, sorted_set, if◌then◌else◌,
}
use sentinelgate.Json.{
  Json, Items, Fields, nil, cons, end, field, null, boolean, number, text, array, object,
}
use sentinelgate.Models.{AgentPrincipal, ToolCallRequest, SecurityFinding}
use sentinelgate.Runtime.{Runtime}

-- The codes of `SECRET_PATTERNS`.
abbrev pub secret_patterns : List String
secret_patterns =
    "PRIVATE_KEY" ∷ "OPENAI_KEY" ∷ "GITHUB_TOKEN" ∷ "AWS_ACCESS_KEY" ∷ "BEARER_TOKEN" ∷ []

-- The codes of `INJECTION_PATTERNS`.
abbrev pub injection_patterns : List String
injection_patterns =
    "IGNORE_INSTRUCTIONS" ∷ "SYSTEM_PROMPT_REQUEST" ∷ "SECRET_EXFILTRATION" ∷ "TOOL_OVERRIDE" ∷ []

-- `s[:n]`
unfoldable pub prefix : ℕ → String → String
prefix n String.[] = String.[]
prefix zero (String.◌∷◌ c s) = String.[]
prefix (suc n) (String.◌∷◌ c s) = String.◌∷◌ c (prefix n s)

is_same_finding : SecurityFinding → SecurityFinding → Bool
is_same_finding f g = (f.code == g.code) && (f.path == g.path) && (f.fingerprint == g.fingerprint)

-- One entry of the dict: at the place of the first with its key, the value of the last.
put_finding : SecurityFinding → List SecurityFinding → List SecurityFinding
unfolding is_same_finding
put_finding f [] = f ∷ []
put_finding f (g ∷ gs) = if is_same_finding f g then f ∷ gs else g ∷ put_finding f gs

-- `list(unique.values())`, with the dict so far
unfoldable pub unique_from : List SecurityFinding → List SecurityFinding → List SecurityFinding
unfolding put_finding
unique_from found [] = found
unique_from found (f ∷ fs) = unique_from (put_finding f found) fs

is_filled : Json → Bool
is_filled (text s) = not (s == "")
is_filled _ = false

module _ (runtime : Runtime) where
  unfoldable pub canonical_json : Json → String
  canonical_json value = runtime.dumps_unicode value

  -- The body's `call` is the dumped request.
  unfoldable pub request_hash : (ToolCallRequest → Json) → ToolCallRequest → AgentPrincipal → String
  unfolding canonical_json
  request_hash dump call principal = runtime.sha256 (
      canonical_json (
        object (
          field "agent_id" (text principal.agent_id)
            (field "tenant_id" (text principal.tenant_id) (field "call" (dump call) end)))))

  unfoldable pub fingerprint : String → String
  unfolding prefix
  fingerprint value = prefix 16 (runtime.sha256 value)

  -- The first finding of a field: its name, and a text that is not empty.
  sensitive_field : String → Json → String → List SecurityFinding
  unfolding fingerprint is_filled
  sensitive_field key (text s) path =
      if runtime.secret_key_search key && is_filled (text s)
      then record {
        code = "SENSITIVE_FIELD";
        severity = "high";
        path = path;
        fingerprint = fingerprint s;
      }
        ∷ []
      else []
  sensitive_field key _ path = []

  -- The matches of the patterns in a text.
  pattern_findings : List String → String → String → List SecurityFinding
  unfolding fingerprint
  pattern_findings [] value path = []
  pattern_findings (code ∷ codes) value path =
      map
        (λ found. record {
          code = code;
          severity = "critical";
          path = path;
          fingerprint = fingerprint found;
        })
        (runtime.secret_matches code value)
      ++ pattern_findings codes value path

  -- `scan_secrets`, and its two loops
  unfoldable mutual
    unfolding unique_from sensitive_field pattern_findings

    pub scan_secrets : Json → String → List SecurityFinding
    scan_secrets null path = []
    scan_secrets (boolean b) path = []
    scan_secrets (number n) path = []
    scan_secrets (text s) path = unique_from [] (pattern_findings secret_patterns s path)
    scan_secrets (array xs) path = unique_from [] (scan_items xs 0 path)
    scan_secrets (object d) path = unique_from [] (scan_fields d path)

    pub scan_items : Items → ℕ → String → List SecurityFinding
    scan_items nil index path = []
    scan_items (cons x xs) index path =
        scan_secrets x (cat path (cat "[" (cat (runtime.decimal index) "]")))
        ++ scan_items xs (index + 1) path

    pub scan_fields : Fields → String → List SecurityFinding
    scan_fields end path = []
    scan_fields (field k v d) path =
        let child_path : String = cat path (cat "." k) in
        sensitive_field k v child_path ++ (scan_secrets v child_path ++ scan_fields d path)

  unfoldable pub injection_signals : String → List String
  injection_signals content =
      sorted_set (select (λ code. runtime.injection_search code content) injection_patterns)

  -- The loop over the patterns.
  unfoldable pub sub_all : List String → String → String
  sub_all [] output = output
  sub_all (code ∷ codes) output = sub_all codes (runtime.secret_sub code output)

  unfoldable mutual
    unfolding sub_all

    pub redact : Json → Json
    redact null = null
    redact (boolean b) = boolean b
    redact (number n) = number n
    redact (text s) = text (sub_all secret_patterns s)
    redact (array xs) = array (redact_items xs)
    redact (object d) = object (redact_fields d)

    pub redact_items : Items → Items
    redact_items nil = nil
    redact_items (cons x xs) = cons (redact x) (redact_items xs)

    pub redact_fields : Fields → Fields
    redact_fields end = end
    redact_fields (field k v d) =
        let rest = redact_fields d in
        if runtime.secret_key_search k
        then field k (text "[REDACTED]") rest
        else field k (redact v) rest
