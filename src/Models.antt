-- ===== src/Models.antt =====
-- The enumerations and records of src/sentinelgate/models.py that the gateway, the policy engine
-- and the store exchange. A time is a number of microseconds; a frozenset is a list of texts.
use sentinelgate.Prelude.{ℕ, String, Bool, Option, none, some, List, ◌==◌, if◌then◌else◌}
use sentinelgate.Json.{Json, Fields}

pub data Decision : Type 0 where
  allow deny require_approval : Decision

pub data EnforcementMode : Type 0 where
  observe warn enforce : EnforcementMode

pub data TrustLevel : Type 0 where
  trusted mixed untrusted : TrustLevel

pub data DataClassification : Type 0 where
  public_data internal confidential restricted : DataClassification

pub data ContainmentMode : Type 0 where
  monitor restrict quarantine revoke : ContainmentMode

-- The values of the string enumerations.
unfoldable pub decision_value : Decision → String
decision_value allow = "allow"
decision_value deny = "deny"
decision_value require_approval = "require_approval"

-- `Decision(value)`; `none` is the `ValueError`
unfoldable pub parse_decision : String → Option Decision
parse_decision s =
    if s == "allow"
    then some allow
    else if s == "deny"
    then some deny
    else if s == "require_approval"
    then some require_approval
    else none

unfoldable pub classification_value : DataClassification → String
classification_value public_data = "public"
classification_value internal = "internal"
classification_value confidential = "confidential"
classification_value restricted = "restricted"

-- `DataClassification(value)`
unfoldable pub parse_classification : String → Option DataClassification
parse_classification s =
    if s == "public"
    then some public_data
    else if s == "internal"
    then some internal
    else if s == "confidential"
    then some confidential
    else if s == "restricted"
    then some restricted
    else none

unfoldable pub trust_value : TrustLevel → String
trust_value trusted = "trusted"
trust_value mixed = "mixed"
trust_value untrusted = "untrusted"

-- `TrustLevel(value)`
unfoldable pub parse_trust : String → Option TrustLevel
parse_trust s =
    if s == "trusted"
    then some trusted
    else if s == "mixed"
    then some mixed
    else if s == "untrusted"
    then some untrusted
    else none

unfoldable pub mode_value : ContainmentMode → String
mode_value monitor = "monitor"
mode_value restrict = "restrict"
mode_value quarantine = "quarantine"
mode_value revoke = "revoke"

unfoldable pub mode_upper : ContainmentMode → String
mode_upper monitor = "MONITOR"
mode_upper restrict = "RESTRICT"
mode_upper quarantine = "QUARANTINE"
mode_upper revoke = "REVOKE"

pub record AgentPrincipal : Type 0 where
  pub agent_id : String
  pub tenant_id : String
  pub scopes : List String
  pub token_id : String
  pub expires_at : ℕ

pub record FieldTaint : Type 0 where
  pub content_digest : String
  pub trust : TrustLevel
  pub classification : DataClassification
  pub labels : List String
  pub lineage_ids : List String

pub record FieldProvenanceReference : Type 0 where
  pub token : String
  pub source_pointer : String

pub record VerifiedProvenance : Type 0 where
  pub source_id : String
  pub content_digest : String
  pub trust : TrustLevel
  pub signals : List String
  pub classification : DataClassification
  pub labels : List String
  pub lineage_id : Option String
  pub trace_id : Option String
  pub parent_ids : List String
  pub field_taint : List (String × FieldTaint)

pub record ToolCallRequest : Type 0 where
  pub request_id : String
  pub user_id : String
  pub tool_name : String
  pub arguments : Fields
  pub provenance_tokens : List String
  pub field_provenance : List (String × List FieldProvenanceReference)
  pub purpose : String
  pub trace_id : String
  pub task_id : Option String
  pub mcp_server_id : Option String

pub record SecurityFinding : Type 0 where
  pub code : String
  pub severity : String
  pub path : String
  pub fingerprint : String

-- `policy.Evaluation`
pub record Evaluation : Type 0 where
  pub decision : Decision
  pub reasons : List String
  pub risk : String
  pub policy_version : String

pub record PolicyDecision : Type 0 where
  pub request_id : String
  pub request_hash : String
  pub agent_id : String
  pub tenant_id : String
  pub decision : Decision
  pub reason_codes : List String
  pub risk : String
  pub policy_version : String
  pub security_findings : List SecurityFinding
  pub approval_id : Option String
  pub audit_event_id : String
  pub quarantined : Bool
  pub enforcement_mode : EnforcementMode
  pub enforced : Bool

pub record ExecutionResult : Type 0 where
  pub request_id : String
  pub status : String
  pub decision : Option PolicyDecision
  pub output : Option Json
  pub approval_id : Option String
  pub output_provenance_token : Option String
  pub classification : Option DataClassification
  pub taint_labels : List String
  pub trace_id : Option String
  pub field_taint : List (String × FieldTaint)
