-- ===== src/Gateway/World.antt =====
-- The state that `GatewayService` of src/sentinelgate/service.py works on: the store's tables, the
-- calls it has made of the executor and of the watch service, the clock and the identifiers drawn;
-- its collaborators and settings; and the store calls that draw an identifier.
use sentinelgate.Prelude.{ℕ, ◌+◌, String, Bool, true, false, Option, none, List, [], ◌∷◌, cat}
use sentinelgate.Json.{Json, Fields, object, text, Items, nil, cons}
use sentinelgate.Models.{
  TrustLevel, DataClassification, EnforcementMode, AgentPrincipal, FieldTaint, VerifiedProvenance,
  ToolCallRequest, SecurityFinding, PolicyDecision, ExecutionResult,
}
use sentinelgate.Runtime.{Runtime}
use sentinelgate.Storage.Approvals.{ApprovalRow}
use sentinelgate.Storage.Executions.{Execution}
use sentinelgate.Storage.Limits.{RateEvent, EgressEvent, Violation}
use sentinelgate.Storage.Containment.{Contained}
use sentinelgate.Storage.Incidents.{Incident}
use sentinelgate.Storage.Outbox.{Job}
use sentinelgate.Storage.Lineage.{LineageRecord, ActionEvent}
use sentinelgate.Storage.Mcp.{Observation}
use sentinelgate.Storage.Audit.{AuditRow, append_audit}
use sentinelgate.Storage.Snapshots.{Snapshot}

-- One call of `executor.execute`, for the request it serves.
pub record Invocation : Type 0 where
  pub request_id : String
  pub tool_name : String
  pub arguments : Fields

pub record World : Type 0 where
  pub approvals : List ApprovalRow
  pub executions : List Execution
  pub rate : List RateEvent
  pub egress : List EgressEvent
  pub violations : List Violation
  pub contained : Contained
  pub incidents : List Incident
  pub outbox : List Job
  pub lineage : List LineageRecord
  pub actions : List ActionEvent
  pub observations : List Observation
  pub audit : List AuditRow
  pub snapshots : List Snapshot
  pub invoked : List Invocation
  -- the calls of the watch service, each by its request and outcome
  pub watched : List (String × String)
  -- what `utc_now` answers during the call
  pub now : ℕ
  -- how many identifiers `uuid4` has given
  pub drawn : ℕ

-- The executor's `ToolResult`.
pub record ToolOutput : Type 0 where
  pub output : Json
  pub trust : TrustLevel
  pub classification : DataClassification
  pub labels : List String
  pub sources : List String

-- What `executor.execute` does: a result, or an error with its text and its class's name.
pub data Executed : Type 0 where
  completed : ToolOutput → Executed
  tool_error : String → String → Executed

-- What `derive_tool_output` answers.
pub record Attestation : Type 0 where
  pub token : String
  pub lineage_id : String
  pub trust : TrustLevel
  pub classification : DataClassification
  pub labels : List String
  pub content_digest : String
  pub field_taint : List (String × FieldTaint)

-- The gateway's collaborators.
pub record Services : Type 0 where
  -- the n-th `uuid4`
  pub uuid : ℕ → String
  -- `security.request_hash`
  pub request_hash : ToolCallRequest → AgentPrincipal → String
  pub scan_secrets : Json → List SecurityFinding
  pub redact : Json → Json
  -- `call.model_dump(mode="json")`
  pub dump_call : ToolCallRequest → Json
  -- `provenance.verify_many` at a time; `none` is a `TokenError`
  pub verify_many : ℕ → List String → String → Option (List VerifiedProvenance)
  -- `provenance.derive_tool_output` of a call, its principal and output, and the parents
  pub derive_tool_output :
      ToolCallRequest → AgentPrincipal → ToolOutput → List VerifiedProvenance → Attestation
  -- `resolve_pointer`; `none` is a `FieldTaintError`
  pub resolve_pointer : Fields → String → Option Json
  pub value_digest : Json → String
  -- `executor.validate` passes
  pub validate : String → Fields → Bool
  pub execute_tool : String → Fields → Executed
  -- `approval_notifier.notify` of an approval's identifier and the reasons
  pub notify : String → List String → Bool
  -- the class of what the watch service raises on this request and outcome, if it does
  pub watch_raises : String → String → Option String

pub record Settings : Type 0 where
  pub enforcement_mode : EnforcementMode
  -- the notifier is present and enabled
  pub notifier_enabled : Bool
  pub durable_notifications : Bool
  pub notification_max_attempts : ℕ
  -- `watch_service is not None`
  pub has_watch : Bool
  pub audit_key : String

-- `mode is EnforcementMode.OBSERVE`
unfoldable pub is_observe : EnforcementMode → Bool
is_observe EnforcementMode.observe = true
is_observe _ = false

-- `sep.join(xs)`
unfoldable pub join : String → List String → String
join separator [] = ""
join separator (x ∷ []) = x
join separator (x ∷ y ∷ ys) = cat x (cat separator (join separator (y ∷ ys)))

unfoldable pub texts : List String → Items
texts [] = nil
texts (x ∷ xs) = cons (text x) (texts xs)

-- An `ExecutionResult` with its defaults.
unfoldable pub result_of : String → String → Option PolicyDecision → ExecutionResult
result_of request_id status decision = record {
  request_id = request_id;
  status = status;
  decision = decision;
  output = none;
  approval_id = none;
  output_provenance_token = none;
  classification = none;
  taint_labels = [];
  trace_id = none;
  field_taint = [];
}

-- `store.append_audit` of a payload
unfoldable pub append_event :
    Runtime → Services → Settings → String → Fields → World → World × String
append_event runtime services settings event_type payload w =
    let event_id = services.uuid w.drawn in
    (
      record w {
        audit =
            append_audit runtime settings.audit_key event_id event_type
              (runtime.dumps (object payload)) w.now w.audit;
        drawn = w.drawn + 1;
      },
      event_id,
    )
