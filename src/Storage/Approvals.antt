-- ===== src/Storage/Approvals.antt =====
-- The approvals of src/sentinelgate/storage.py: `create_approval`, `resolve_approval`,
-- `consume_approval` and their queries over the table `approvals_v2`. A row that does not decrypt is
-- `sealed = false`: reading its request raises `StorageIntegrityError`.
pub mod OneTime
use sentinelgate.Prelude.{
  ℕ, ◌+◌, ◌*◌, String, Bool, true, false, not, ◌||◌, Option, none, some, List, [], ◌∷◌, ◌++◌, ◌==◌,
  leb, first, update, sorted_set, if◌then◌else◌,
}
use sentinelgate.Models.{ToolCallRequest, AgentPrincipal}

pub record ApprovalRow : Type 0 where
  pub id : String
  pub request : ToolCallRequest
  pub sealed : Bool
  pub request_hash : String
  pub agent_id : String
  pub tenant_id : String
  pub scopes : List String
  pub status : String
  pub created_at : ℕ
  pub expires_at : ℕ
  pub resolved_at : Option ℕ
  pub reviewer : Option String
  pub note : String

-- A query that reads a request: nothing, a record, or the integrity error.
pub data Fetched : Type 0 where
  missing : Fetched
  found : ApprovalRow → Fetched
  integrity_error : Fetched

-- A time span in seconds as microseconds.
abbrev pub seconds : ℕ → ℕ
seconds n = n * 1000000

unfoldable pub create_approval :
    String
    → ToolCallRequest
    → String
    → AgentPrincipal
    → ℕ
    → ℕ
    → List ApprovalRow
    → List ApprovalRow × ApprovalRow
create_approval uuid request digest principal ttl_seconds now table =
    let row : ApprovalRow = record {
      id = uuid;
      request = request;
      sealed = true;
      request_hash = digest;
      agent_id = principal.agent_id;
      tenant_id = principal.tenant_id;
      scopes = sorted_set principal.scopes;
      status = "pending";
      created_at = now;
      expires_at = now + seconds ttl_seconds;
      resolved_at = none;
      reviewer = none;
      note = "";
    } in
    (table ++ row ∷ [], row)

abbrev pub has_id : String → ApprovalRow → Bool
has_id approval_id row = row.id == approval_id

-- `_approval_from_row`
unfoldable pub approval_from_row : ApprovalRow → Fetched
approval_from_row row = if row.sealed then found row else integrity_error

unfoldable pub approval_from : Option ApprovalRow → Fetched
approval_from none = missing
approval_from (some row) = approval_from_row row

unfoldable pub get_approval : String → List ApprovalRow → Fetched
unfolding approval_from approval_from_row
get_approval approval_id table = approval_from (first (has_id approval_id) table)

-- The guard of `resolve_approval` and `consume_approval`: a row in the wanted state, not yet expired.
unfoldable pub is_open : String → ℕ → ApprovalRow → Bool
is_open status now row = not (not (row.status == status) || leb row.expires_at now)

resolved_row : String → String → String → ℕ → ApprovalRow → ApprovalRow
resolved_row status reviewer note now row = record row {
  status = status;
  resolved_at = some now;
  reviewer = some reviewer;
  note = note;
}

consumed_row : ApprovalRow → ApprovalRow
consumed_row row = record row { status = "consumed" }

-- A guarded update by primary key: without an open row nothing is written. Reading the row back
-- decrypts its request after the write, inside no transaction any more.
unfoldable pub transition :
    String
    → String
    → ℕ
    → (ApprovalRow → ApprovalRow)
    → List ApprovalRow
    → List ApprovalRow × Fetched
unfolding is_open approval_from_row
transition wanted approval_id now write table = elim (first (has_id approval_id) table) [
  | none ↦ (table, missing)
  | some row ↦
      if is_open wanted now row
      then (update (has_id approval_id) write table, approval_from_row (write row))
      else (table, missing)
]

unfoldable pub resolve_approval :
    String → String → String → String → ℕ → List ApprovalRow → List ApprovalRow × Fetched
unfolding transition resolved_row
resolve_approval approval_id status reviewer note now =
    transition "pending" approval_id now (resolved_row status reviewer note now)

unfoldable pub consume_approval : String → ℕ → List ApprovalRow → List ApprovalRow × Fetched
unfolding transition consumed_row
consume_approval approval_id now = transition "approved" approval_id now consumed_row
