-- ===== src/Storage/Lineage.antt =====
-- The lineage and the actions of src/sentinelgate/storage.py: `record_lineage`, `list_lineage`,
-- `recent_agent_lineage`, `trace_summary` over `lineage_events`; `record_action` and
-- `trace_has_category` over `action_events`.
pub mod Monotone
use Prim.Native.Nat.{compare as compare_times, Ordering}
use Prim.Native.String.{compare}
use sentinelgate.Prelude.{
  ℕ, ◌-◌, String, Bool, true, false, ◌&&◌, Option, none, some, List, [], ◌∷◌, ◌++◌, ◌==◌, leb, ltb,
  map, gather, get_or, length, any, select, sorted_set, if◌then◌else◌,
}
use sentinelgate.Models.{TrustLevel, DataClassification, FieldTaint}
use sentinelgate.Taint.{highest_classification, least_trusted}
use sentinelgate.Storage.Approvals.{seconds}

pub record LineageRecord : Type 0 where
  pub id : String
  pub tenant_id : String
  pub agent_id : String
  pub trace_id : String
  pub request_id : Option String
  pub parent_ids : List String
  pub source_type : String
  pub source_id : String
  pub destination : String
  pub trust : TrustLevel
  pub classification : DataClassification
  pub labels : List String
  pub content_digest : String
  pub created_at : ℕ
  pub field_taint : List (String × FieldTaint)

pub record TraceSummary : Type 0 where
  pub tenant_id : String
  pub agent_id : String
  pub trace_id : String
  pub trust : TrustLevel
  pub classification : DataClassification
  pub labels : List String
  pub node_count : ℕ
  pub last_seen : ℕ

-- The labels are stored sorted; a repeated identifier changes nothing.
unfoldable pub record_lineage : LineageRecord → List LineageRecord → List LineageRecord
record_lineage r table =
    if any (λ x. x.id == r.id) table
    then table
    else table ++ record r { labels = sorted_set r.labels } ∷ []

lineage_before : LineageRecord → LineageRecord → Bool
lineage_before a b = elim (compare_times a.created_at b.created_at) [
  | Ordering.lt ↦ true
  | Ordering.eq ↦ elim (compare a.id b.id) [ Ordering.lt ↦ true | _ ↦ false ]
  | Ordering.gt ↦ false
]

insert_lineage : LineageRecord → List LineageRecord → List LineageRecord
unfolding lineage_before
insert_lineage x [] = x ∷ []
insert_lineage x (y ∷ ys) = if lineage_before y x then y ∷ insert_lineage x ys else x ∷ y ∷ ys

-- `ORDER BY created_at, id`
unfoldable pub sorted_lineage : List LineageRecord → List LineageRecord
unfolding insert_lineage
sorted_lineage [] = []
sorted_lineage (x ∷ xs) = insert_lineage x (sorted_lineage xs)

-- `_lineage_from_row` of a row of SQLite: `"field_taint_json" in row` asks the values of the row and
-- not its columns. The columns that hold JSON, a level or a time never have this value.
unfoldable pub lineage_from_row : LineageRecord → LineageRecord
lineage_from_row r = record r {
  field_taint =
      if any (λ v. v == "field_taint_json")
        (r.id
          ∷ r.tenant_id
          ∷ r.agent_id
          ∷ r.trace_id
          ∷ get_or r.request_id ""
          ∷ r.source_type
          ∷ r.source_id
          ∷ r.destination
          ∷ r.content_digest
          ∷ [])
      then r.field_taint
      else [];
}

unfoldable pub recent_agent_lineage :
    String → String → ℕ → ℕ → List LineageRecord → List LineageRecord
unfolding sorted_lineage lineage_from_row
recent_agent_lineage tenant_id agent_id window_seconds now table = map lineage_from_row (
    sorted_lineage (
      select
        (λ r.
          (r.tenant_id == tenant_id)
          && (r.agent_id == agent_id)
          && leb (now - seconds window_seconds) r.created_at)
        table))

-- `list_lineage(trace_id, tenant_id)` with a tenant that is not empty
unfoldable pub list_lineage : String → String → List LineageRecord → List LineageRecord
unfolding sorted_lineage lineage_from_row
list_lineage trace_id tenant_id table =
    map lineage_from_row
      (sorted_lineage (select (λ r. (r.trace_id == trace_id) && (r.tenant_id == tenant_id)) table))

latest : ℕ → List LineageRecord → ℕ
latest best [] = best
latest best (r ∷ rs) = latest (if ltb best r.created_at then r.created_at else best) rs

-- `_summarize_trace`, of at least one record
unfoldable pub summarize_trace : LineageRecord → List LineageRecord → TraceSummary
unfolding latest
summarize_trace r rs = record {
  tenant_id = r.tenant_id;
  agent_id = r.agent_id;
  trace_id = r.trace_id;
  trust = least_trusted (map (λ x. x.trust) (r ∷ rs));
  classification = highest_classification (map (λ x. x.classification) (r ∷ rs));
  labels = sorted_set (gather (λ x. x.labels) (r ∷ rs));
  node_count = length (r ∷ rs);
  last_seen = latest r.created_at rs;
}

unfoldable pub summary_of : List LineageRecord → Option TraceSummary
unfolding summarize_trace
summary_of [] = none
summary_of (r ∷ rs) = some (summarize_trace r rs)

unfoldable pub trace_summary : String → String → String → List LineageRecord → Option TraceSummary
unfolding summary_of
trace_summary tenant_id agent_id trace_id table =
    summary_of (select (λ r. r.agent_id == agent_id) (list_lineage trace_id tenant_id table))

pub record ActionEvent : Type 0 where
  pub tenant_id : String
  pub agent_id : String
  pub trace_id : String
  pub tool_name : String
  pub category : String
  pub decision : String
  pub created_at : ℕ

unfoldable pub record_action :
    String → String → String → String → String → String → ℕ → List ActionEvent → List ActionEvent
record_action tenant_id agent_id trace_id tool_name category decision now table =
    table
    ++ record {
      tenant_id = tenant_id;
      agent_id = agent_id;
      trace_id = trace_id;
      tool_name = tool_name;
      category = category;
      decision = decision;
      created_at = now;
    }
      ∷ []

unfoldable pub trace_has_category :
    String → String → String → String → ℕ → ℕ → List ActionEvent → Bool
trace_has_category tenant_id agent_id trace_id category window_seconds now = any (λ a.
    (a.tenant_id == tenant_id)
    && (a.agent_id == agent_id)
    && (a.trace_id == trace_id)
    && (a.category == category)
    && leb (now - seconds window_seconds) a.created_at)
