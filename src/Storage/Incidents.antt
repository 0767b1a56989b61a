-- ===== src/Storage/Incidents.antt =====
-- `upsert_incident` and `update_incident` of src/sentinelgate/storage.py over the table `incidents`.
pub mod Severity
use sentinelgate.Prelude.{
  ℕ, suc, ◌+◌, String, Bool, true, false, ◌&&◌, Option, none, some, List, [], ◌∷◌, ◌++◌, ◌==◌, ltb,
  any, first, update, if◌then◌else◌,
}

pub record Incident : Type 0 where
  pub id : String
  pub tenant_id : String
  pub agent_id : String
  pub trace_id : String
  pub severity : String
  pub summary : String
  pub event_count : ℕ
  pub status : String
  pub first_seen : ℕ
  pub last_seen : ℕ

-- `ranks.get(severity, 1)`
unfoldable pub severity_rank : String → ℕ
severity_rank s =
    if s == "low"
    then 0
    else if s == "medium"
    then 1
    else if s == "high"
    then 2
    else if s == "critical"
    then 3
    else 1

abbrev pub is_incident_of : String → String → String → Incident → Bool
is_incident_of tenant_id agent_id trace_id i =
    (i.tenant_id == tenant_id) && (i.agent_id == agent_id) && (i.trace_id == trace_id)

unfoldable pub chosen_severity : String → String → String
unfolding severity_rank
chosen_severity severity old =
    if ltb (severity_rank old) (severity_rank severity) then severity else old

repeated : String → String → ℕ → Incident → Incident
unfolding chosen_severity
repeated severity summary now i = record i {
  severity = chosen_severity severity i.severity;
  summary = summary;
  event_count = i.event_count + 1;
  last_seen = now;
}

unfoldable pub upsert_incident :
    String → String → String → String → String → String → ℕ → List Incident → List Incident × String
unfolding repeated
upsert_incident uuid tenant_id agent_id trace_id severity summary now table =
    elim (first (is_incident_of tenant_id agent_id trace_id) table) [
      | some row ↦ (update (λ i. i.id == row.id) (repeated severity summary now) table, row.id)
      | none ↦ (
        table
            ++ record {
              id = uuid;
              tenant_id = tenant_id;
              agent_id = agent_id;
              trace_id = trace_id;
              severity = severity;
              summary = summary;
              event_count = 1;
              status = "open";
              first_seen = now;
              last_seen = now;
            }
              ∷ [],
        uuid,
      )
    ]

with_status : String → ℕ → Incident → Incident
with_status status now i = record i { status = status; last_seen = now }

-- The row that is returned, and whose change is then audited; `none` if there is no such incident.
unfoldable pub update_incident :
    String → String → ℕ → List Incident → List Incident × Option Incident
unfolding with_status
update_incident incident_id status now table =
    let after = update (λ i. i.id == incident_id) (with_status status now) table in
    (after, first (λ i. i.id == incident_id) after)
