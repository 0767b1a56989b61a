-- ===== src/Storage/Incidents/Severity.antt =====
-- `upsert_incident` of storage.py for a trace that has an incident.
use sentinelgate.Prelude.{
  ℕ, ◌+◌, ◌≤◌, String, ◌≡◌, refl, some, List, arith, ◌==◌, eq_self, first, first-update-some, ◌∙◌,
  update,
}
use sentinelgate.Storage.Incidents.{
  Incident, severity_rank, is_incident_of, chosen_severity, repeated, upsert_incident,
}

pub chosen_severity_ge :
    (severity old : String)
    → (severity_rank old ≤ severity_rank (chosen_severity severity old))
      × (severity_rank severity ≤ severity_rank (chosen_severity severity old))
unfolding chosen_severity
chosen_severity_ge severity old = (ground arith, ground arith)

-- The first row of the trace is the one that the update by identifier reaches.
first-repeated :
    (tenant_id agent_id trace_id severity summary : String) (now : ℕ) (table : List Incident)
    (row : Incident)
    → first (is_incident_of tenant_id agent_id trace_id) table ≡ some row
    → first
        (is_incident_of tenant_id agent_id trace_id)
        (update (λ i. i.id == row.id) (repeated severity summary now) table)
      ≡ some (repeated severity summary now row)
unfolding repeated
first-repeated tenant_id agent_id trace_id severity summary now table row h =
    first-update-some (is_incident_of tenant_id agent_id trace_id) (λ i. i.id == row.id) _ table row
      (λ i. refl) h
    ∙ rw (eq_self row.id)

-- A further event of a trace that has an incident keeps the incident, counts the event, and raises its
-- severity to that of the event if that is greater, and never lowers it.
pub upsert_incident-repeated :
    (uuid tenant_id agent_id trace_id severity summary : String) (now : ℕ) (table : List Incident)
    (row : Incident)
    → first (is_incident_of tenant_id agent_id trace_id) table ≡ some row
    → let (after, id) =
        upsert_incident uuid tenant_id agent_id trace_id severity summary now table in
      (id ≡ row.id)
      × (new : Incident) × (first (is_incident_of tenant_id agent_id trace_id) after ≡ some new)
      × (new.id ≡ row.id)
      × (new.event_count ≡ row.event_count + 1)
      × (new.status ≡ row.status)
      × (severity_rank row.severity ≤ severity_rank new.severity)
      × (severity_rank severity ≤ severity_rank new.severity)
unfolding upsert_incident
upsert_incident-repeated uuid tenant_id agent_id trace_id severity summary now table row e =
    rw (e, upsert_incident)
      (
        refl,
        repeated severity summary now row,
        first-repeated tenant_id agent_id trace_id severity summary now table row e,
        unfold repeated in refl,
        unfold repeated in refl,
        unfold repeated in refl,
        unfold repeated in (chosen_severity_ge severity row.severity).0,
        unfold repeated in (chosen_severity_ge severity row.severity).1,
      )
