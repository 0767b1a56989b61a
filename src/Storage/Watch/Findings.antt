-- ===== src/Storage/Watch/Findings.antt =====
-- The findings of the watch service in src/sentinelgate/storage.py: `upsert_watch_finding`,
-- `update_watch_finding` and `watch_summary`.
use sentinelgate.Prelude.{
  ℕ, ◌+◌, String, Bool, ◌&&◌, ◌||◌, Option, none, some, List, [], ◌∷◌, ◌++◌, ◌==◌, any, first,
  select, update, count, if◌then◌else◌,
}
use sentinelgate.Storage.Watch.{WatchTask, WatchEvent, matches}

pub record WatchFinding : Type 0 where
  pub id : String
  pub tenant_id : String
  pub agent_id : String
  pub task_id : String
  pub code : String
  pub severity : String
  -- in hundredths
  pub confidence : ℕ
  pub summary : String
  pub evidence : List String
  pub recommended_action : String
  pub status : String
  pub occurrences : ℕ
  pub first_seen : ℕ
  pub last_seen : ℕ
  pub resolved_at : Option ℕ
  pub reviewer : Option String
  pub note : String

unfoldable pub is_finding : String → WatchFinding → Bool
is_finding finding_id f = f.id == finding_id

unfoldable pub observed_again : WatchFinding → ℕ → WatchFinding → WatchFinding
observed_again finding now f = record f {
  severity = finding.severity;
  confidence = finding.confidence;
  summary = finding.summary;
  evidence = finding.evidence;
  recommended_action = finding.recommended_action;
  status = "open";
  occurrences = f.occurrences + 1;
  last_seen = now;
  resolved_at = none;
}

-- The table, and the row read back.
unfoldable pub upsert_watch_finding :
    WatchFinding → ℕ → List WatchFinding → List WatchFinding × Option WatchFinding
unfolding is_finding observed_again
upsert_watch_finding finding now table =
    let after : List WatchFinding =
      if any (is_finding finding.id) table
      then update (is_finding finding.id) (observed_again finding now) table
      else table
        ++ record finding {
          status = "open";
          occurrences = 1;
          last_seen = now;
          resolved_at = none;
          reviewer = none;
          note = "";
        }
          ∷ [] in
    (after, first (is_finding finding.id) after)

unfoldable pub update_watch_finding :
    String
    → String
    → String
    → String
    → ℕ
    → List WatchFinding
    → List WatchFinding × Option WatchFinding
unfolding is_finding
update_watch_finding finding_id status note reviewer now table =
    let resolved : Option ℕ = if status == "resolved" then some now else none in
    let after : List WatchFinding =
      update (is_finding finding_id)
        (λ f. record f {
          status = status;
          resolved_at = resolved;
          reviewer = some reviewer;
          note = note;
        })
        table in
    (after, first (is_finding finding_id) after)

pub record WatchSummary : Type 0 where
  pub active_tasks : ℕ
  pub open_findings : ℕ
  pub high_risk_findings : ℕ
  pub monitored_events : ℕ
  pub estimated_cost_usd : ℕ

total_cost : List WatchTask → ℕ
total_cost [] = 0
total_cost (t ∷ ts) = t.estimated_cost_usd + total_cost ts

unfoldable pub watch_summary :
    Option String → List WatchTask → List WatchFinding → List WatchEvent → WatchSummary
unfolding matches total_cost
watch_summary tenant_id tasks findings events = record {
  active_tasks = count (λ t. (t.status == "active") && matches tenant_id t.tenant_id) tasks;
  open_findings = count (λ f. (f.status == "open") && matches tenant_id f.tenant_id) findings;
  high_risk_findings =
      count
        (λ f.
          (f.status == "open")
          && ((f.severity == "high") || (f.severity == "critical"))
          && matches tenant_id f.tenant_id)
        findings;
  monitored_events = count (λ e. matches tenant_id e.tenant_id) events;
  estimated_cost_usd = total_cost (select (λ t. matches tenant_id t.tenant_id) tasks);
}
