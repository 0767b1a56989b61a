-- ===== src/Tests/Storage.antt =====
-- The theorems on the store, applied to small tables.
use sentinelgate.Prelude.{
  ℕ, ◌+◌, ◌-◌, String, true, false, none, some, List, [], ◌∷◌, ◌≡◌, refl, ◌≤◌, ◌<◌, any, first,
  update, count, arith, ltb, if◌then◌else◌,
}
use Prim.Native.String.{count as size}
use sentinelgate.Storage.Approvals.{ApprovalRow, seconds}
use sentinelgate.Storage.Approvals.OneTime.{consume, total_wins, total_wins-le-one}
use sentinelgate.Storage.Executions.Once.{claim, finish, total_claims, total_claims-le-one}
use sentinelgate.Storage.Limits.{
  RateEvent, EgressEvent, is_recent_rate, is_recent_egress, rate_allowed, recent_rate,
  reserve_egress, egress_used, egress_allowed, egress_window,
}
use sentinelgate.Storage.Limits.Rate.{rate_allowed-exact, rate_allowed-WithinLimit}
use sentinelgate.Storage.Limits.Egress.{reserve_egress-exact, reserve_egress-WithinBudget}
use sentinelgate.Storage.Audit.{
  AuditRow, sorted_events, chain_from, audit_digest, genesis, verify_audit_chain,
}
use sentinelgate.Storage.Audit.Chain.{Ascending, Entry, append_all, append_all-verifies}
use sentinelgate.Storage.Audit.Tamper.{signed_texts, verify_audit_chain-commits}
use sentinelgate.Storage.Agents.{Agents, revoke_agent_tokens, token_is_active, is_live_token}
use sentinelgate.Storage.Agents.Revocation.{
  revoke_agent_tokens-inactive, revoke_agent_tokens-others,
}
use sentinelgate.Storage.Containment.{Contained, is_quarantined, quarantine_agent}
use sentinelgate.Storage.Containment.Quarantine.{apply_all, quarantine_agent-blocks}
use sentinelgate.Storage.Outbox.{Job, claim_outbox, has_job_id, is_ready, locked}
use sentinelgate.Storage.Outbox.Lease.{KeysUnique, claim_outbox-leases}
use sentinelgate.Storage.Incidents.{Incident, upsert_incident, is_incident_of, severity_rank}
use sentinelgate.Storage.Incidents.Severity.{upsert_incident-repeated}
use sentinelgate.Tests.Data.{sample_runtime, sample_digest, sample_call, sample_principal}

abbrev sample_approval : ApprovalRow
sample_approval = record {
  id = "approval-1";
  request = sample_call;
  sealed = true;
  request_hash = "hash";
  agent_id = "agent";
  tenant_id = "tenant";
  scopes = [];
  status = "approved";
  created_at = 0;
  expires_at = 9000000;
  resolved_at = some 5;
  reviewer = some "reviewer";
  note = "";
}

total_wins-le-one_example :
    total_wins "approval-1"
      (consume "approval-1" 10 ∷ consume "approval-1" 11 ∷ [])
      (sample_approval ∷ [])
    ≤ 1
total_wins-le-one_example =
    total_wins-le-one "approval-1" (consume "approval-1" 10 ∷ consume "approval-1" 11 ∷ [])
      (sample_approval ∷ [])

total_claims-le-one_example :
    total_claims "request-1"
      (claim "request-1" "hash" 5 ∷ finish "request-1" "failed" 6 ∷ claim "request-1" "hash" 7 ∷ [])
      []
    ≤ 1
total_claims-le-one_example =
    total_claims-le-one "request-1"
      (claim "request-1" "hash" 5 ∷ finish "request-1" "failed" 6 ∷ claim "request-1" "hash" 7 ∷ [])
      []

abbrev one_request : List RateEvent
one_request = record { tenant_id = "tenant"; agent_id = "agent"; created_at = 5 } ∷ []

rate_allowed-exact_example :
    let cutoff = 10 - seconds 60 in
    let before = recent_rate "tenant" "agent" cutoff one_request in
    let (after, accepted) = rate_allowed "tenant" "agent" 2 60 10 one_request in
    (accepted ≡ ltb before 2)
    × (recent_rate "tenant" "agent" cutoff after ≡ (if ltb before 2 then before + 1 else before))
rate_allowed-exact_example = rate_allowed-exact "tenant" "agent" 2 60 10 one_request

one_request-within : recent_rate "tenant" "agent" (5 - seconds 60) one_request ≤ 2
unfolding recent_rate is_recent_rate count
one_request-within = omega arith

rate_allowed-WithinLimit_example :
    recent_rate "tenant" "agent"
      (10 - seconds 60)
      (rate_allowed "tenant" "agent" 2 60 10 one_request).0
    ≤ 2
rate_allowed-WithinLimit_example =
    rate_allowed-WithinLimit "tenant" "agent" 2 60 10 one_request "tenant" "agent" 5 (omega arith)
      one_request-within

abbrev one_egress : List EgressEvent
one_egress = record { tenant_id = "tenant"; agent_id = "agent"; bytes = 40; created_at = 5 } ∷ []

reserve_egress-exact_example :
    let cutoff = 10 - egress_window in
    let (after, granted) = reserve_egress "tenant" "agent" 50 100 10 one_egress in
    (granted ≡ egress_allowed "tenant" "agent" 50 100 10 one_egress)
    × (egress_used "tenant" "agent" cutoff after
        ≡ egress_used "tenant" "agent" cutoff one_egress + (if granted then 50 else 0))
reserve_egress-exact_example = reserve_egress-exact "tenant" "agent" 50 100 10 one_egress

one_egress-within : egress_used "tenant" "agent" (5 - egress_window) one_egress ≤ 100
unfolding egress_used is_recent_egress
one_egress-within = omega arith

reserve_egress-WithinBudget_example :
    egress_used "tenant" "agent"
      (10 - egress_window)
      (reserve_egress "tenant" "agent" 50 80 10 one_egress).0
    ≤ 100
reserve_egress-WithinBudget_example =
    reserve_egress-WithinBudget "tenant" "agent" 50 80 10 one_egress "tenant" "agent" 5 100
      (omega arith) (omega arith) one_egress-within

abbrev no_containment : Contained
no_containment = record {
  containments = [];
  quarantines = [];
  agents = record { agents = []; tokens = [] };
  prefers = λ earlier later. true;
}

quarantine_agent-blocks_example :
    is_quarantined "tenant" "agent" 99999999999
      (apply_all [] (quarantine_agent "id-1" "tenant" "agent" "5 denials" 10 11 no_containment))
    ≡ true
unfolding any
quarantine_agent-blocks_example =
    quarantine_agent-blocks "id-1" "tenant" "agent" "5 denials" 10 11 99999999999 [] no_containment
      refl

abbrev two_entries : List Entry
two_entries =
    record { event_id = "event-1"; event_type = "policy_decision"; canonical = "{}"; now = 10 }
    ∷ record { event_id = "event-2"; event_type = "tool_executed"; canonical = "{}"; now = 7 }
    ∷ []

append_all-verifies_example :
    Ascending (append_all sample_runtime "key" two_entries [])
    × (verify_audit_chain sample_runtime "key" (append_all sample_runtime "key" two_entries [])
        ≡ true)
unfolding verify_audit_chain sorted_events
append_all-verifies_example = append_all-verifies sample_runtime "key" two_entries [] tt refl

-- The first event of a chain.
abbrev first_event : AuditRow
first_event = record {
  id = "event-1";
  created_at = 5;
  event_type = "policy_decision";
  payload = "{}";
  previous_hash = genesis;
  event_hash = sample_digest;
}

first_event-verifies : verify_audit_chain sample_runtime "key" (first_event ∷ []) ≡ true
unfolding verify_audit_chain sorted_events chain_from audit_digest
first_event-verifies = refl

digest_size : (m : String) → size (sample_runtime.hmac_sha256 "key" m) ≡ 64
digest_size m = refl

verify_audit_chain-commits_example :
    signed_texts sample_runtime "key" genesis (sorted_events (first_event ∷ []))
    ≡ signed_texts sample_runtime "key" genesis (sorted_events (first_event ∷ []))
unfolding signed_texts sorted_events
verify_audit_chain-commits_example =
    verify_audit_chain-commits sample_runtime "key" digest_size (first_event ∷ [])
      (first_event ∷ []) first_event-verifies first_event-verifies refl refl (λ e. refl, tt)

abbrev sample_agents : Agents
sample_agents = record {
  agents = [];
  tokens =
      record {
        token_id = "token";
        tenant_id = "tenant";
        agent_id = "agent";
        expires_at = 9000000;
        revoked_at = none;
        revoke_reason = none;
      }
      ∷ [];
}

revoke_agent_tokens-inactive_example :
    (token_is_active sample_principal 20
        (revoke_agent_tokens "tenant" "agent" "compromised" 10 sample_agents).0
      ≡ false)
    × (count
          (is_live_token "tenant" "agent")
          (revoke_agent_tokens "tenant" "agent" "compromised" 10 sample_agents).0.tokens
        ≡ 0)
revoke_agent_tokens-inactive_example =
    revoke_agent_tokens-inactive sample_principal "compromised" 10 20 sample_agents

revoke_agent_tokens-others_example :
    token_is_active sample_principal 20
      (revoke_agent_tokens "tenant" "intruder" "compromised" 10 sample_agents).0
    ≡ token_is_active sample_principal 20 sample_agents
revoke_agent_tokens-others_example =
    revoke_agent_tokens-others sample_principal "tenant" "intruder" "compromised" 10 20
      sample_agents refl

abbrev waiting_job : Job
waiting_job = record {
  id = "job-1";
  kind = "approval.required";
  deduplication_key = "approval-1";
  payload_approval = "approval-1";
  payload_reasons = [];
  status = "pending";
  attempts = 0;
  max_attempts = 8;
  next_attempt_at = 5;
  locked_by = none;
  locked_at = none;
  last_error = none;
  created_at = 5;
  completed_at = none;
}

waiting_job-claimed :
    (claim_outbox "worker-1" 60 10 (waiting_job ∷ [])).1 ≡ some (locked "worker-1" 10 waiting_job)
unfolding claim_outbox first update
waiting_job-claimed = refl

waiting_job_unique : KeysUnique (waiting_job ∷ [])
unfolding first
waiting_job_unique = (refl, tt)

claim_outbox-leases_example :
    (j : Job) × (first (has_job_id j.id) (waiting_job ∷ []) ≡ some j)
    × (is_ready 10 60 j ≡ true)
    × (locked "worker-1" 10 waiting_job ≡ locked "worker-1" 10 j)
    × ((locked "worker-1" 10 waiting_job).attempts
        ≤ (locked "worker-1" 10 waiting_job).max_attempts)
    × ((later : ℕ)
        → later < 10 + seconds 60
        → is_ready later 60 (locked "worker-1" 10 waiting_job) ≡ false)
claim_outbox-leases_example =
    claim_outbox-leases "worker-1" 60 10 (waiting_job ∷ []) (locked "worker-1" 10 waiting_job)
      waiting_job_unique waiting_job-claimed

abbrev open_incident : Incident
open_incident = record {
  id = "incident-1";
  tenant_id = "tenant";
  agent_id = "agent";
  trace_id = "trace-1";
  severity = "high";
  summary = "Blocked send_email: UNKNOWN_TOOL";
  event_count = 1;
  status = "open";
  first_seen = 5;
  last_seen = 5;
}

open_incident-found :
    first (is_incident_of "tenant" "agent" "trace-1") (open_incident ∷ []) ≡ some open_incident
unfolding first
open_incident-found = refl

upsert_incident-repeated_example :
    let (after, id) =
      upsert_incident "id-2" "tenant" "agent" "trace-1" "critical" "Blocked again" 9
        (open_incident ∷ []) in
    (id ≡ "incident-1")
    × (new : Incident) × (first (is_incident_of "tenant" "agent" "trace-1") after ≡ some new)
    × (new.id ≡ "incident-1")
    × (new.event_count ≡ 1 + 1)
    × (new.status ≡ "open")
    × (severity_rank "high" ≤ severity_rank new.severity)
    × (severity_rank "critical" ≤ severity_rank new.severity)
upsert_incident-repeated_example =
    upsert_incident-repeated "id-2" "tenant" "agent" "trace-1" "critical" "Blocked again" 9
      (open_incident ∷ []) open_incident open_incident-found
