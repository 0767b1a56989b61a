-- ===== src/Storage/Limits.antt =====
-- The sliding windows of src/sentinelgate/storage.py: `rate_allowed` over `rate_events`,
-- `reserve_egress` and `egress_allowed` over `egress_events`, `record_violation` over `violations`.
-- A transaction that returns False commits what it has deleted.
pub mod Rate
pub mod Egress
use sentinelgate.Prelude.{
  ℕ, suc, ◌+◌, ◌-◌, ◌*◌, String, Bool, true, false, not, ◌&&◌, ◌||◌, List, [], ◌∷◌, ◌++◌, ◌==◌, leb,
  ltb, select, count, if◌then◌else◌,
}
use sentinelgate.Storage.Approvals.{seconds}

pub record RateEvent : Type 0 where
  pub tenant_id : String
  pub agent_id : String
  pub created_at : ℕ

pub record EgressEvent : Type 0 where
  pub tenant_id : String
  pub agent_id : String
  pub bytes : ℕ
  pub created_at : ℕ

pub record Violation : Type 0 where
  pub tenant_id : String
  pub agent_id : String
  pub severity : String
  pub reason : String
  pub created_at : ℕ

-- `WHERE tenant_id=? AND agent_id=? AND created_at>=?`
unfoldable pub is_recent_rate : String → String → ℕ → RateEvent → Bool
is_recent_rate tenant_id agent_id cutoff e =
    (e.tenant_id == tenant_id) && (e.agent_id == agent_id) && leb cutoff e.created_at

unfoldable pub recent_rate : String → String → ℕ → List RateEvent → ℕ
recent_rate tenant_id agent_id cutoff = count (is_recent_rate tenant_id agent_id cutoff)

unfoldable pub kept_rate : ℕ → List RateEvent → List RateEvent
kept_rate cutoff = select (λ e. not (ltb e.created_at cutoff))

unfoldable pub rate_allowed : String → String → ℕ → ℕ → ℕ → List RateEvent → List RateEvent × Bool
rate_allowed tenant_id agent_id limit window_seconds now table =
    let cutoff = now - seconds window_seconds in
    let kept = kept_rate cutoff table in
    if leb limit (recent_rate tenant_id agent_id cutoff kept) then (kept, false) else (
      kept ++ record { tenant_id = tenant_id; agent_id = agent_id; created_at = now } ∷ [],
      true,
    )

unfoldable pub is_recent_egress : String → String → ℕ → EgressEvent → Bool
is_recent_egress tenant_id agent_id cutoff e =
    (e.tenant_id == tenant_id) && (e.agent_id == agent_id) && leb cutoff e.created_at

-- `COALESCE(SUM(bytes),0)`
unfoldable pub egress_used : String → String → ℕ → List EgressEvent → ℕ
unfolding is_recent_egress
egress_used tenant_id agent_id cutoff [] = 0
egress_used tenant_id agent_id cutoff (e ∷ es) =
    (if is_recent_egress tenant_id agent_id cutoff e then e.bytes else 0)
    + egress_used tenant_id agent_id cutoff es

-- one hour
abbrev pub egress_window : ℕ
egress_window = 3600000000

unfoldable pub kept_egress : ℕ → List EgressEvent → List EgressEvent
kept_egress cutoff = select (λ e. not (ltb e.created_at cutoff))

unfoldable pub reserve_egress :
    String → String → ℕ → ℕ → ℕ → List EgressEvent → List EgressEvent × Bool
reserve_egress tenant_id agent_id amount hourly_limit now table =
    let cutoff = now - egress_window in
    let kept = kept_egress cutoff table in
    if ltb hourly_limit (egress_used tenant_id agent_id cutoff kept + amount)
    then (kept, false)
    else (
      kept
          ++ record { tenant_id = tenant_id; agent_id = agent_id; bytes = amount; created_at = now }
            ∷ [],
      true,
    )

unfoldable pub egress_allowed : String → String → ℕ → ℕ → ℕ → List EgressEvent → Bool
egress_allowed tenant_id agent_id amount hourly_limit now table =
    leb (egress_used tenant_id agent_id (now - egress_window) table + amount) hourly_limit

-- `severity IN ('high','critical')` in the window
unfoldable pub is_recent_violation : String → String → ℕ → Violation → Bool
is_recent_violation tenant_id agent_id cutoff v =
    (v.tenant_id == tenant_id)
    && (v.agent_id == agent_id)
    && leb cutoff v.created_at
    && ((v.severity == "high") || (v.severity == "critical"))

unfoldable pub record_violation :
    String → String → String → String → ℕ → ℕ → List Violation → List Violation × ℕ
unfolding is_recent_violation
record_violation tenant_id agent_id severity reason window_seconds now table =
    let after =
      table
      ++ record {
        tenant_id = tenant_id;
        agent_id = agent_id;
        severity = severity;
        reason = reason;
        created_at = now;
      }
        ∷ [] in
    (after, count (is_recent_violation tenant_id agent_id (now - seconds window_seconds)) after)
