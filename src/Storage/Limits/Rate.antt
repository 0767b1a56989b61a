-- ===== src/Storage/Limits/Rate.antt =====
-- `rate_allowed` of storage.py and the requests in its window.
use sentinelgate.Prelude.{
  ℕ, ◌+◌, ◌-◌, ◌≤◌, String, ◌≡◌, refl, ◌&&◌, List, [], ◌∷◌, ◌++◌, arith, ◌==◌, eq_iff, eq_self, ltb,
  select, count, count-append, if◌then◌else◌,
}
use sentinelgate.Storage.Approvals.{seconds}
use sentinelgate.Storage.Limits.{RateEvent, is_recent_rate, recent_rate, kept_rate, rate_allowed}

-- Deleting what is older than the cutoff deletes nothing that counts.
recent-kept :
    (tenant_id agent_id : String) (cutoff : ℕ) (table : List RateEvent)
    → recent_rate tenant_id agent_id cutoff (kept_rate cutoff table)
      ≡ recent_rate tenant_id agent_id cutoff table
unfolding recent_rate kept_rate count select is_recent_rate
recent-kept tenant_id agent_id cutoff [] = refl
recent-kept tenant_id agent_id cutoff (e ∷ es) =
    ground (arith, recent-kept tenant_id agent_id cutoff es)

-- A later window holds no more of the same events, also after a deletion.
recent-later :
    (tenant_id agent_id : String) (c cutoff later : ℕ) (table : List RateEvent)
    → cutoff ≤ later
    → recent_rate tenant_id agent_id later (kept_rate c table)
      ≤ recent_rate tenant_id agent_id cutoff table
unfolding recent_rate kept_rate count select is_recent_rate
recent-later tenant_id agent_id c cutoff later [] h = omega arith
recent-later tenant_id agent_id c cutoff later (e ∷ es) h =
    ground (arith, recent-later tenant_id agent_id c cutoff later es h)

recent-append :
    (tenant_id agent_id : String) (cutoff : ℕ) (xs ys : List RateEvent)
    → recent_rate tenant_id agent_id cutoff (xs ++ ys)
      ≡ recent_rate tenant_id agent_id cutoff xs + recent_rate tenant_id agent_id cutoff ys
unfolding recent_rate
recent-append tenant_id agent_id cutoff = count-append (is_recent_rate tenant_id agent_id cutoff)

recent-one :
    (tenant_id agent_id other_tenant other_agent : String) (cutoff now : ℕ)
    → cutoff ≤ now
    → recent_rate tenant_id agent_id cutoff
        (record { tenant_id = other_tenant; agent_id = other_agent; created_at = now } ∷ [])
      ≡ (if (other_tenant == tenant_id) && (other_agent == agent_id) then 1 else 0)
unfolding recent_rate count is_recent_rate
recent-one tenant_id agent_id other_tenant other_agent cutoff now h = ground arith

module _ (tenant_id agent_id : String) (limit window_seconds now : ℕ) (table : List RateEvent) where
  -- A request is accepted exactly when fewer than `limit` accepted requests of the agent lie in the
  -- window, and then it is the only one that is added to them.
  pub rate_allowed-exact :
      let cutoff = now - seconds window_seconds in
      let before = recent_rate tenant_id agent_id cutoff table in
      let (after, accepted) = rate_allowed tenant_id agent_id limit window_seconds now table in
      (accepted ≡ ltb before limit)
      × (recent_rate tenant_id agent_id cutoff after
          ≡ (if ltb before limit then before + 1 else before))
  unfolding rate_allowed
  rate_allowed-exact =
      let cutoff = now - seconds window_seconds in
      let kept = kept_rate cutoff table in
      let e = recent-kept tenant_id agent_id cutoff table in
      (
        ground (arith, e),
        ground (
          arith,
          e,
          recent-append tenant_id agent_id cutoff kept
              (record { tenant_id = tenant_id; agent_id = agent_id; created_at = now } ∷ []),
          recent-one tenant_id agent_id tenant_id agent_id cutoff now (omega arith),
          eq_self tenant_id,
          eq_self agent_id,
        ),
      )

  -- The bound on an agent's window is kept by a request of any agent at any later time: once an agent
  -- has at most `limit` accepted requests in its window, it has so after every further request.
  pub rate_allowed-WithinLimit :
      (tenant agent : String) (past : ℕ)
      → past ≤ now
      → recent_rate tenant agent (past - seconds window_seconds) table ≤ limit
      → recent_rate tenant agent
          (now - seconds window_seconds)
          (rate_allowed tenant_id agent_id limit window_seconds now table).0
        ≤ limit
  unfolding rate_allowed
  rate_allowed-WithinLimit tenant agent past order bound =
      let cutoff = now - seconds window_seconds in
      let kept = kept_rate cutoff table in
      let later : (past - seconds window_seconds) ≤ cutoff = omega arith in
      ground (
        arith,
        recent-kept tenant_id agent_id cutoff table,
        recent-later tenant agent cutoff (past - seconds window_seconds) cutoff table later,
        recent-kept tenant agent cutoff table,
        recent-append tenant agent cutoff kept
            (record { tenant_id = tenant_id; agent_id = agent_id; created_at = now } ∷ []),
        recent-one tenant agent tenant_id agent_id cutoff now (omega arith),
        eq_iff tenant_id tenant,
        eq_iff agent_id agent,
      )
