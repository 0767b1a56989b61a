-- ===== src/Storage/Limits/Egress.antt =====
-- The bytes that an agent sends in an hour: `reserve_egress` and `egress_allowed` of storage.py.
use sentinelgate.Prelude.{
  ℕ, ◌+◌, ◌-◌, ◌≤◌, String, ◌≡◌, refl, ◌&&◌, List, [], ◌∷◌, ◌++◌, arith, ◌==◌, eq_iff, eq_self,
  select, if◌then◌else◌,
}
use sentinelgate.Storage.Limits.{
  EgressEvent, egress_used, egress_window, kept_egress, reserve_egress, egress_allowed,
}

used-kept :
    (tenant_id agent_id : String) (cutoff : ℕ) (table : List EgressEvent)
    → egress_used tenant_id agent_id cutoff (kept_egress cutoff table)
      ≡ egress_used tenant_id agent_id cutoff table
unfolding egress_used kept_egress select
used-kept tenant_id agent_id cutoff [] = refl
used-kept tenant_id agent_id cutoff (e ∷ es) =
    ground (arith, used-kept tenant_id agent_id cutoff es)

-- A later window holds no more of the same bytes, also after a deletion.
used-later :
    (tenant_id agent_id : String) (c cutoff later : ℕ) (table : List EgressEvent)
    → cutoff ≤ later
    → egress_used tenant_id agent_id later (kept_egress c table)
      ≤ egress_used tenant_id agent_id cutoff table
unfolding egress_used kept_egress select
used-later tenant_id agent_id c cutoff later [] h = omega arith
used-later tenant_id agent_id c cutoff later (e ∷ es) h =
    ground (arith, used-later tenant_id agent_id c cutoff later es h)

used-append :
    (tenant_id agent_id : String) (cutoff : ℕ) (xs ys : List EgressEvent)
    → egress_used tenant_id agent_id cutoff (xs ++ ys)
      ≡ egress_used tenant_id agent_id cutoff xs + egress_used tenant_id agent_id cutoff ys
unfolding egress_used
used-append tenant_id agent_id cutoff [] ys = omega arith
used-append tenant_id agent_id cutoff (e ∷ es) ys =
    omega (arith, used-append tenant_id agent_id cutoff es ys)

used-one :
    (tenant_id agent_id other_tenant other_agent : String) (cutoff bytes now : ℕ)
    → cutoff ≤ now
    → egress_used tenant_id agent_id cutoff (
        record { tenant_id = other_tenant; agent_id = other_agent; bytes = bytes; created_at = now }
        ∷ [])
      ≡ (if (other_tenant == tenant_id) && (other_agent == agent_id) then bytes else 0)
unfolding egress_used
used-one tenant_id agent_id other_tenant other_agent cutoff bytes now h = ground arith

module _ (tenant_id agent_id : String) (amount hourly_limit now : ℕ)
    (table : List EgressEvent) where
  -- The check before a decision answers as the reservation at the same time does, and a reservation
  -- adds exactly its bytes to the agent's hour when it is granted and nothing otherwise.
  pub reserve_egress-exact :
      let cutoff = now - egress_window in
      let (after, granted) = reserve_egress tenant_id agent_id amount hourly_limit now table in
      (granted ≡ egress_allowed tenant_id agent_id amount hourly_limit now table)
      × (egress_used tenant_id agent_id cutoff after
          ≡ egress_used tenant_id agent_id cutoff table + (if granted then amount else 0))
  unfolding reserve_egress egress_allowed
  reserve_egress-exact =
      let cutoff = now - egress_window in
      let e = used-kept tenant_id agent_id cutoff table in
      (
        ground (arith, e),
        ground (
          arith,
          e,
          used-append tenant_id agent_id cutoff (kept_egress cutoff table) (
              record {
                tenant_id = tenant_id;
                agent_id = agent_id;
                bytes = amount;
                created_at = now;
              }
              ∷ []),
          used-one tenant_id agent_id tenant_id agent_id cutoff amount now (omega arith),
          eq_self tenant_id,
          eq_self agent_id,
        ),
      )

  -- Budgets are set tool by tool. A bound that no tool's budget passes is a bound on the bytes of every
  -- agent's hour: if an hour that ends no later than now stays within it, so does the hour that ends
  -- now after a reservation of any agent under any budget up to the bound, granted or not.
  pub reserve_egress-WithinBudget :
      (tenant agent : String) (past bound : ℕ)
      → past ≤ now
      → hourly_limit ≤ bound
      → egress_used tenant agent (past - egress_window) table ≤ bound
      → egress_used tenant agent
          (now - egress_window)
          (reserve_egress tenant_id agent_id amount hourly_limit now table).0
        ≤ bound
  unfolding reserve_egress
  reserve_egress-WithinBudget tenant agent past bound order within held =
      let cutoff = now - egress_window in
      let later : (past - egress_window) ≤ cutoff = omega arith in
      ground (
        arith,
        used-kept tenant_id agent_id cutoff table,
        used-kept tenant agent cutoff table,
        used-later tenant agent cutoff (past - egress_window) cutoff table later,
        used-append tenant agent cutoff (kept_egress cutoff table) (
            record { tenant_id = tenant_id; agent_id = agent_id; bytes = amount; created_at = now }
            ∷ []),
        used-one tenant agent tenant_id agent_id cutoff amount now (omega arith),
        eq_iff tenant_id tenant,
        eq_iff agent_id agent,
      )
