-- ===== src/Storage/Agents/Revocation.antt =====
-- `revoke_agent_tokens` and `token_is_active` of storage.py.
use sentinelgate.Prelude.{
  ℕ, String, ◌≡◌, refl, false, ◌&&◌, Option, none, some, List, [], ◌∷◌, arith, ◌==◌, eq_iff, first,
  update, count,
}
use sentinelgate.Models.{AgentPrincipal}
use sentinelgate.Storage.Agents.{
  AgentRow, TokenRow, Agents, is_agent, is_token, joined, token_is_active, is_live_token,
  revoked_token, revoked_agent, revoke_agent_tokens,
}

-- The agent's row, after a revocation, is not active.
first-revoked :
    (tenant_id agent_id : String) (now : ℕ) (agents : List AgentRow) (a : AgentRow)
    → first
        (is_agent tenant_id agent_id)
        (update (is_agent tenant_id agent_id) (revoked_agent now) agents)
      ≡ some a
    → a.status ≡ "revoked"
unfolding first update revoked_agent
first-revoked tenant_id agent_id now [] a h = ground arith
first-revoked tenant_id agent_id now (x ∷ xs) a h =
    ground (arith, first-revoked tenant_id agent_id now xs a)

live-revoked :
    (tenant_id agent_id reason : String) (now : ℕ) (tokens : List TokenRow)
    → count
        (is_live_token tenant_id agent_id)
        (update (is_live_token tenant_id agent_id) (revoked_token reason now) tokens)
      ≡ 0
unfolding count update is_live_token revoked_token
live-revoked tenant_id agent_id reason now [] = refl
live-revoked tenant_id agent_id reason now (t ∷ ts) =
    ground (arith, live-revoked tenant_id agent_id reason now ts)

joined-revoked :
    (later : ℕ) (t : Option TokenRow) (a : Option AgentRow)
    → ((row : AgentRow) → a ≡ some row → row.status ≡ "revoked")
    → joined later t a ≡ false
unfolding joined
joined-revoked later none a h = refl
joined-revoked later (some t) none h = refl
joined-revoked later (some t) (some a) h =
    ground (arith, h a refl, eq_iff a.status "active", eq_iff "revoked" "active")

first-update_others :
    (tenant_id agent_id j k : String) (now : ℕ) (agents : List AgentRow)
    → ((j == tenant_id) && (k == agent_id)) ≡ false
    → first (is_agent j k) (update (is_agent tenant_id agent_id) (revoked_agent now) agents)
      ≡ first (is_agent j k) agents
unfolding first update revoked_agent
first-update_others tenant_id agent_id j k now [] h = refl
first-update_others tenant_id agent_id j k now (a ∷ rest) h = ground (
  arith,
  eq_iff a.tenant_id j,
  eq_iff a.agent_id k,
  eq_iff a.tenant_id tenant_id,
  eq_iff a.agent_id agent_id,
  eq_iff j tenant_id,
  eq_iff k agent_id,
  first-update_others tenant_id agent_id j k now rest h,
)

tokens-update_others :
    (principal : AgentPrincipal) (tenant_id agent_id reason : String) (now : ℕ)
    (tokens : List TokenRow)
    → ((principal.tenant_id == tenant_id) && (principal.agent_id == agent_id)) ≡ false
    → first
        (is_token principal)
        (update (is_live_token tenant_id agent_id) (revoked_token reason now) tokens)
      ≡ first (is_token principal) tokens
unfolding first update is_live_token revoked_token
tokens-update_others principal tenant_id agent_id reason now [] h = refl
tokens-update_others principal tenant_id agent_id reason now (t ∷ ts) h = ground (
  arith,
  eq_iff t.tenant_id principal.tenant_id,
  eq_iff t.agent_id principal.agent_id,
  eq_iff t.tenant_id tenant_id,
  eq_iff t.agent_id agent_id,
  eq_iff principal.tenant_id tenant_id,
  eq_iff principal.agent_id agent_id,
  tokens-update_others principal tenant_id agent_id reason now ts h,
)

-- After a revocation every token of the agent is inactive, at every time, also those that are not
-- recorded, and no live token is left to revoke.
pub revoke_agent_tokens-inactive :
    (principal : AgentPrincipal) (reason : String) (now later : ℕ) (s : Agents)
    → let after = (revoke_agent_tokens principal.tenant_id principal.agent_id reason now s).0 in
      (token_is_active principal later after ≡ false)
      × (count (is_live_token principal.tenant_id principal.agent_id) after.tokens ≡ 0)
revoke_agent_tokens-inactive principal reason now later s = (
  unfold token_is_active revoke_agent_tokens in
      joined-revoked later _ _ (first-revoked principal.tenant_id principal.agent_id now s.agents),
  unfold revoke_agent_tokens in
      live-revoked principal.tenant_id principal.agent_id reason now s.tokens,
)

-- A revocation of one agent does not change whether another agent's token is active.
pub revoke_agent_tokens-others :
    (principal : AgentPrincipal) (tenant_id agent_id reason : String) (now later : ℕ) (s : Agents)
    → ((principal.tenant_id == tenant_id) && (principal.agent_id == agent_id)) ≡ false
    → token_is_active principal later (revoke_agent_tokens tenant_id agent_id reason now s).0
      ≡ token_is_active principal later s
revoke_agent_tokens-others principal tenant_id agent_id reason now later s h =
    unfold token_is_active revoke_agent_tokens in
    rw (
      first-update_others tenant_id agent_id principal.tenant_id principal.agent_id now s.agents h,
      tokens-update_others principal tenant_id agent_id reason now s.tokens h,
    )
