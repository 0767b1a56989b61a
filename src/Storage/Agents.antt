-- ===== src/Storage/Agents.antt =====
-- The agent inventory of src/sentinelgate/storage.py: `register_agent_token`, `token_is_active` and
-- `revoke_agent_tokens` over the tables `agents` and `agent_tokens`.
pub mod Revocation
use mathlib.Core.Option
use sentinelgate.Prelude.{
  ℕ, String, Bool, true, false, ◌&&◌, not, Option, none, some, List, [], ◌∷◌, ◌++◌, ◌==◌, ltb, any,
  first, update, count, sorted_set, if◌then◌else◌,
}
use sentinelgate.Models.{AgentPrincipal}

pub record AgentRow : Type 0 where
  pub tenant_id : String
  pub agent_id : String
  pub owner : String
  pub status : String
  pub scopes : List String
  pub created_at : ℕ
  pub updated_at : ℕ

pub record TokenRow : Type 0 where
  pub token_id : String
  pub tenant_id : String
  pub agent_id : String
  pub expires_at : ℕ
  pub revoked_at : Option ℕ
  pub revoke_reason : Option String

pub record Agents : Type 0 where
  pub agents : List AgentRow
  pub tokens : List TokenRow

abbrev pub is_agent : String → String → AgentRow → Bool
is_agent tenant_id agent_id a = (a.tenant_id == tenant_id) && (a.agent_id == agent_id)

abbrev pub is_none : {A : Type 0} → Option A → Bool
is_none none = true
is_none (some _) = false

registered : AgentPrincipal → String → ℕ → AgentRow → AgentRow
registered principal owner now a = record a {
  owner = owner;
  scopes = sorted_set principal.scopes;
  status = "active";
  updated_at = now;
}

-- The upsert of `agents` and the insert into `agent_tokens` are one transaction: a repeated token
-- identifier raises, and `none` leaves both tables alone.
unfoldable pub register_agent_token : AgentPrincipal → String → ℕ → Agents → Option Agents
unfolding registered
register_agent_token principal owner now s =
    if any (λ t. t.token_id == principal.token_id) s.tokens
    then none
    else some (record {
      agents =
          if any (is_agent principal.tenant_id principal.agent_id) s.agents
          then update (is_agent principal.tenant_id principal.agent_id)
              (registered principal owner now) s.agents
          else s.agents
            ++ record {
              tenant_id = principal.tenant_id;
              agent_id = principal.agent_id;
              owner = owner;
              status = "active";
              scopes = sorted_set principal.scopes;
              created_at = now;
              updated_at = now;
            }
              ∷ [];
      tokens =
          s.tokens
          ++ record {
            token_id = principal.token_id;
            tenant_id = principal.tenant_id;
            agent_id = principal.agent_id;
            expires_at = principal.expires_at;
            revoked_at = none;
            revoke_reason = none;
          }
            ∷ [];
    })

abbrev pub is_token : AgentPrincipal → TokenRow → Bool
is_token principal t =
    (t.token_id == principal.token_id)
    && (t.tenant_id == principal.tenant_id)
    && (t.agent_id == principal.agent_id)

-- the tests on the joined row
unfoldable pub is_usable : ℕ → TokenRow → AgentRow → Bool
is_usable now t a = is_none t.revoked_at && ltb now t.expires_at && (a.status == "active")

unfoldable pub joined : ℕ → Option TokenRow → Option AgentRow → Bool
unfolding is_usable
joined now (some t) (some a) = is_usable now t a
joined now (some t) none = false
joined now none _ = false

unfoldable pub token_is_active : AgentPrincipal → ℕ → Agents → Bool
unfolding joined
token_is_active principal now s =
    joined now (first (is_token principal) s.tokens)
      (first (is_agent principal.tenant_id principal.agent_id) s.agents)

-- `tenant_id=? AND agent_id=? AND revoked_at IS NULL`
unfoldable pub is_live_token : String → String → TokenRow → Bool
is_live_token tenant_id agent_id t =
    (t.tenant_id == tenant_id) && (t.agent_id == agent_id) && is_none t.revoked_at

revoked_token : String → ℕ → TokenRow → TokenRow
revoked_token reason now t = record t { revoked_at = some now; revoke_reason = some reason }

revoked_agent : ℕ → AgentRow → AgentRow
revoked_agent now a = record a { status = "revoked"; updated_at = now }

unfoldable pub revoke_agent_tokens : String → String → String → ℕ → Agents → Agents × ℕ
unfolding is_live_token revoked_token revoked_agent
revoke_agent_tokens tenant_id agent_id reason now s = (
  record {
    agents = update (is_agent tenant_id agent_id) (revoked_agent now) s.agents;
    tokens = update (is_live_token tenant_id agent_id) (revoked_token reason now) s.tokens;
  },
  count (is_live_token tenant_id agent_id) s.tokens,
)
