-- ===== src/Storage/Containment.antt =====
-- Containment in src/sentinelgate/storage.py: `contain_agent`, `active_containment`,
-- `release_containment`, `quarantine`, `is_quarantined` and `release_agent` over the tables
-- `containments`, `quarantines` and, for a revocation, the agents' tables.
pub mod Quarantine
use sentinelgate.Prelude.{
  ℕ, ◌+◌, String, Bool, true, false, ◌&&◌, ◌||◌, not, Option, none, some, List, [], ◌∷◌, ◌++◌, ◌==◌,
  leb, ltb, any, select, update, count, newest, sorted_set, if◌then◌else◌,
}
use sentinelgate.Models.{ContainmentMode, monitor, restrict, quarantine, revoke}
use sentinelgate.Storage.Approvals.{seconds}
use sentinelgate.Storage.Agents.{Agents, is_none, revoke_agent_tokens}

pub record ContainmentRow : Type 0 where
  pub id : String
  pub tenant_id : String
  pub agent_id : String
  pub mode : ContainmentMode
  pub reason : String
  pub reviewer : String
  pub allowed_tools : List String
  pub incident_id : Option String
  pub created_at : ℕ
  pub expires_at : ℕ
  pub released_at : Option ℕ

pub record QuarantineRow : Type 0 where
  pub tenant_id : String
  pub agent_id : String
  pub reason : String
  pub created_at : ℕ
  pub released_at : Option ℕ
  pub reviewer : Option String
  pub note : String

pub record Contained : Type 0 where
  pub containments : List ContainmentRow
  pub quarantines : List QuarantineRow
  pub agents : Agents
  -- which of two containments of one time a query answers first, the one written earlier or the
  -- later: the SQL leaves it to the database
  pub prefers : ContainmentRow → ContainmentRow → Bool

-- `released_at IS NULL AND expires_at>?`
unfoldable pub is_active : ℕ → ContainmentRow → Bool
is_active now c = is_none c.released_at && ltb now c.expires_at

unfoldable pub is_active_for : String → String → ℕ → ContainmentRow → Bool
unfolding is_active
is_active_for tenant_id agent_id now c =
    (c.tenant_id == tenant_id) && (c.agent_id == agent_id) && is_active now c

-- `ORDER BY created_at DESC LIMIT 1`
unfoldable pub active_containment : String → String → ℕ → Contained → Option ContainmentRow
unfolding is_active_for
active_containment tenant_id agent_id now s =
    newest (λ c. c.created_at) s.prefers
      (select (is_active_for tenant_id agent_id now) s.containments)

-- The tokens go too if the mode is `revoke`.
unfoldable pub agents_after : ContainmentMode → String → String → String → ℕ → Agents → Agents
agents_after revoke tenant_id agent_id reason now s =
    (revoke_agent_tokens tenant_id agent_id reason now s).0
agents_after _ tenant_id agent_id reason now s = s

-- The time of the revocation is read after that of the record.
unfoldable pub contain_agent :
    String
    → String
    → String
    → ContainmentMode
    → String
    → String
    → ℕ
    → List String
    → Option String
    → ℕ
    → ℕ
    → Contained
    → Contained × ContainmentRow
unfolding agents_after
contain_agent uuid tenant_id agent_id mode reason reviewer duration_seconds allowed_tools
      incident_id now revoked_at s =
    let row : ContainmentRow = record {
      id = uuid;
      tenant_id = tenant_id;
      agent_id = agent_id;
      mode = mode;
      reason = reason;
      reviewer = reviewer;
      allowed_tools = sorted_set allowed_tools;
      incident_id = incident_id;
      created_at = now;
      expires_at = now + seconds duration_seconds;
      released_at = none;
    } in
    (
      record s {
        containments = s.containments ++ row ∷ [];
        agents = agents_after mode tenant_id agent_id reason revoked_at s.agents;
      },
      row,
    )

released : ℕ → ContainmentRow → ContainmentRow
released now c = record c { released_at = some now }

unfoldable pub release_containment : String → ℕ → Contained → Contained × Bool
unfolding released
release_containment containment_id now s =
    let matches = λ (c : ContainmentRow). (c.id == containment_id) && is_none c.released_at in
    (
      record s { containments = update matches (released now) s.containments },
      any matches s.containments,
    )

-- `mode in {QUARANTINE, REVOKE}`
unfoldable pub blocks_all : ContainmentMode → Bool
blocks_all quarantine = true
blocks_all revoke = true
blocks_all _ = false

abbrev pub is_quarantine_of : String → String → QuarantineRow → Bool
is_quarantine_of tenant_id agent_id q = (q.tenant_id == tenant_id) && (q.agent_id == agent_id)

unfoldable pub is_open_quarantine : String → String → QuarantineRow → Bool
is_open_quarantine tenant_id agent_id q =
    is_quarantine_of tenant_id agent_id q && is_none q.released_at

quarantined_row : String → ℕ → QuarantineRow → QuarantineRow
quarantined_row reason now q = record q {
  reason = reason;
  created_at = now;
  released_at = none;
  reviewer = none;
  note = "";
}

-- the upsert into `quarantines`
unfoldable pub upsert_quarantine :
    String → String → String → ℕ → List QuarantineRow → List QuarantineRow
unfolding quarantined_row
upsert_quarantine tenant_id agent_id reason now table =
    if any (is_quarantine_of tenant_id agent_id) table
    then update (is_quarantine_of tenant_id agent_id) (quarantined_row reason now) table
    else table
      ++ record {
        tenant_id = tenant_id;
        agent_id = agent_id;
        reason = reason;
        created_at = now;
        released_at = none;
        reviewer = none;
        note = "";
      }
        ∷ []

-- The clock is read for the row of `quarantines`, and again for the containment of 900 seconds.
unfoldable pub quarantine_agent : String → String → String → String → ℕ → ℕ → Contained → Contained
unfolding contain_agent upsert_quarantine
quarantine_agent uuid tenant_id agent_id reason now contained_at s =
    (contain_agent uuid tenant_id agent_id quarantine reason "sentinelgate-auto-response" 900 []
      none contained_at contained_at
      (record s { quarantines = upsert_quarantine tenant_id agent_id reason now s.quarantines })).0

unfoldable pub is_blocked_by : Option ContainmentRow → Bool
unfolding blocks_all
is_blocked_by none = false
is_blocked_by (some c) = blocks_all c.mode

unfoldable pub is_quarantined : String → String → ℕ → Contained → Bool
unfolding is_blocked_by is_open_quarantine
is_quarantined tenant_id agent_id now s =
    is_blocked_by (active_containment tenant_id agent_id now s)
    || any (is_open_quarantine tenant_id agent_id) s.quarantines

closed_quarantine : String → String → ℕ → QuarantineRow → QuarantineRow
closed_quarantine reviewer note now q = record q {
  released_at = some now;
  reviewer = some reviewer;
  note = note;
}

-- `released_at IS NULL AND mode='quarantine'`
is_released_with : String → String → ContainmentRow → Bool
is_released_with tenant_id agent_id c =
    (c.tenant_id == tenant_id)
    && (c.agent_id == agent_id)
    && is_none c.released_at
    && elim c.mode [ quarantine ↦ true | _ ↦ false ]

unfoldable pub release_agent :
    String → String → String → String → ℕ → ℕ → Contained → Contained × Bool
unfolding is_open_quarantine closed_quarantine is_released_with released
release_agent tenant_id agent_id reviewer note now released_at s = (
  record s {
    quarantines =
        update (is_open_quarantine tenant_id agent_id) (closed_quarantine reviewer note now)
          s.quarantines;
    containments =
        update (is_released_with tenant_id agent_id) (released released_at) s.containments;
  },
  any (is_open_quarantine tenant_id agent_id) s.quarantines,
)
