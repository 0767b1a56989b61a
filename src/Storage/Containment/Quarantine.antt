-- ===== src/Storage/Containment/Quarantine.antt =====
-- `quarantine` and `is_quarantined` of storage.py among the operations that follow.
use sentinelgate.Prelude.{
  ℕ, String, ◌≡◌, refl, inl, inr, Bool, true, false, ◌&&◌, Option, none, List, [], ◌∷◌, arith, ◌==◌,
  eq_iff, eq_self, any, any-append_one, any-update_keeps, update, ◌∙◌, Bool-cases,
}
use sentinelgate.Models.{ContainmentMode}
use sentinelgate.Storage.Containment.{
  QuarantineRow, Contained, contain_agent, is_quarantine_of, is_open_quarantine, quarantined_row,
  upsert_quarantine, quarantine_agent, is_quarantined, release_agent, release_containment,
  closed_quarantine,
}

-- Opening the row of an agent that has one.
any-quarantined_row :
    (tenant_id agent_id reason : String) (now : ℕ) (table : List QuarantineRow)
    → any
        (is_open_quarantine tenant_id agent_id)
        (update (is_quarantine_of tenant_id agent_id) (quarantined_row reason now) table)
      ≡ any (is_quarantine_of tenant_id agent_id) table
unfolding any update is_open_quarantine quarantined_row
any-quarantined_row tenant_id agent_id reason now [] = refl
any-quarantined_row tenant_id agent_id reason now (q ∷ qs) =
    ground (arith, any-quarantined_row tenant_id agent_id reason now qs)

upsert-open :
    (tenant_id agent_id reason : String) (now : ℕ) (table : List QuarantineRow)
    → any
        (is_open_quarantine tenant_id agent_id)
        (upsert_quarantine tenant_id agent_id reason now table)
      ≡ true
unfolding upsert_quarantine
upsert-open tenant_id agent_id reason now table =
    elim (Bool-cases (any (is_quarantine_of tenant_id agent_id) table)) [
      | inl old ↦ rw old (any-quarantined_row tenant_id agent_id reason now table ∙ old)
      | inr new ↦
          rw
            (
              new,
              any-append_one (is_open_quarantine tenant_id agent_id) table (record {
                tenant_id = tenant_id;
                agent_id = agent_id;
                reason = reason;
                created_at = now;
                released_at = none;
                reviewer = none;
                note = "";
              }),
            )
            (unfold is_open_quarantine in ground (arith, eq_self tenant_id, eq_self agent_id))
    ]

-- A quarantine of one agent leaves the open row of another, or of itself, open.
upsert-keeps_open :
    (i j tenant_id agent_id reason : String) (now : ℕ) (table : List QuarantineRow)
    → any (is_open_quarantine i j) table ≡ true
    → any (is_open_quarantine i j) (upsert_quarantine tenant_id agent_id reason now table) ≡ true
unfolding upsert_quarantine
upsert-keeps_open i j tenant_id agent_id reason now table h =
    elim (Bool-cases (any (is_quarantine_of tenant_id agent_id) table)) [
      | inl old ↦ rw old (
          any-update_keeps (is_open_quarantine i j) (is_quarantine_of tenant_id agent_id) _ table
            (λ q o _. unfold is_open_quarantine quarantined_row in ground arith) h)
      | inr new ↦ rw (new, any-append_one) (rw h)
    ]

-- The calls that write the tables; the texts and times are those of the calls.
pub data Operation : Type 0 where
  contain :
      String
      → String
      → String
      → ContainmentMode
      → String
      → String
      → ℕ
      → List String
      → Option String
      → ℕ
      → ℕ
      → Operation
  release : String → ℕ → Operation
  quarantine_again : String → String → String → String → ℕ → ℕ → Operation
  release_of : String → String → String → String → ℕ → ℕ → Operation

unfoldable pub apply : Operation → Contained → Contained
apply (contain uuid tenant agent mode reason reviewer duration tools incident now revoked_at) s =
    (contain_agent uuid tenant agent mode reason reviewer duration tools incident now revoked_at
      s).0
apply (release containment_id now) s = (release_containment containment_id now s).0
apply (quarantine_again uuid tenant agent reason now contained_at) s =
    quarantine_agent uuid tenant agent reason now contained_at s
apply (release_of tenant agent reviewer note now released_at) s =
    (release_agent tenant agent reviewer note now released_at s).0

unfoldable pub apply_all : List Operation → Contained → Contained
unfolding apply
apply_all [] s = s
apply_all (op ∷ ops) s = apply_all ops (apply op s)

-- The call is a release of this agent.
unfoldable pub is_release_of : String → String → Operation → Bool
is_release_of tenant_id agent_id (release_of tenant agent reviewer note now released_at) =
    (tenant == tenant_id) && (agent == agent_id)
is_release_of tenant_id agent_id _ = false

apply-open :
    (tenant_id agent_id : String) (op : Operation) (s : Contained)
    → is_release_of tenant_id agent_id op ≡ false
    → any (is_open_quarantine tenant_id agent_id) s.quarantines ≡ true
    → any (is_open_quarantine tenant_id agent_id) (apply op s).quarantines ≡ true
unfolding apply is_release_of
apply-open i j (contain uuid tenant agent mode reason reviewer duration tools incident now rev) s n
      h =
    unfold contain_agent in h
apply-open i j (release containment_id now) s n h = unfold release_containment in h
apply-open i j (quarantine_again uuid tenant agent reason now contained_at) s n h =
    unfold quarantine_agent in upsert-keeps_open i j tenant agent reason now s.quarantines h
apply-open i j (release_of tenant agent reviewer note now released_at) s n h =
    unfold release_agent closed_quarantine in
    any-update_keeps (is_open_quarantine i j) (is_open_quarantine tenant agent) _ s.quarantines
      (λ q o c.
        unfold is_open_quarantine in
        ground (
          arith,
          eq_iff q.tenant_id i,
          eq_iff q.agent_id j,
          eq_iff q.tenant_id tenant,
          eq_iff q.agent_id agent,
          eq_iff tenant i,
          eq_iff agent j,
        ))
      h

apply_all-open :
    (tenant_id agent_id : String) (ops : List Operation) (s : Contained)
    → any (is_release_of tenant_id agent_id) ops ≡ false
    → any (is_open_quarantine tenant_id agent_id) s.quarantines ≡ true
    → any (is_open_quarantine tenant_id agent_id) (apply_all ops s).quarantines ≡ true
unfolding apply_all any
apply_all-open tenant_id agent_id [] s n h = h
apply_all-open tenant_id agent_id (op ∷ ops) s n h =
    apply_all-open tenant_id agent_id ops (apply op s) (ground arith)
      (apply-open tenant_id agent_id op s (ground arith) h)

-- An automatic quarantine blocks its agent at every later time, whatever expires and whatever
-- containments, releases of containments and calls for other agents follow, as long as none of the
-- calls releases the agent.
pub quarantine_agent-blocks :
    (uuid tenant_id agent_id reason : String) (now contained_at later : ℕ) (ops : List Operation)
    (s : Contained)
    → any (is_release_of tenant_id agent_id) ops ≡ false
    → is_quarantined tenant_id agent_id later
        (apply_all ops (quarantine_agent uuid tenant_id agent_id reason now contained_at s))
      ≡ true
unfolding is_quarantined
quarantine_agent-blocks uuid tenant_id agent_id reason now contained_at later ops s n = ground (
  arith,
  apply_all-open tenant_id agent_id ops
      (quarantine_agent uuid tenant_id agent_id reason now contained_at s) n
      (unfold quarantine_agent in upsert-open tenant_id agent_id reason now s.quarantines),
)
