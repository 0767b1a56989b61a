-- ===== src/Storage/Snapshots.antt =====
-- The policy snapshots of src/sentinelgate/storage.py: `record_policy_snapshot` and
-- `list_policy_snapshots` over `policy_snapshots`, kept newest first. What is written encrypted is
-- read back decrypted.
use sentinelgate.Prelude.{ℕ, zero, suc, String, List, [], ◌∷◌, leb, if◌then◌else◌}
use sentinelgate.Models.{ToolCallRequest, VerifiedProvenance, FieldTaint, SecurityFinding, Decision}

pub record Snapshot : Type 0 where
  pub tenant_id : String
  pub agent_id : String
  pub scopes : List String
  pub call : ToolCallRequest
  pub provenance : List VerifiedProvenance
  pub field_provenance : List (String × List FieldTaint)
  pub findings : List SecurityFinding
  pub original_decision : Decision
  pub created_at : ℕ

-- `ORDER BY created_at DESC`
insert_snapshot : Snapshot → List Snapshot → List Snapshot
insert_snapshot x [] = x ∷ []
insert_snapshot x (y ∷ ys) =
    if leb y.created_at x.created_at then x ∷ y ∷ ys else y ∷ insert_snapshot x ys

-- `LIMIT`
unfoldable pub take_rows : {A : Type 0} → ℕ → List A → List A
take_rows zero xs = []
take_rows (suc n) [] = []
take_rows (suc n) (x ∷ xs) = x ∷ take_rows n xs

-- The insert, and the deletion of all but the newest 5000.
unfoldable pub record_policy_snapshot : Snapshot → List Snapshot → List Snapshot
unfolding insert_snapshot
record_policy_snapshot snapshot table = take_rows 5000 (insert_snapshot snapshot table)

unfoldable pub list_policy_snapshots : ℕ → List Snapshot → List Snapshot
list_policy_snapshots limit table = take_rows limit table
