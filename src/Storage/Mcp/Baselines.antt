-- ===== src/Storage/Mcp/Baselines.antt =====
-- The baselines of storage.py: `upsert_mcp_tool_baseline` and the other tools.
use sentinelgate.Prelude.{
  ℕ, String, false, ◌≡◌, refl, List, [], ◌∷◌, ◌++◌, ◌==◌, any, first, update, eq_iff, arith,
  Bool-cases, inl, inr,
}
use sentinelgate.Json.{Json}
use sentinelgate.Storage.Mcp.{
  Baseline, is_baseline_of, rebased, upsert_mcp_tool_baseline, get_mcp_tool_baseline,
}

module _ (server_id name : String) where
  first-update_other :
      (tool_name : String) (f : Baseline → Baseline) (table : List Baseline)
      → (tool_name == name) ≡ false
      → ((b : Baseline) → ((f b).server_id ≡ b.server_id) × ((f b).tool_name ≡ b.tool_name))
      → first (is_baseline_of server_id name) (update (is_baseline_of server_id tool_name) f table)
        ≡ first (is_baseline_of server_id name) table
  unfolding first update
  first-update_other tool_name f [] other same = refl
  first-update_other tool_name f (b ∷ bs) other same =
      let rest = first-update_other tool_name f bs other same in
      ground (
        arith,
        rest,
        same b,
        eq_iff b.tool_name tool_name,
        eq_iff tool_name name,
        eq_iff b.tool_name name,
        eq_iff (f b).tool_name name,
        eq_iff (f b).server_id server_id,
        eq_iff b.server_id server_id,
      )

  first-append_other :
      (b : Baseline) (table : List Baseline)
      → (b.tool_name == name) ≡ false
      → first (is_baseline_of server_id name) (table ++ b ∷ [])
        ≡ first (is_baseline_of server_id name) table
  unfolding first
  first-append_other b [] other = ground arith
  first-append_other b (x ∷ xs) other = ground (arith, first-append_other b xs other)

  pub get_mcp_tool_baseline-upsert_other :
      (tool_name digest status : String) (definition : Json) (now : ℕ) (table : List Baseline)
      → (tool_name == name) ≡ false
      → get_mcp_tool_baseline server_id name
          (upsert_mcp_tool_baseline server_id tool_name digest definition status now table)
        ≡ get_mcp_tool_baseline server_id name table
  unfolding get_mcp_tool_baseline upsert_mcp_tool_baseline rebased
  get_mcp_tool_baseline-upsert_other tool_name digest status definition now table other =
      elim (Bool-cases (any (is_baseline_of server_id tool_name) table)) [
        | inl e ↦ rw e (
            first-update_other tool_name (rebased digest definition status now) table other
              (λ b. (refl, refl)))
        | inr e ↦ rw e (first-append_other _ table other)
      ]
