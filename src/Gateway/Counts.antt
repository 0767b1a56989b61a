-- ===== src/Gateway/Counts.antt =====
-- The counts of `replay_policy` of src/sentinelgate/service.py.
use sentinelgate.Prelude.{
  ℕ, ◌+◌, List, [], ◌∷◌, ◌≡◌, refl, arith, map, count, length, if◌then◌else◌,
}
use sentinelgate.Models.{Decision, allow, deny, require_approval, decision_value}
use sentinelgate.Runtime.{Runtime}
use sentinelgate.Policy.Config.{PolicyEngine}
use sentinelgate.Storage.Snapshots.{Snapshot, list_policy_snapshots}
use sentinelgate.Gateway.Replay.{
  ReplayDecision, same_decision, count_decision, replay_one, replay_policy,
}

same_one :
    (d : Decision)
    → (if same_decision d allow then 1 else 0)
        + (if same_decision d deny then 1 else 0)
        + (if same_decision d require_approval then 1 else 0)
      ≡ 1
unfolding same_decision decision_value
same_one allow = refl
same_one deny = refl
same_one require_approval = refl

module _ (runtime : Runtime) (engine : PolicyEngine) (now : ℕ) where
  counts_add :
      (rs : List ReplayDecision)
      → count_decision runtime engine now allow rs
          + count_decision runtime engine now deny rs
          + count_decision runtime engine now require_approval rs
        ≡ length rs
  unfolding count_decision count
  counts_add [] = refl
  counts_add (r ∷ rs) = ground (arith, same_one r.replayed_decision, counts_add rs)

  -- In a replay the calls allowed, denied and sent to a reviewer add up to the calls evaluated.
  pub replay_policy-counts :
      (limit : ℕ) (table : List Snapshot)
      → let result = replay_policy runtime engine now limit table in
        result.allowed + result.denied + result.needing_approval ≡ result.evaluated
  unfolding replay_policy
  replay_policy-counts limit table =
      counts_add (map (replay_one runtime engine now) (list_policy_snapshots limit table))
