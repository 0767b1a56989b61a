-- ===== src/Worker/Drained.antt =====
-- worker.py: the claims of the loop of `run`.
use mathlib.Core.Path.{subst}
use sentinelgate.Prelude.{
  ℕ, ◌+◌, ◌≤◌, ◌≡◌, refl, Bool, true, false, List, [], ◌∷◌, arith, count, Option-cases, Bool-cases,
  inl, inr,
}
use sentinelgate.Runtime.{Runtime}
use sentinelgate.Storage.Outbox.{Job, claim_outbox}
use sentinelgate.Storage.Outbox.Work.{
  work_left, one_if_some, work_left-claim_outbox, work_left-complete_outbox, work_left-retry_outbox,
}
use sentinelgate.Worker.{
  DurableWorker, Tables, Attempt, skipped, delivered, failed, log, beat, complete, conclude,
  attempt, process_one, process_all, retry_delay,
}

module _ (runtime : Runtime) (worker : DurableWorker) where
  work_left-conclude :
      (job : Job) (outcome : Attempt) (now : ℕ) (t : Tables)
      → work_left (conclude runtime worker job outcome now t).0.outbox ≡ work_left t.outbox
  unfolding conclude log beat complete
  work_left-conclude job skipped now t =
      work_left-complete_outbox job.id worker.worker_id now t.outbox
  work_left-conclude job delivered now t =
      work_left-complete_outbox job.id worker.worker_id now t.outbox
  work_left-conclude job (failed class message) now t =
      work_left-retry_outbox job.id worker.worker_id _ (retry_delay job.attempts) now t.outbox

  claimed-conclude :
      (job : Job) (outcome : Attempt) (now : ℕ) (t : Tables)
      → (conclude runtime worker job outcome now t).1.claimed ≡ true
  unfolding conclude
  claimed-conclude job skipped now t = refl
  claimed-conclude job delivered now t = refl
  claimed-conclude job (failed class message) now t = refl

  one_if : Bool → ℕ
  one_if true = 1
  one_if false = 0

  -- A round that claims a job leaves less work, and no round leaves more.
  work_left-process_one :
      (now : ℕ) (t : Tables)
      → one_if (process_one runtime worker now t).1.claimed
          + work_left (process_one runtime worker now t).0.outbox
        ≤ work_left t.outbox
  unfolding process_one one_if beat
  work_left-process_one now t =
      let claim = work_left-claim_outbox worker.worker_id worker.lease_seconds now t.outbox in
      elim (Option-cases (claim_outbox worker.worker_id worker.lease_seconds now t.outbox).1) [
        | inl e ↦
            let waiting : work_left
                  (claim_outbox worker.worker_id worker.lease_seconds now t.outbox).0
                ≤ work_left t.outbox =
              omega (arith, claim) in
            rw (e, process_one) (omega (arith, waiting))
        | inr (j, e) ↦
            let after = (claim_outbox worker.worker_id worker.lease_seconds now t.outbox).0 in
            let used : 1 + work_left after ≤ work_left t.outbox =
              subst (λ o. one_if_some o + work_left after ≤ work_left t.outbox) e claim in
            let beaten = beat runtime worker 0 0 now t in
            let claimed = record beaten { outbox = after } in
            let outcome = attempt runtime worker j beaten.approvals in
            rw (e, process_one)
              (rw (claimed-conclude j outcome now claimed, work_left-conclude j outcome now claimed)
                used)
      ]

  -- However often the worker runs, and at whatever times, the rounds in which it claims a job are
  -- no more than the attempts that the jobs had left at the start.
  pub process_all-claims :
      (times : List ℕ) (t : Tables)
      → count (λ r. r.claimed) (process_all runtime worker times t).1
          + work_left (process_all runtime worker times t).0.outbox
        ≤ work_left t.outbox
  unfolding process_all count one_if
  process_all-claims [] t = omega arith
  process_all-claims (now ∷ times) t =
      let one = work_left-process_one now t in
      let after = work_left (process_one runtime worker now t).0.outbox in
      let rest = process_all-claims times (process_one runtime worker now t).0 in
      elim (Bool-cases (process_one runtime worker now t).1.claimed) [
        | inl e ↦
            rw e (omega (arith, rest, subst (λ b. one_if b + after ≤ work_left t.outbox) e one))
        | inr e ↦
            rw e (omega (arith, rest, subst (λ b. one_if b + after ≤ work_left t.outbox) e one))
      ]
