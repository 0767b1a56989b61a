-- ===== src/Worker/Delivered.antt =====
-- worker.py: `process_one` with a job that can be delivered.
use sentinelgate.Prelude.{ℕ, ◌≡◌, refl, true, some, List, first}
use sentinelgate.Runtime.{Runtime}
use sentinelgate.Storage.Approvals.{ApprovalRow, found, get_approval}
use sentinelgate.Storage.Outbox.{Job, next_job, has_job_id, locked}
use sentinelgate.Storage.Outbox.Lease.{KeysUnique, next_job-ready, claimed_row}
use sentinelgate.Storage.Outbox.Work.{complete_claimed}
use sentinelgate.Worker.{
  DurableWorker, Tables, answered, notified, delivered, attempt, beat, log, complete, conclude,
  process_one,
}

module _ (runtime : Runtime) (worker : DurableWorker) where
  attempt-delivered :
      (j : Job) (approval : ApprovalRow) (approvals : List ApprovalRow) (now : ℕ)
      → j.kind ≡ "approval.required"
      → get_approval j.payload_approval approvals ≡ found approval
      → approval.status ≡ "pending"
      → worker.notify approval j.payload_reasons ≡ answered true
      → attempt runtime worker (locked worker.worker_id now j) approvals ≡ delivered
  unfolding attempt notified locked
  attempt-delivered j approval approvals now kind held pending notifies =
      rw (kind, held, notifies, pending) refl

  -- If the next ready job of a table with distinct identifiers asks for an approval that is stored
  -- and pending, and the notifier delivers it, the round claims that job and ends with it completed,
  -- in its answer and in the table.
  pub process_one-delivers :
      (now : ℕ) (t : Tables) (j : Job) (approval : ApprovalRow)
      → KeysUnique t.outbox
      → next_job now worker.lease_seconds t.outbox ≡ some j
      → j.kind ≡ "approval.required"
      → get_approval j.payload_approval t.approvals ≡ found approval
      → approval.status ≡ "pending"
      → worker.notify approval j.payload_reasons ≡ answered true
      → ((process_one runtime worker now t).1
          ≡ record { claimed = true; completed = true; job_id = some j.id })
        × ((row : Job) × (first (has_job_id j.id) (process_one runtime worker now t).0.outbox
              ≡ some row)
            × (row.status ≡ "completed"))
  unfolding process_one conclude log complete beat locked
  process_one-delivers now t j approval unique next kind held pending notifies =
      let (ready, stored) = next_job-ready now worker.lease_seconds t.outbox j unique next in
      let row = claimed_row worker.worker_id worker.lease_seconds now t.outbox j next stored in
      let outcome = attempt-delivered j approval t.approvals now kind held pending notifies in
      let (last, at, status) =
        complete_claimed worker.worker_id worker.lease_seconds now t.outbox j unique next in
      rw (row, process_one) (rw outcome (refl, (last, at, status)))
