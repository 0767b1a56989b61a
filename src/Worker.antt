-- ===== src/Worker.antt =====
-- The durable worker of src/sentinelgate/worker.py: `DurableWorker.process_one`, and the loop of
-- `run` without its waits.
pub mod Drained
pub mod Delivered
use Prim.Native.Nat.{min}
use sentinelgate.Prelude.{
  ℕ, zero, suc, ◌+◌, ◌*◌, String, Bool, true, false, not, Option, none, some, List, [], ◌∷◌, ◌==◌,
  cat, if◌then◌else◌,
}
use sentinelgate.Json.{Fields, field, end, text, number, object}
use sentinelgate.Runtime.{Runtime}
use sentinelgate.Security.{prefix}
use sentinelgate.Storage.Approvals.{
  ApprovalRow, Fetched, missing, found, integrity_error, get_approval,
}
use sentinelgate.Storage.Audit.{AuditRow, append_audit}
use sentinelgate.Storage.Outbox.{
  Job, Heartbeat, claim_outbox, complete_outbox, retry_outbox, heartbeat_worker,
}

pub record WorkResult : Type 0 where
  pub claimed : Bool
  pub completed : Bool
  pub job_id : Option String

-- The tables that the worker reads and writes, and how many identifiers have been drawn.
pub record Tables : Type 0 where
  pub approvals : List ApprovalRow
  pub outbox : List Job
  pub heartbeats : List Heartbeat
  pub audit : List AuditRow
  pub drawn : ℕ

-- What `notifier.notify` does: it answers, or raises an error with its class and its text.
pub data Delivery : Type 0 where
  answered : Bool → Delivery
  raised : String → String → Delivery

pub record DurableWorker : Type 0 where
  pub worker_id : String
  pub lease_seconds : ℕ
  -- the text of the error for a stored request that does not decrypt
  pub integrity_text : String
  pub notify : ApprovalRow → List String → Delivery
  pub uuid : ℕ → String
  pub audit_key : String

-- How the `try` block ends: a skipped or a delivered approval, or an error by its class and text.
pub data Attempt : Type 0 where
  skipped : Attempt
  delivered : Attempt
  failed : String → String → Attempt

unfoldable pub power_of_two : ℕ → ℕ
power_of_two zero = 1
power_of_two (suc n) = 2 * power_of_two n

-- `min(300, 2 ** min(int(job["attempts"]), 8))`
unfoldable pub retry_delay : ℕ → ℕ
unfolding power_of_two
retry_delay attempts = min 300 (power_of_two (min attempts 8))

unfoldable pub notified : Delivery → Attempt
notified (answered true) = delivered
notified (answered false) =
    failed "RuntimeError" "Webhook delivery did not return a success response"
notified (raised class message) = failed class message

module _ (runtime : Runtime) (worker : DurableWorker) where
  -- The checks of the `try` block and the notification.
  unfoldable pub attempt : Job → List ApprovalRow → Attempt
  unfolding notified
  attempt job approvals =
      if not (job.kind == "approval.required")
      then failed "RuntimeError" (cat "Unsupported outbox job kind: " job.kind)
      else elim (get_approval job.payload_approval approvals) [
        | missing ↦ failed "RuntimeError" "Approval record is unavailable"
        | integrity_error ↦ failed "StorageIntegrityError" worker.integrity_text
        | found approval ↦
            if not (approval.status == "pending")
            then skipped
            else notified (worker.notify approval job.payload_reasons)
      ]

  unfoldable pub log : String → Fields → ℕ → Tables → Tables
  log event_type payload now t = record t {
    audit =
        append_audit runtime worker.audit_key (worker.uuid t.drawn) event_type
          (runtime.dumps (object payload)) now t.audit;
    drawn = t.drawn + 1;
  }

  unfoldable pub beat : ℕ → ℕ → ℕ → Tables → Tables
  beat processed_delta failed_delta now t = record t {
    heartbeats = heartbeat_worker worker.worker_id now processed_delta failed_delta t.heartbeats;
  }

  unfoldable pub complete : Job → ℕ → Tables → Tables
  unfolding beat
  complete job now t =
      beat 1 0 now (record t { outbox = (complete_outbox job.id worker.worker_id now t.outbox).0 })

  -- What follows the `try` block, its error included.
  unfoldable pub conclude : Job → Attempt → ℕ → Tables → Tables × WorkResult
  unfolding complete beat log retry_delay
  conclude job skipped now t = (
    log "approval_notification_skipped"
        (field "approval_id" (text job.payload_approval)
          (field "reason" (text "approval_not_pending") end))
        now (complete job now t),
    record { claimed = true; completed = true; job_id = some job.id },
  )
  conclude job delivered now t = (
    log "approval_notification_delivered"
        (field "approval_id" (text job.payload_approval) (
          field "job_id" (text job.id)
            (field "attempt" (number (runtime.decimal job.attempts)) end)))
        now (complete job now t),
    record { claimed = true; completed = true; job_id = some job.id },
  )
  conclude job (failed class message) now t =
      let delay = retry_delay job.attempts in
      let error = prefix 500 (cat class (cat ": " message)) in
      (
        log "approval_notification_retry"
            (field "job_id" (text job.id) (
              field "attempt" (number (runtime.decimal job.attempts)) (
                field "retry_seconds" (number (runtime.decimal delay))
                  (field "error_type" (text class) end))))
            now
            (beat 0 1 now (record t {
              outbox = (retry_outbox job.id worker.worker_id error delay now t.outbox).0;
            })),
        record { claimed = true; completed = false; job_id = some job.id },
      )

  unfoldable pub process_one : ℕ → Tables → Tables × WorkResult
  unfolding beat attempt conclude
  process_one now before =
      let t = beat 0 0 now before in
      let (outbox, job) = claim_outbox worker.worker_id worker.lease_seconds now t.outbox in
      elim job [
        | none ↦ (
          record t { outbox = outbox },
          record { claimed = false; completed = false; job_id = none },
        )
        | some j ↦ conclude j (attempt j t.approvals) now (record t { outbox = outbox })
      ]

  -- The loop of `run`, a reading of the clock for each round.
  unfoldable pub process_all : List ℕ → Tables → Tables × List WorkResult
  unfolding process_one
  process_all [] t = (t, [])
  process_all (now ∷ times) t =
      let (after, result) = process_one now t in
      let (last, results) = process_all times after in (last, result ∷ results)
