-- ===== src/Storage/Outbox.antt =====
-- The durable outbox of src/sentinelgate/storage.py: `enqueue_outbox`, `claim_outbox`,
-- `complete_outbox`, `retry_outbox` over the table `outbox_jobs`, and `heartbeat_worker` over
-- `worker_heartbeats`.
pub mod Lease
pub mod Work
use Prim.Native.Nat.{compare as compare_times, Ordering}
use Prim.Native.String.{compare}
use sentinelgate.Prelude.{
  ℕ, suc, ◌+◌, ◌-◌, String, Bool, true, false, ◌&&◌, ◌||◌, Option, none, some, List, [], ◌∷◌, ◌++◌,
  ◌==◌, leb, ltb, any, first, select, update, if◌then◌else◌,
}
use sentinelgate.Storage.Approvals.{seconds}

-- The payload of an approval notification: the approval and the reason codes.
pub record Job : Type 0 where
  pub id : String
  pub kind : String
  pub deduplication_key : String
  pub payload_approval : String
  pub payload_reasons : List String
  pub status : String
  pub attempts : ℕ
  pub max_attempts : ℕ
  pub next_attempt_at : ℕ
  pub locked_by : Option String
  pub locked_at : Option ℕ
  pub last_error : Option String
  pub created_at : ℕ
  pub completed_at : Option ℕ

abbrev pub is_kind : String → String → Job → Bool
is_kind kind key j = (j.kind == kind) && (j.deduplication_key == key)

-- The insert does nothing on a conflict, and the identifier is read back.
unfoldable pub enqueue_outbox :
    String → String → String → String → List String → ℕ → ℕ → List Job → List Job × String
enqueue_outbox uuid kind key approval reasons max_attempts now table =
    elim (first (is_kind kind key) table) [
      | some j ↦ (table, j.id)
      | none ↦ (
        table
            ++ record {
              id = uuid;
              kind = kind;
              deduplication_key = key;
              payload_approval = approval;
              payload_reasons = reasons;
              status = "pending";
              attempts = 0;
              max_attempts = max_attempts;
              next_attempt_at = now;
              locked_by = none;
              locked_at = none;
              last_error = none;
              created_at = now;
              completed_at = none;
            }
              ∷ [],
        uuid,
      )
    ]

-- `locked_at<=?` with the time `now - lease`, which is not true of a null
unfoldable pub lock_expired : ℕ → ℕ → Option ℕ → Bool
lock_expired now lease_seconds none = false
lock_expired now lease_seconds (some t) = leb (t + seconds lease_seconds) now

unfoldable pub is_ready : ℕ → ℕ → Job → Bool
unfolding lock_expired
is_ready now lease_seconds j =
    ltb j.attempts j.max_attempts
    && leb j.next_attempt_at now
    && ((j.status == "pending")
        || (j.status == "retry")
        || ((j.status == "processing") && lock_expired now lease_seconds j.locked_at))

-- `ORDER BY created_at, id`
unfoldable pub job_before : Job → Job → Bool
job_before a b = elim (compare_times a.created_at b.created_at) [
  | Ordering.lt ↦ true
  | Ordering.eq ↦ elim (compare a.id b.id) [ Ordering.lt ↦ true | _ ↦ false ]
  | Ordering.gt ↦ false
]

-- The first ready job in that order.
unfoldable pub next_job : ℕ → ℕ → List Job → Option Job
unfolding is_ready job_before
next_job now lease_seconds [] = none
next_job now lease_seconds (j ∷ js) =
    let rest = next_job now lease_seconds js in
    if is_ready now lease_seconds j
    then elim rest [ none ↦ some j | some k ↦ if job_before k j then some k else some j ]
    else rest

unfoldable pub locked : String → ℕ → Job → Job
locked worker_id now j = record j {
  status = "processing";
  attempts = j.attempts + 1;
  locked_by = some worker_id;
  locked_at = some now;
}

unfoldable pub has_job_id : String → Job → Bool
has_job_id job_id j = j.id == job_id

-- One transaction: the ready job is locked for the worker and read back.
unfoldable pub claim_outbox : String → ℕ → ℕ → List Job → List Job × Option Job
unfolding next_job locked has_job_id
claim_outbox worker_id lease_seconds now table = elim (next_job now lease_seconds table) [
  | none ↦ (table, none)
  | some j ↦
      let after = update (has_job_id j.id) (locked worker_id now) table in
      (after, first (has_job_id j.id) after)
]

abbrev pub is_worker : String → Option String → Bool
is_worker worker_id none = false
is_worker worker_id (some w) = w == worker_id

-- `id=? AND status='processing' AND locked_by=?`
unfoldable pub is_locked_for : String → String → Job → Bool
unfolding has_job_id
is_locked_for job_id worker_id j =
    has_job_id job_id j && (j.status == "processing") && is_worker worker_id j.locked_by

completed : ℕ → Job → Job
completed now j = record j {
  status = "completed";
  completed_at = some now;
  locked_by = none;
  locked_at = none;
  last_error = none;
}

unfoldable pub complete_outbox : String → String → ℕ → List Job → List Job × Bool
unfolding is_locked_for completed
complete_outbox job_id worker_id now table = (
  update (is_locked_for job_id worker_id) (completed now) table,
  any (is_locked_for job_id worker_id) table,
)

unfoldable pub retry_status : Job → String
retry_status j = if leb j.max_attempts j.attempts then "dead" else "retry"

retried : String → ℕ → String → Job → Job
retried status next_attempt error j = record j {
  status = status;
  next_attempt_at = next_attempt;
  locked_by = none;
  locked_at = none;
  last_error = some error;
}

-- The error is the text that is stored, cut to 500 characters by the caller of the model.
unfoldable pub retry_outbox : String → String → String → ℕ → ℕ → List Job → List Job × Bool
unfolding is_locked_for retried retry_status has_job_id
retry_outbox job_id worker_id error delay_seconds now table =
    elim (first (has_job_id job_id) table) [
      | none ↦ (table, false)
      | some row ↦ (
        update (is_locked_for job_id worker_id)
            (retried (retry_status row) (now + seconds delay_seconds) error) table,
        any (is_locked_for job_id worker_id) table,
      )
    ]

pub record Heartbeat : Type 0 where
  pub worker_id : String
  pub started_at : ℕ
  pub last_seen : ℕ
  pub processed : ℕ
  pub failed : ℕ

beating : ℕ → ℕ → ℕ → Heartbeat → Heartbeat
beating now processed_delta failed_delta h = record h {
  last_seen = now;
  processed = h.processed + processed_delta;
  failed = h.failed + failed_delta;
}

unfoldable pub heartbeat_worker : String → ℕ → ℕ → ℕ → List Heartbeat → List Heartbeat
unfolding beating
heartbeat_worker worker_id processed_delta failed_delta now table =
    if any (λ h. h.worker_id == worker_id) table
    then update (λ h. h.worker_id == worker_id) (beating now processed_delta failed_delta) table
    else table
      ++ record {
        worker_id = worker_id;
        started_at = now;
        last_seen = now;
        processed = processed_delta;
        failed = failed_delta;
      }
        ∷ []
