-- ===== src/Storage/Outbox/Lease.antt =====
-- `claim_outbox` of storage.py and the jobs it locks.
use sentinelgate.Prelude.{
  ℕ, ◌+◌, ◌≤◌, ◌<◌, String, ◌≡◌, refl, ◌∙◌, true, false, Option, none, some, List, [], ◌∷◌, arith,
  eq_iff, eq_self, first, Bool-cases, Option-cases, inl, inr, ◌⊎◌, first-update-some, if◌then◌else◌,
}
use sentinelgate.Storage.Approvals.{seconds}
use sentinelgate.Storage.Outbox.{
  Job, is_ready, job_before, next_job, locked, has_job_id, claim_outbox,
}

-- The identifiers of the table are its primary key.
abbrev pub KeysUnique : List Job → Type 0
KeysUnique [] = Unit
KeysUnique (j ∷ js) = (first (has_job_id j.id) js ≡ none) × KeysUnique js

better : Job → Job → Option Job
better k j = if job_before k j then some k else some j

pub next_job-cases :
    (now lease_seconds : ℕ) (x : Job) (xs : List Job) (j : Job)
    → next_job now lease_seconds (x ∷ xs) ≡ some j
    → ((x ≡ j) × (is_ready now lease_seconds x ≡ true)) ⊎ (next_job now lease_seconds xs ≡ some j)
unfolding next_job
next_job-cases now lease_seconds x xs j h = elim (Option-cases (next_job now lease_seconds xs)) [
  | inl nothing ↦ elim (Bool-cases (is_ready now lease_seconds x)) [
    | inl ready ↦ inl (ground arith)
    | inr waiting ↦ inr (ground arith)
  ]
  | inr (k, e) ↦ elim (Bool-cases (is_ready now lease_seconds x)) [
    | inr waiting ↦ inr (ground arith)
    | inl ready ↦ elim (Bool-cases (job_before k x)) [
      | inl earlier ↦ inr (ground arith)
      | inr first_one ↦ inl (ground arith)
    ]
  ]
]

-- The chosen job is ready, and is the row that its identifier finds.
pub next_job-ready :
    (now lease_seconds : ℕ) (table : List Job) (j : Job)
    → KeysUnique table
    → next_job now lease_seconds table ≡ some j
    → (is_ready now lease_seconds j ≡ true) × (first (has_job_id j.id) table ≡ some j)
unfolding first has_job_id
next_job-ready now lease_seconds [] j u h = unfold next_job in ground arith
next_job-ready now lease_seconds (x ∷ xs) j u h = elim (next_job-cases now lease_seconds x xs j h) [
  | inl (e, ready) ↦ (rw (← e) ready, rw (← e, eq_self))
  | inr later ↦
      let (ready, found) = next_job-ready now lease_seconds xs j u.1 later in
      (ready, ground (arith, eq_iff x.id j.id, u.0))
]

-- Before its lease ends, a locked job is not ready.
locked-not_ready :
    (worker_id : String) (now later lease_seconds : ℕ) (j : Job)
    → later < now + seconds lease_seconds
    → is_ready later lease_seconds (locked worker_id now j) ≡ false
unfolding is_ready locked
locked-not_ready worker_id now later lease_seconds j h =
    ground (arith, eq_iff "processing" "pending", eq_iff "processing" "retry")

locked_attempts :
    (worker_id : String) (now lease_seconds : ℕ) (j : Job)
    → is_ready now lease_seconds j ≡ true
    → (locked worker_id now j).attempts ≤ (locked worker_id now j).max_attempts
unfolding is_ready locked
locked_attempts worker_id now lease_seconds j h = ground arith

pub claimed_row :
    (worker_id : String) (lease_seconds now : ℕ) (table : List Job) (j : Job)
    → next_job now lease_seconds table ≡ some j
    → first (has_job_id j.id) table ≡ some j
    → (claim_outbox worker_id lease_seconds now table).1 ≡ some (locked worker_id now j)
unfolding claim_outbox
claimed_row worker_id lease_seconds now table j e found =
    rw (e, claim_outbox)
      (first-update-some (has_job_id j.id) (has_job_id j.id) (locked worker_id now) table j
          (λ x. unfold has_job_id locked in refl) found
        ∙ (unfold has_job_id in rw (eq_self j.id)))

unclaimed :
    (worker_id : String) (lease_seconds now : ℕ) (table : List Job) (job : Job)
    → next_job now lease_seconds table ≡ none
    → (claim_outbox worker_id lease_seconds now table).1 ≡ some job
    → ⊥
unfolding claim_outbox
unclaimed worker_id lease_seconds now table job nothing h = ground arith

-- A claim returns a job that was ready, now locked for the worker with one more attempt and never
-- more attempts than allowed; until the lease has passed no claim takes it again.
pub claim_outbox-leases :
    (worker_id : String) (lease_seconds now : ℕ) (table : List Job) (job : Job)
    → KeysUnique table
    → (claim_outbox worker_id lease_seconds now table).1 ≡ some job
    → (j : Job) × (first (has_job_id j.id) table ≡ some j)
      × (is_ready now lease_seconds j ≡ true)
      × (job ≡ locked worker_id now j)
      × (job.attempts ≤ job.max_attempts)
      × ((later : ℕ)
          → later < now + seconds lease_seconds
          → is_ready later lease_seconds job ≡ false)
claim_outbox-leases worker_id lease_seconds now table job u h =
    elim (Option-cases (next_job now lease_seconds table)) [
      | inl nothing ↦ absurd (unclaimed worker_id lease_seconds now table job nothing h)
      | inr (j, e) ↦
          let (ready, found) = next_job-ready now lease_seconds table j u e in
          let row = claimed_row worker_id lease_seconds now table j e found in
          let same : job ≡ locked worker_id now j = ground arith in
          (
            j,
            found,
            ready,
            same,
            rw same (locked_attempts worker_id now lease_seconds j ready),
            λ later before. rw same (locked-not_ready worker_id now later lease_seconds j before),
          )
    ]
