-- ===== src/Storage/Outbox/Work.antt =====
-- The outbox of storage.py: the attempts that its jobs have left.
use sentinelgate.Prelude.{
  ℕ, ◌+◌, ◌-◌, ◌≤◌, ◌<◌, ◌≡◌, refl, ap, ◌∙◌, String, Bool, true, Option, none, some, List, [], ◌∷◌,
  arith, update, first, Bool-cases, Option-cases, inl, inr, eq_self, first-update-some,
}
use sentinelgate.Storage.Outbox.{
  Job, is_ready, next_job, locked, completed, retried, has_job_id, claim_outbox, complete_outbox,
  retry_outbox, is_locked_for,
}
use sentinelgate.Storage.Outbox.Lease.{KeysUnique, next_job-cases, next_job-ready}

-- The attempts that the jobs of the table have left.
unfoldable pub work_left : List Job → ℕ
work_left [] = 0
work_left (j ∷ js) = (j.max_attempts - j.attempts) + work_left js

work_left-update :
    (q : Job → Bool) (f : Job → Job) (table : List Job)
    → ((j : Job) → ((f j).attempts ≡ j.attempts) × ((f j).max_attempts ≡ j.max_attempts))
    → work_left (update q f table) ≡ work_left table
unfolding work_left update
work_left-update q f [] same = refl
work_left-update q f (j ∷ js) same = elim (Bool-cases (q j)) [
  | inl e ↦ rw e (rw ((same j).0, (same j).1, work_left-update q f js same) refl)
  | inr e ↦ rw e (ap (λ n. j.max_attempts - j.attempts + n) (work_left-update q f js same))
]

pub work_left-complete_outbox :
    (job_id worker_id : String) (now : ℕ) (table : List Job)
    → work_left (complete_outbox job_id worker_id now table).0 ≡ work_left table
unfolding complete_outbox completed
work_left-complete_outbox job_id worker_id now table =
    work_left-update (is_locked_for job_id worker_id) (completed now) table (λ j. (refl, refl))

pub work_left-retry_outbox :
    (job_id worker_id error : String) (delay now : ℕ) (table : List Job)
    → work_left (retry_outbox job_id worker_id error delay now table).0 ≡ work_left table
unfolding retry_outbox retried
work_left-retry_outbox job_id worker_id error delay now table =
    elim (Option-cases (first (has_job_id job_id) table)) [
      | inl e ↦ rw (e, retry_outbox) refl
      | inr (row, e) ↦
          rw (e, retry_outbox)
            (work_left-update (is_locked_for job_id worker_id) (retried _ _ _) table
              (λ j. (refl, refl)))
    ]

locked_le :
    (q : Job → Bool) (worker_id : String) (now : ℕ) (table : List Job)
    → work_left (update q (locked worker_id now) table) ≤ work_left table
unfolding work_left update locked
locked_le q worker_id now [] = omega arith
locked_le q worker_id now (j ∷ js) = elim (Bool-cases (q j)) [
  | inl e ↦ rw e (omega (arith, locked_le q worker_id now js))
  | inr e ↦ rw e (omega (arith, locked_le q worker_id now js))
]

ready_attempts :
    (now lease_seconds : ℕ) (j : Job)
    → is_ready now lease_seconds j ≡ true
    → j.attempts < j.max_attempts
unfolding is_ready
ready_attempts now lease_seconds j h = ground arith

-- Locking the chosen job uses up an attempt.
locked_lt :
    (worker_id : String) (now lease_seconds : ℕ) (table : List Job) (j : Job)
    → next_job now lease_seconds table ≡ some j
    → work_left (update (has_job_id j.id) (locked worker_id now) table) < work_left table
unfolding work_left update has_job_id locked
locked_lt worker_id now lease_seconds [] j h = unfold next_job in ground arith
locked_lt worker_id now lease_seconds (x ∷ xs) j h =
    elim (next_job-cases now lease_seconds x xs j h) [
      | inl (e, ready) ↦
          let chosen : has_job_id j.id x ≡ true = rw (← e) (eq_self x.id) in
          rw chosen (
            omega (
              arith,
              ready_attempts now lease_seconds x ready,
              locked_le (has_job_id j.id) worker_id now xs,
            ))
      | inr later ↦
          let rest = locked_lt worker_id now lease_seconds xs j later in
          elim (Bool-cases (has_job_id j.id x)) [
            | inl e ↦ rw e (omega (arith, rest))
            | inr e ↦ rw e (omega (arith, rest))
          ]
    ]

-- One if there is something, none if not.
abbrev pub one_if_some : {A : Type 0} → Option A → ℕ
one_if_some none = 0
one_if_some (some a) = 1

at_most_one : {A : Type 0} (o : Option A) (m n : ℕ) → m < n → one_if_some o + m ≤ n
at_most_one none m n h = omega arith
at_most_one (some a) m n h = omega arith

pub work_left-claim_outbox :
    (worker_id : String) (lease_seconds now : ℕ) (table : List Job)
    → one_if_some (claim_outbox worker_id lease_seconds now table).1
        + work_left (claim_outbox worker_id lease_seconds now table).0
      ≤ work_left table
unfolding claim_outbox
work_left-claim_outbox worker_id lease_seconds now table =
    elim (Option-cases (next_job now lease_seconds table)) [
      | inl e ↦ rw (e, claim_outbox) (omega arith)
      | inr (j, e) ↦
          rw (e, claim_outbox)
            (at_most_one
              (first (has_job_id j.id) (update (has_job_id j.id) (locked worker_id now) table)) _ _
              (locked_lt worker_id now lease_seconds table j e))
    ]

locked_found :
    (worker_id : String) (lease_seconds now : ℕ) (table : List Job) (j : Job)
    → KeysUnique table
    → next_job now lease_seconds table ≡ some j
    → first (has_job_id j.id) (claim_outbox worker_id lease_seconds now table).0
      ≡ some (locked worker_id now j)
unfolding claim_outbox
locked_found worker_id lease_seconds now table j unique e =
    let (ready, found) = next_job-ready now lease_seconds table j unique e in
    rw (e, claim_outbox)
      (first-update-some (has_job_id j.id) (has_job_id j.id) (locked worker_id now) table j
          (λ x. unfold has_job_id locked in refl) found
        ∙ (unfold has_job_id in rw (eq_self j.id) refl))

locked_for :
    (worker_id : String) (now : ℕ) (j : Job)
    → is_locked_for j.id worker_id (locked worker_id now j) ≡ true
unfolding is_locked_for locked has_job_id
locked_for worker_id now j = rw (eq_self j.id, eq_self worker_id) refl

-- The job that was claimed is completed for its worker.
pub complete_claimed :
    (worker_id : String) (lease_seconds now : ℕ) (table : List Job) (j : Job)
    → KeysUnique table
    → next_job now lease_seconds table ≡ some j
    → (row : Job) × (first
          (has_job_id j.id)
          (complete_outbox j.id worker_id now (claim_outbox worker_id lease_seconds now table).0).0
        ≡ some row)
      × (row.status ≡ "completed")
unfolding complete_outbox completed
complete_claimed worker_id lease_seconds now table j unique e = (
  completed now (locked worker_id now j),
  first-update-some (has_job_id j.id) (is_locked_for j.id worker_id) (completed now)
        (claim_outbox worker_id lease_seconds now table).0 (locked worker_id now j)
        (λ x. unfold has_job_id completed in refl)
        (locked_found worker_id lease_seconds now table j unique e)
      ∙ rw (locked_for worker_id now j) refl,
  refl,
)
