-- ===== src/Storage/Audit.antt =====
-- The audit chain of src/sentinelgate/storage.py: `append_audit` and `verify_audit_chain` over the
-- table `audit_events`.
pub mod Chain
pub mod Tamper
use Prim.Native.Nat.{compare as compare_times, Ordering}
use Prim.Native.String.{compare}
use sentinelgate.Prelude.{
  ℕ, ◌+◌, String, Bool, true, false, not, ◌&&◌, Option, none, some, List, [], ◌∷◌, ◌++◌, ◌==◌, leb,
  cat, if◌then◌else◌,
}
use sentinelgate.Runtime.{Runtime}

pub record AuditRow : Type 0 where
  pub id : String
  pub created_at : ℕ
  pub event_type : String
  pub payload : String
  pub previous_hash : String
  pub event_hash : String

-- `ORDER BY created_at, id`: the first row comes before the second.
unfoldable pub is_before : AuditRow → AuditRow → Bool
is_before a b = elim (compare_times a.created_at b.created_at) [
  | Ordering.lt ↦ true
  | Ordering.eq ↦ elim (compare a.id b.id) [ Ordering.lt ↦ true | _ ↦ false ]
  | Ordering.gt ↦ false
]

-- `ORDER BY created_at DESC, id DESC LIMIT 1`
unfoldable pub last_event : List AuditRow → Option AuditRow
unfolding is_before
last_event [] = none
last_event (x ∷ xs) = elim (last_event xs) [
  | none ↦ some x
  | some y ↦ if is_before y x then some x else some y
]

insert_event : AuditRow → List AuditRow → List AuditRow
unfolding is_before
insert_event x [] = x ∷ []
insert_event x (y ∷ ys) = if is_before y x then y ∷ insert_event x ys else x ∷ y ∷ ys

-- `ORDER BY created_at, id`
unfoldable pub sorted_events : List AuditRow → List AuditRow
unfolding insert_event
sorted_events [] = []
sorted_events (x ∷ xs) = insert_event x (sorted_events xs)

abbrev pub genesis : String
genesis = "GENESIS"

module _ (runtime : Runtime) (key : String) where
  -- The text that is signed: the fields, joined by bars.
  unfoldable pub audit_message : String → ℕ → String → String → String → String
  audit_message event_id created event_type payload previous = cat event_id (
      cat "|" (
        cat (runtime.isoformat created)
          (cat "|" (cat event_type (cat "|" (cat payload (cat "|" previous)))))))

  unfoldable pub audit_digest : String → ℕ → String → String → String → String
  unfolding audit_message
  audit_digest event_id created event_type payload previous =
      runtime.hmac_sha256 key (audit_message event_id created event_type payload previous)

  -- The time of a new event: later than that of the last one, whatever the clock says.
  unfoldable pub event_time : Option AuditRow → ℕ → ℕ
  event_time none now = now
  event_time (some row) now = if leb now row.created_at then row.created_at + 1 else now

  unfoldable pub previous_of : Option AuditRow → String
  previous_of none = genesis
  previous_of (some row) = row.event_hash

  -- The row that is written after the last one.
  unfoldable pub audit_row : String → String → String → ℕ → Option AuditRow → AuditRow
  unfolding event_time previous_of
  audit_row event_id event_type canonical now row =
      let created = event_time row now in
      let previous = previous_of row in
      record {
        id = event_id;
        created_at = created;
        event_type = event_type;
        payload = canonical;
        previous_hash = previous;
        event_hash = audit_digest event_id created event_type canonical previous;
      }

  unfoldable pub append_audit : String → String → String → ℕ → List AuditRow → List AuditRow
  append_audit event_id event_type canonical now table =
      table ++ audit_row event_id event_type canonical now (last_event table) ∷ []

  -- The loop of `verify_audit_chain`.
  unfoldable pub chain_from : String → List AuditRow → Bool
  chain_from previous [] = true
  chain_from previous (row ∷ rows) =
      if not (row.previous_hash == previous)
      then false
      else if not
          (audit_digest row.id row.created_at row.event_type row.payload previous == row.event_hash)
      then false
      else chain_from row.event_hash rows

  unfoldable pub verify_audit_chain : List AuditRow → Bool
  unfolding chain_from
  verify_audit_chain table = chain_from genesis (sorted_events table)
