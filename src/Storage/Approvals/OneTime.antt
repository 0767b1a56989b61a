-- ===== src/Storage/Approvals/OneTime.antt =====
-- `consume_approval` of storage.py among the other operations on approvals.
use mathlib.Core.Option
use sentinelgate.Prelude.{
  ℕ, ◌+◌, ◌≤◌, String, ◌≡◌, refl, ap, ◌≢◌, Bool, true, false, some, List, [], ◌∷◌, ◌++◌, arith,
  ◌==◌, ◌∙◌, ◌⊎◌, eq_iff, eq_self, first, update, Option-cases, Bool-cases, inl, inr, if◌then◌else◌,
}
use sentinelgate.Models.{ToolCallRequest, AgentPrincipal}
use sentinelgate.Storage.Approvals.{
  ApprovalRow, Fetched, missing, found, integrity_error, has_id, is_open, transition,
  create_approval, resolve_approval, consume_approval, consumed_row, resolved_row,
  approval_from_row,
}

-- An update that keeps identifiers is seen by the next query for the same identifier.
first-update :
    (approval_id : String) (write : ApprovalRow → ApprovalRow) (table : List ApprovalRow)
    → ((row : ApprovalRow) → (write row).id ≡ row.id)
    → first (has_id approval_id) (update (has_id approval_id) write table)
      ≡ Option.map write (first (has_id approval_id) table)
unfolding first update
first-update approval_id write [] keeps = refl
first-update approval_id write (x ∷ xs) keeps =
    ground (arith, keeps x, first-update approval_id write xs keeps)

-- ... and a query for another identifier does not see it.
first-update_ne :
    (j approval_id : String) (write : ApprovalRow → ApprovalRow) (table : List ApprovalRow)
    → ((row : ApprovalRow) → (write row).id ≡ row.id)
    → j ≢ approval_id
    → first (has_id j) (update (has_id approval_id) write table) ≡ first (has_id j) table
unfolding first update
first-update_ne j approval_id write [] keeps ne = refl
first-update_ne j approval_id write (x ∷ xs) keeps ne = ground (
  arith,
  keeps x,
  eq_iff x.id j,
  eq_iff x.id approval_id,
  first-update_ne j approval_id write xs keeps ne,
)

first-append :
    (approval_id : String) (xs ys : List ApprovalRow) (row : ApprovalRow)
    → first (has_id approval_id) xs ≡ some row
    → first (has_id approval_id) (xs ++ ys) ≡ some row
unfolding first
first-append approval_id [] ys row h = ground arith
first-append approval_id (x ∷ xs) ys row h = ground (arith, first-append approval_id xs ys row)

-- The calls that write the table, each with the time at which it runs.
pub data Operation : Type 0 where
  create : String → ToolCallRequest → String → AgentPrincipal → ℕ → ℕ → Operation
  resolve : String → String → String → String → ℕ → Operation
  consume : String → ℕ → Operation

unfoldable pub apply : Operation → List ApprovalRow → List ApprovalRow
apply (create uuid request digest principal ttl now) table =
    (create_approval uuid request digest principal ttl now table).0
apply (resolve approval_id status reviewer note now) table =
    (resolve_approval approval_id status reviewer note now table).0
apply (consume approval_id now) table = (consume_approval approval_id now table).0

-- The call got a row, so that `execute_approved` may go on.
unfoldable pub is_row : Fetched → Bool
is_row missing = false
is_row (found row) = true
is_row integrity_error = true

-- 1 for a successful `consume_approval` of the identifier.
unfoldable pub wins : String → Operation → List ApprovalRow → ℕ
unfolding is_row
wins approval_id (consume j now) table =
    if (j == approval_id) then (if is_row (consume_approval j now table).1 then 1 else 0) else 0
wins approval_id _ table = 0

unfoldable pub total_wins : String → List Operation → List ApprovalRow → ℕ
unfolding wins apply
total_wins approval_id [] table = 0
total_wins approval_id (op ∷ ops) table =
    wins approval_id op table + total_wins approval_id ops (apply op table)

abbrev Consumed : String → List ApprovalRow → Type 0
Consumed approval_id table =
    (row : ApprovalRow) × (first (has_id approval_id) table ≡ some row) × (row.status ≡ "consumed")

-- What a guarded update does, by what the query finds.
transition-open :
    (wanted approval_id : String) (now : ℕ) (write : ApprovalRow → ApprovalRow)
    (table : List ApprovalRow) (row : ApprovalRow)
    → first (has_id approval_id) table ≡ some row
    → transition wanted approval_id now write table ≡ (
        if is_open wanted now row
        then (update (has_id approval_id) write table, approval_from_row (write row))
        else (table, missing))
unfolding transition
transition-open wanted approval_id now write table row e = rw (e, transition)

closed :
    (wanted : String) (now : ℕ) (row : ApprovalRow)
    → row.status ≢ wanted
    → is_open wanted now row ≡ false
unfolding is_open
closed wanted now row ne = ground (arith, eq_iff row.status wanted)

consumed-ne-pending : ◌≢◌ {A = String} "consumed" "pending"
consumed-ne-pending = ground (arith, eq_iff "consumed" "pending")

consumed-ne-approved : ◌≢◌ {A = String} "consumed" "approved"
consumed-ne-approved = ground (arith, eq_iff "consumed" "approved")

module _ (wanted : String) (now : ℕ) (write : ApprovalRow → ApprovalRow) (table : List ApprovalRow)
    (keeps : (row : ApprovalRow) → (write row).id ≡ row.id) where
  -- On a row in another state a guarded update does nothing.
  transition-closed :
      (approval_id : String) (row : ApprovalRow)
      → first (has_id approval_id) table ≡ some row
      → row.status ≢ wanted
      → transition wanted approval_id now write table ≡ (table, missing)
  transition-closed approval_id row e ne =
      rw (transition-open wanted approval_id now write table row e, closed wanted now row ne)

  -- A guarded update for one identifier hides nothing of another.
  first-transition_ne :
      (i j : String)
      → i ≢ j
      → first (has_id i) (transition wanted j now write table).0 ≡ first (has_id i) table
  unfolding transition
  first-transition_ne i j ne = ground (arith, first-update_ne i j write table keeps ne)

  -- A guarded update leaves a consumed row alone, whichever row it is for.
  transition-Consumed :
      (j approval_id : String)
      → ◌≢◌ {A = String} "consumed" wanted
      → Consumed approval_id table
      → Consumed approval_id (transition wanted j now write table).0
  transition-Consumed j approval_id ne (row, e, s) = elim (Bool-cases (approval_id == j)) [
    | inl same ↦ (
      row,
      rw (← (eq_iff approval_id j).0 same, transition-closed approval_id row e (rw s ne)) e,
      s,
    )
    | inr other ↦
        (row, first-transition_ne approval_id j (λ p. ground (arith, eq_iff approval_id j)) ∙ e, s)
  ]

apply-Consumed :
    (op : Operation) (approval_id : String) (table : List ApprovalRow)
    → Consumed approval_id table
    → Consumed approval_id (apply op table)
unfolding apply
apply-Consumed (create uuid request digest principal ttl now) approval_id table (row, e, s) =
    (row, unfold create_approval in first-append approval_id table _ row e, s)
apply-Consumed (resolve j status reviewer note now) approval_id table c =
    unfold resolve_approval resolved_row in
    transition-Consumed "pending" now _ table (λ row. refl) j approval_id consumed-ne-pending c
apply-Consumed (consume j now) approval_id table c =
    unfold consume_approval consumed_row in
    transition-Consumed "approved" now _ table (λ row. refl) j approval_id consumed-ne-approved c

consume-Consumed :
    (approval_id : String) (now : ℕ) (table : List ApprovalRow)
    → Consumed approval_id table
    → consume_approval approval_id now table ≡ (table, missing)
unfolding consume_approval
consume-Consumed approval_id now table (row, e, s) =
    transition-closed "approved" now consumed_row table (λ r. unfold consumed_row in refl)
      approval_id row e (rw s consumed-ne-approved)

-- A consumed row is not consumed again.
wins-Consumed :
    (op : Operation) (approval_id : String) (table : List ApprovalRow)
    → Consumed approval_id table
    → wins approval_id op table ≡ 0
unfolding wins
wins-Consumed (create uuid request digest principal ttl now) approval_id table c = refl
wins-Consumed (resolve j status reviewer note now) approval_id table c = refl
wins-Consumed (consume j now) approval_id table (row, e, s) = elim (Bool-cases (j == approval_id)) [
  | inr other ↦ rw other
  | inl same ↦
      rw
        ((eq_iff j approval_id).0 same, consume-Consumed approval_id now table (row, e, s), eq_self)
]

total_wins-Consumed :
    (ops : List Operation) (approval_id : String) (table : List ApprovalRow)
    → Consumed approval_id table
    → total_wins approval_id ops table ≡ 0
unfolding total_wins
total_wins-Consumed [] approval_id table c = refl
total_wins-Consumed (op ∷ ops) approval_id table c = omega (
  arith,
  wins-Consumed op approval_id table c,
  total_wins-Consumed ops approval_id (apply op table) (apply-Consumed op approval_id table c),
)

is_row-approval_from_row : (row : ApprovalRow) → is_row (approval_from_row row) ≡ true
unfolding is_row approval_from_row
is_row-approval_from_row row = ground arith

consume_once :
    (approval_id : String) (now : ℕ) (table : List ApprovalRow)
    → let (after, got) = consume_approval approval_id now table in
      ◌≡◌ {A = ℕ} (if is_row got then 1 else 0) 0
      ⊎ (◌≡◌ {A = ℕ} (if is_row got then 1 else 0) 1 × Consumed approval_id after)
unfolding consume_approval
consume_once approval_id now table = elim (Option-cases (first (has_id approval_id) table)) [
  | inl nothing ↦ inl (unfold transition is_row in rw (nothing, transition))
  | inr (row, e) ↦ elim (Bool-cases (is_open "approved" now row)) [
    | inr shut ↦ inl (
        rw (transition-open "approved" approval_id now consumed_row table row e, shut)
          (unfold is_row in refl))
    | inl open_row ↦ inr (
        rw (transition-open "approved" approval_id now consumed_row table row e, open_row)
          (
            rw is_row-approval_from_row,
            (
              consumed_row row,
              first-update approval_id consumed_row table (λ r. unfold consumed_row in refl)
                  ∙ ap (Option.map consumed_row) e,
              unfold consumed_row in refl,
            ),
          ))
  ]
]

-- One call wins at most once, and a win leaves a consumed row.
wins-then-Consumed :
    (op : Operation) (approval_id : String) (table : List ApprovalRow)
    → (wins approval_id op table ≡ 0)
      ⊎ ((wins approval_id op table ≡ 1) × Consumed approval_id (apply op table))
unfolding wins apply
wins-then-Consumed (create uuid request digest principal ttl now) approval_id table = inl refl
wins-then-Consumed (resolve j status reviewer note now) approval_id table = inl refl
wins-then-Consumed (consume j now) approval_id table = elim (Bool-cases (j == approval_id)) [
  | inr other ↦ inl (rw other)
  | inl same ↦ rw ((eq_iff j approval_id).0 same, eq_self) (consume_once approval_id now table)
]

-- Whatever the calls and their times, over any table, an approval is consumed at most once.
pub total_wins-le-one :
    (approval_id : String) (ops : List Operation) (table : List ApprovalRow)
    → total_wins approval_id ops table ≤ 1
unfolding total_wins
total_wins-le-one approval_id [] table = omega arith
total_wins-le-one approval_id (op ∷ ops) table = elim (wins-then-Consumed op approval_id table) [
  | inl lost ↦ omega (arith, lost, total_wins-le-one approval_id ops (apply op table))
  | inr (won, c) ↦ omega (arith, won, total_wins-Consumed ops approval_id (apply op table) c)
]
