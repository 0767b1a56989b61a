-- ===== src/Storage/Executions/Once.antt =====
-- `claim_execution` of storage.py among the other operations on executions.
use sentinelgate.Prelude.{
  ℕ, ◌+◌, ◌≤◌, String, ◌≡◌, refl, ◌⊎◌, inl, inr, true, List, [], ◌∷◌, arith, ◌==◌, eq_iff, eq_self,
  any, any-append, any-append_one, update, Bool-cases, if◌then◌else◌,
}
use sentinelgate.Storage.Executions.{
  Execution, is_request, claim_execution, running, finished, finish_execution,
}

-- The calls that write the table.
pub data Operation : Type 0 where
  claim : String → String → ℕ → Operation
  finish : String → String → ℕ → Operation

unfoldable pub apply : Operation → List Execution → List Execution
apply (claim request_id digest now) table = (claim_execution request_id digest now table).0
apply (finish request_id status now) table = finish_execution request_id status now table

-- 1 for a successful claim of the request.
unfoldable pub claims : String → Operation → List Execution → ℕ
claims request_id (claim j digest now) table =
    if j == request_id then (if (claim_execution j digest now table).1 then 1 else 0) else 0
claims request_id (finish j status now) table = 0

unfoldable pub total_claims : String → List Operation → List Execution → ℕ
unfolding claims apply
total_claims request_id [] table = 0
total_claims request_id (op ∷ ops) table =
    claims request_id op table + total_claims request_id ops (apply op table)

pub any-update :
    (request_id j status : String) (now : ℕ) (table : List Execution)
    → any (is_request request_id) (update (is_request j) (finished status now) table)
      ≡ any (is_request request_id) table
unfolding any update finished
any-update request_id j status now [] = refl
any-update request_id j status now (e ∷ es) = ground (arith, any-update request_id j status now es)

-- A known request stays known.
apply_known :
    (op : Operation) (request_id : String) (table : List Execution)
    → any (is_request request_id) table ≡ true
    → any (is_request request_id) (apply op table) ≡ true
unfolding apply claim_execution finish_execution
apply_known (claim j digest now) request_id table h = grind (arith, any-append)
apply_known (finish j status now) request_id table h =
    ground (arith, any-update request_id j status now table)

claims_known :
    (op : Operation) (request_id : String) (table : List Execution)
    → any (is_request request_id) table ≡ true
    → claims request_id op table ≡ 0
unfolding claims claim_execution
claims_known (claim j digest now) request_id table h = ground (arith, eq_iff j request_id)
claims_known (finish j status now) request_id table h = refl

total_claims_known :
    (ops : List Operation) (request_id : String) (table : List Execution)
    → any (is_request request_id) table ≡ true
    → total_claims request_id ops table ≡ 0
unfolding total_claims
total_claims_known [] request_id table h = refl
total_claims_known (op ∷ ops) request_id table h = omega (
  arith,
  claims_known op request_id table h,
  total_claims_known ops request_id (apply op table) (apply_known op request_id table h),
)

claim_then_known :
    (request_id digest : String) (now : ℕ) (table : List Execution)
    → any (is_request request_id) (claim_execution request_id digest now table).0 ≡ true
unfolding claim_execution running
claim_then_known request_id digest now table = ground (
  arith,
  any-append_one (is_request request_id) table (running request_id digest now),
  eq_self request_id,
)

-- A claim wins at most once, and then the request is known.
claims_once :
    (op : Operation) (request_id : String) (table : List Execution)
    → (claims request_id op table ≡ 0)
      ⊎ ((claims request_id op table ≡ 1) × (any (is_request request_id) (apply op table) ≡ true))
unfolding claims apply claim_execution
claims_once (claim j digest now) request_id table = elim (Bool-cases (j == request_id)) [
  | inr other ↦ inl (rw other)
  | inl same ↦
      rw ((eq_iff j request_id).0 same, eq_self)
        (elim (Bool-cases (any (is_request request_id) table)) [
          | inl known ↦ inl (rw (known, claim_execution))
          | inr fresh ↦
              inr (rw (fresh, claim_execution), claim_then_known request_id digest now table)
        ])
]
claims_once (finish j status now) request_id table = inl refl

-- Whatever the calls, in any order and over any table, at most one claim of a request succeeds.
pub total_claims-le-one :
    (request_id : String) (ops : List Operation) (table : List Execution)
    → total_claims request_id ops table ≤ 1
unfolding total_claims
total_claims-le-one request_id [] table = omega arith
total_claims-le-one request_id (op ∷ ops) table = elim (claims_once op request_id table) [
  | inl lost ↦ omega (arith, lost, total_claims-le-one request_id ops (apply op table))
  | inr (won, known) ↦ omega (arith, won, total_claims_known ops request_id (apply op table) known)
]
