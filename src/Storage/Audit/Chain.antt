-- ===== src/Storage/Audit/Chain.antt =====
-- `append_audit` and `verify_audit_chain` of storage.py.
use sentinelgate.Prelude.{
  ℕ, ◌<◌, String, ◌≡◌, refl, true, false, Option, none, some, List, [], ◌∷◌, ◌++◌, arith,
  Option-cases, inl, inr, eq_self, All, All-append,
}
use sentinelgate.Runtime.{Runtime}
use sentinelgate.Storage.Audit.{
  AuditRow, is_before, last_event, insert_event, sorted_events, genesis, audit_row, append_audit,
  chain_from, verify_audit_chain,
}

-- The rows stand in the order in which they were written, each later than the one before.
abbrev pub Ascending : List AuditRow → Type 0
Ascending [] = Unit
Ascending (x ∷ xs) = All (λ y. x.created_at < y.created_at) xs × Ascending xs

is_before_later : (x y : AuditRow) → x.created_at < y.created_at → is_before y x ≡ false
unfolding is_before
is_before_later x y h = ground arith

insert_event-first :
    (x : AuditRow) (xs : List AuditRow)
    → All (λ y. x.created_at < y.created_at) xs
    → insert_event x xs ≡ x ∷ xs
unfolding insert_event
insert_event-first x [] h = refl
insert_event-first x (y ∷ ys) h = rw (is_before_later x y h.0)

sorted_events-Ascending : (xs : List AuditRow) → Ascending xs → sorted_events xs ≡ xs
unfolding sorted_events
sorted_events-Ascending [] h = refl
sorted_events-Ascending (x ∷ xs) h =
    rw (sorted_events-Ascending xs h.1) (insert_event-first x xs h.0)

-- The last row of a list in order.
unfoldable pub final : List AuditRow → Option AuditRow
final [] = none
final (x ∷ xs) = elim (final xs) [ none ↦ some x | some y ↦ some y ]

final-later :
    (x : AuditRow) (xs : List AuditRow) (y : AuditRow)
    → All (λ z. x.created_at < z.created_at) xs
    → final xs ≡ some y
    → x.created_at < y.created_at
unfolding final
final-later x [] y h e = ground arith
final-later x (z ∷ zs) y h e = ground (arith, final-later x zs y h.1)

last_event-Ascending : (xs : List AuditRow) → Ascending xs → last_event xs ≡ final xs
unfolding last_event final
last_event-Ascending [] h = refl
last_event-Ascending (x ∷ xs) h = elim (Option-cases (final xs)) [
  | inl nothing ↦ rw (last_event-Ascending xs h.1, nothing)
  | inr (y, e) ↦ rw (last_event-Ascending xs h.1, e, is_before_later x y (final-later x xs y h.0 e))
]

Ascending-append_one :
    (xs : List AuditRow) (row : AuditRow)
    → Ascending xs
    → ((y : AuditRow) → final xs ≡ some y → y.created_at < row.created_at)
    → Ascending (xs ++ row ∷ [])
unfolding final
Ascending-append_one [] row h later = (tt, tt)
Ascending-append_one (x ∷ xs) row h later = elim (Option-cases (final xs)) [
  | inl nothing ↦ (
    All-append _ xs (row ∷ []) h.0 (later x (rw nothing), tt),
    Ascending-append_one xs row h.1 (λ y e. cc (nothing, e)),
  )
  | inr (z, last) ↦
      let z_row = later z (rw last) in
      (
        All-append _ xs (row ∷ []) h.0 (omega (arith, final-later x xs z h.0 last, z_row), tt),
        Ascending-append_one xs row h.1 (λ y e. later y (rw e)),
      )
]

module _ (runtime : Runtime) (key : String) where
  -- The hash that a row after `xs` must name, from `previous` on.
  abbrev tip : String → Option AuditRow → String
  tip previous none = previous
  tip previous (some y) = y.event_hash

  chain_from-append :
      (previous : String) (xs : List AuditRow) (row : AuditRow)
      → chain_from runtime key previous xs ≡ true
      → chain_from runtime key (tip previous (final xs)) (row ∷ []) ≡ true
      → chain_from runtime key previous (xs ++ row ∷ []) ≡ true
  unfolding chain_from final
  chain_from-append previous [] row h k = k
  chain_from-append previous (x ∷ xs) row h k =
      ground (arith, chain_from-append x.event_hash xs row)

  audit_row-later :
      (event_id event_type canonical : String) (now : ℕ) (y : AuditRow)
      → y.created_at < (audit_row runtime key event_id event_type canonical now (some y)).created_at
  unfolding audit_row
  audit_row-later event_id event_type canonical now y = ground arith

  append_audit-Ascending :
      (event_id event_type canonical : String) (now : ℕ) (xs : List AuditRow)
      → Ascending xs
      → Ascending (append_audit runtime key event_id event_type canonical now xs)
  unfolding append_audit
  append_audit-Ascending event_id event_type canonical now xs h =
      Ascending-append_one xs _ h (λ y e.
        rw (last_event-Ascending xs h, e) (audit_row-later event_id event_type canonical now y))

  audit_row-links :
      (event_id event_type canonical : String) (now : ℕ) (last : Option AuditRow)
      → chain_from runtime key
          (tip genesis last)
          (audit_row runtime key event_id event_type canonical now last ∷ [])
        ≡ true
  unfolding chain_from audit_row
  audit_row-links event_id event_type canonical now none = simp eq_self
  audit_row-links event_id event_type canonical now (some y) = simp eq_self

  append_audit-verifies :
      (event_id event_type canonical : String) (now : ℕ) (xs : List AuditRow)
      → Ascending xs
      → verify_audit_chain runtime key xs ≡ true
      → verify_audit_chain runtime key
          (append_audit runtime key event_id event_type canonical now xs)
        ≡ true
  unfolding verify_audit_chain
  append_audit-verifies event_id event_type canonical now xs h v =
      rw (sorted_events-Ascending _ (append_audit-Ascending event_id event_type canonical now xs h))
        (unfold append_audit in
          chain_from-append genesis xs _ (rw (sorted_events-Ascending xs h) at v) (
            rw (last_event-Ascending xs h)
              (audit_row-links event_id event_type canonical now (final xs))))

-- What a call of `append_audit` is given.
pub record Entry : Type 0 where
  pub event_id : String
  pub event_type : String
  pub canonical : String
  pub now : ℕ

unfoldable pub append_all : Runtime → String → List Entry → List AuditRow → List AuditRow
append_all runtime key [] table = table
append_all runtime key (e ∷ es) table =
    append_all runtime key es
      (append_audit runtime key e.event_id e.event_type e.canonical e.now table)

-- Appending events to a chain in order that verifies gives a chain in order that verifies, whatever
-- the events, their identifiers and the times that the clock shows, backward ones included.
pub append_all-verifies :
    (runtime : Runtime) (key : String) (es : List Entry) (xs : List AuditRow)
    → Ascending xs
    → verify_audit_chain runtime key xs ≡ true
    → Ascending (append_all runtime key es xs)
      × (verify_audit_chain runtime key (append_all runtime key es xs) ≡ true)
unfolding append_all
append_all-verifies runtime key [] xs h v = (h, v)
append_all-verifies runtime key (e ∷ es) xs h v =
    append_all-verifies runtime key es _
      (append_audit-Ascending runtime key e.event_id e.event_type e.canonical e.now xs h)
      (append_audit-verifies runtime key e.event_id e.event_type e.canonical e.now xs h v)
