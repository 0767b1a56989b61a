-- ===== src/Storage/Lineage/Monotone.antt =====
-- `record_lineage` and `trace_summary` of storage.py: the summary before and after a further record.
use Prim.Native.Nat.{max}
use sentinelgate.Prelude.{
  ℕ, ◌≤◌, String, Bool, ◌&&◌, some, List, [], ◌∷◌, ◌++◌, ◌==◌, ◌≡◌, refl, arith, map, any, select,
  sorted_set, Bool-cases, inl, inr, if◌then◌else◌,
}
use sentinelgate.Taint.{classification_rank, trust_rank}
use sentinelgate.Taint.Join.{top_rank, rank-highest_classification, rank-least_trusted}
use sentinelgate.Storage.Lineage.{
  LineageRecord, TraceSummary, lineage_from_row, record_lineage, insert_lineage, sorted_lineage,
  list_lineage, summary_of, summarize_trace, trace_summary,
}

-- The greatest measure of the records that a test selects.
unfoldable top_of : (LineageRecord → ℕ) → (LineageRecord → Bool) → List LineageRecord → ℕ
top_of g p [] = 0
top_of g p (x ∷ xs) = max (if p x then g x else 0) (top_of g p xs)

top_of-insert :
    (g : LineageRecord → ℕ) (p : LineageRecord → Bool) (x : LineageRecord) (ys : List LineageRecord)
    → top_of g p (insert_lineage x ys) ≡ max (if p x then g x else 0) (top_of g p ys)
unfolding top_of insert_lineage
top_of-insert g p x [] = refl
top_of-insert g p x (y ∷ ys) = ground (arith, top_of-insert g p x ys)

-- The order of the records does not matter.
top_of-sorted :
    (g : LineageRecord → ℕ) (p : LineageRecord → Bool) (xs : List LineageRecord)
    → top_of g p (sorted_lineage xs) ≡ top_of g p xs
unfolding top_of sorted_lineage
top_of-sorted g p [] = refl
top_of-sorted g p (x ∷ xs) =
    omega (arith, top_of-insert g p x (sorted_lineage xs), top_of-sorted g p xs)

top_of-select :
    (g : LineageRecord → ℕ) (p q : LineageRecord → Bool) (xs : List LineageRecord)
    → top_of g p (select q xs) ≡ top_of g (λ x. q x && p x) xs
unfolding top_of select
top_of-select g p q [] = refl
top_of-select g p q (x ∷ xs) = ground (arith, top_of-select g p q xs)

top_of-append :
    (g : LineageRecord → ℕ) (p : LineageRecord → Bool) (xs ys : List LineageRecord)
    → top_of g p xs ≤ top_of g p (xs ++ ys)
unfolding top_of
top_of-append g p [] ys = omega arith
top_of-append g p (x ∷ xs) ys = omega (arith, top_of-append g p xs ys)

-- Reading a row leaves what the measure and the test ask for.
top_of-read :
    (g : LineageRecord → ℕ) (p : LineageRecord → Bool)
    → ((x : LineageRecord) → g (lineage_from_row x) ≡ g x)
    → ((x : LineageRecord) → p (lineage_from_row x) ≡ p x)
    → (xs : List LineageRecord) → top_of g p (map lineage_from_row xs) ≡ top_of g p xs
unfolding top_of
top_of-read g p measured tested [] = refl
top_of-read g p measured tested (x ∷ xs) =
    rw (measured x, tested x, top_of-read g p measured tested xs) refl

top_rank-map :
    {A : Type 0} (f : LineageRecord → A) (rank : A → ℕ) (p : LineageRecord → Bool)
    (xs : List LineageRecord)
    → top_rank rank (map f (select p xs)) ≡ top_of (λ x. rank (f x)) p xs
unfolding top_of select
top_rank-map f rank p [] = refl
top_rank-map f rank p (x ∷ xs) = ground (arith, top_rank-map f rank p xs)

-- The records of the agent in the trace, in order.
abbrev rows : String → String → String → List LineageRecord → List LineageRecord
rows tenant_id agent_id trace_id table =
    select (λ r. r.agent_id == agent_id) (list_lineage trace_id tenant_id table)

-- A measure of those records does not fall when a record is added.
rows-record_lineage :
    {A : Type 0} (f : LineageRecord → A) (rank : A → ℕ) (tenant_id agent_id trace_id : String)
    (r : LineageRecord) (table : List LineageRecord)
    → ((x : LineageRecord) → rank (f (lineage_from_row x)) ≡ rank (f x))
    → top_rank rank (map f (rows tenant_id agent_id trace_id table))
      ≤ top_rank rank (map f (rows tenant_id agent_id trace_id (record_lineage r table)))
unfolding list_lineage record_lineage lineage_from_row
rows-record_lineage f rank tenant_id agent_id trace_id r table measured =
    let g = λ (x : LineageRecord). rank (f x) in
    let p = λ (x : LineageRecord). x.agent_id == agent_id in
    let q = λ (x : LineageRecord). (x.trace_id == trace_id) && (x.tenant_id == tenant_id) in
    elim (Bool-cases (any (λ x. x.id == r.id) table)) [
      | inl known ↦ rw known (omega arith)
      | inr fresh ↦ rw fresh (
          omega (
            arith,
            top_rank-map f rank p (map lineage_from_row (sorted_lineage (select q table))),
            top_of-read g p measured (λ x. refl) (sorted_lineage (select q table)),
            top_of-sorted g p (select q table),
            top_of-select g p q table,
            top_of-append g (λ x. q x && p x) table
                (record r { labels = sorted_set r.labels } ∷ []),
            top_rank-map f rank p (
                map lineage_from_row (
                  sorted_lineage
                    (select q (table ++ record r { labels = sorted_set r.labels } ∷ [])))),
            top_of-read g p measured (λ x. refl)
                (sorted_lineage
                  (select q (table ++ record r { labels = sorted_set r.labels } ∷ []))),
            top_of-sorted g p (select q (table ++ record r { labels = sorted_set r.labels } ∷ [])),
            top_of-select g p q (table ++ record r { labels = sorted_set r.labels } ∷ []),
          ))
    ]

-- The summaries of two lists whose measures are in order.
summaries_in_order :
    (xs ys : List LineageRecord) (before : TraceSummary)
    → summary_of xs ≡ some before
    → top_rank (λ _. 1) (map (λ x. x) xs) ≤ top_rank (λ _. 1) (map (λ x. x) ys)
    → top_rank classification_rank (map (λ x. x.classification) xs)
      ≤ top_rank classification_rank (map (λ x. x.classification) ys)
    → top_rank trust_rank (map (λ x. x.trust) xs) ≤ top_rank trust_rank (map (λ x. x.trust) ys)
    → (after : TraceSummary) × (summary_of ys ≡ some after)
      × (classification_rank before.classification ≤ classification_rank after.classification)
      × (trust_rank before.trust ≤ trust_rank after.trust)
unfolding summary_of summarize_trace
summaries_in_order [] ys before e n c t = ground arith
summaries_in_order (x ∷ xs) [] before e n c t = absurd (omega arith)
summaries_in_order (x ∷ xs) (y ∷ ys) before e n c t = (
  summarize_trace y ys,
  refl,
  ground (
    arith,
    rank-highest_classification (map (λ x. x.classification) (x ∷ xs)),
    rank-highest_classification (map (λ x. x.classification) (y ∷ ys)),
  ),
  ground (
    arith,
    rank-least_trusted (map (λ x. x.trust) (x ∷ xs)),
    rank-least_trusted (map (λ x. x.trust) (y ∷ ys)),
  ),
)

-- A trace that has a summary keeps one after a further lineage record of any agent and trace, with a
-- classification that is no lower and a trust that is no better.
pub trace_summary-record_lineage :
    (tenant_id agent_id trace_id : String) (r : LineageRecord) (table : List LineageRecord)
    (before : TraceSummary)
    → trace_summary tenant_id agent_id trace_id table ≡ some before
    → (after : TraceSummary) × (trace_summary tenant_id agent_id trace_id (record_lineage r table)
        ≡ some after)
      × (classification_rank before.classification ≤ classification_rank after.classification)
      × (trust_rank before.trust ≤ trust_rank after.trust)
unfolding trace_summary lineage_from_row
trace_summary-record_lineage tenant_id agent_id trace_id r table before e =
    summaries_in_order (rows tenant_id agent_id trace_id table)
      (rows tenant_id agent_id trace_id (record_lineage r table)) before e
      (rows-record_lineage (λ x. x) (λ _. 1) tenant_id agent_id trace_id r table (λ x. refl))
      (rows-record_lineage (λ x. x.classification) classification_rank tenant_id agent_id trace_id r
        table (λ x. refl))
      (rows-record_lineage (λ x. x.trust) trust_rank tenant_id agent_id trace_id r table
        (λ x. refl))
