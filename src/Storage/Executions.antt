-- ===== src/Storage/Executions.antt =====
-- `claim_execution` and `finish_execution` of src/sentinelgate/storage.py over the table
-- `executions`, whose primary key is the request's identifier.
pub mod Once
use sentinelgate.Prelude.{
  ℕ, String, Bool, true, false, Option, none, some, List, [], ◌∷◌, ◌++◌, ◌==◌, any, update,
  if◌then◌else◌,
}

pub record Execution : Type 0 where
  pub request_id : String
  pub request_hash : String
  pub status : String
  pub started_at : ℕ
  pub completed_at : Option ℕ

abbrev pub is_request : String → Execution → Bool
is_request request_id e = e.request_id == request_id

unfoldable pub running : String → String → ℕ → Execution
running request_id digest now = record {
  request_id = request_id;
  request_hash = digest;
  status = "running";
  started_at = now;
  completed_at = none;
}

-- An insert that meets the primary key raises the integrity error, which the code turns to False.
unfoldable pub claim_execution : String → String → ℕ → List Execution → List Execution × Bool
claim_execution request_id digest now table =
    if any (is_request request_id) table
    then (table, false)
    else (table ++ running request_id digest now ∷ [], true)

unfoldable pub finished : String → ℕ → Execution → Execution
finished status now e = record e { status = status; completed_at = some now }

unfoldable pub finish_execution : String → String → ℕ → List Execution → List Execution
unfolding finished
finish_execution request_id status now = update (is_request request_id) (finished status now)
