-- ===== src/Lib.antt =====
-- A model of SentinelGate, the gateway in src/sentinelgate that decides whether an agent may call a
-- tool, runs the tool, and keeps the evidence, with the theorems that make it correct.
--
-- The parts and how they interact. An agent's call reaches `GatewayService` (src/sentinelgate/
-- service.py), which asks the store (storage.py) for containments, quarantines and the rate limit,
-- collects the provenance of the call, asks the policy engine (policy.py) for a verdict, lowers the
-- verdict by the MCP observations, the executor's validation and the egress rules, writes an approval
-- where a reviewer is needed, and records the decision in the audit chain. An allowed call is claimed
-- by its request identifier, its egress is reserved, and the executor is called; an approved one is
-- checked against the current policy, consumed, and run the same way.
--
-- Provenance is evidence in tokens: `TokenSigner` (identity.py) issues and decodes them,
-- `ProvenanceService` (provenance.py) attests sources and tool outputs, derives and declassifies
-- values field by field (field_taint.py), and verifies what a call presents. A worker (worker.py)
-- delivers the approvals' notifications from the store's outbox, and the manifests of MCP servers are
-- inspected (mcp_security.py) before their tools' observations let a call pass. The watch service
-- (watch.py) keeps the events of a task and reports repeated, cyclic and excessive calls.
--
-- Which file models which part:
--   Models, Json     the records and enumerations of models.py; JSON values
--   Taint            taint.py; Taint/Join: the order of classifications and trust; Taint/Within:
--                    one level of restriction within another
--   Runtime          what is taken from the Python runtime, as functions
--   FieldTaint       field_taint.py: Pointer (JSON pointers), Combine (field taint); Escape and
--                    Resolve hold the proofs
--   Security         security.py; Security/Redacted: what `redact` leaves
--   Identity         identity.py; Encoding, Signed and Accepted hold the laws and the proofs
--   Provenance       provenance.py: the claims and `attest`, Structured (`attest_structured`),
--                    ToolOutput (`derive_tool_output`), Verify (`verify_many`), Derivation
--                    (`derive_structured`, its recipes below it), Declassify (`declassify_labels`);
--                    Signed, ToolOutput/Restrictive, Derivation/Sourced and Declassify/Removed hold
--                    the proofs
--   Policy           policy.py: Config (the policy file, `tool_config`), Verdict (`_deny`), Fields
--                    (`_evaluate_field_policies`), Evaluate (`evaluate`); FieldSpec, Checks, Passed
--                    and Allow hold the proofs
--   Storage          the tables of storage.py, one module each, with the proofs below it: Approvals,
--                    Executions, Limits, Audit, Agents, Containment, Incidents, Outbox, Lineage, Mcp,
--                    Snapshots, Watch
--   Gateway          service.py: World (the state and the collaborators), Contexts (the provenance of
--                    a call), Guards (the verdicts without a write), Finalize (`_finalize`), Decide
--                    (`evaluate`), Authorized (`_execute_authorized`), Execute (`execute`,
--                    `execute_approved`, `simulate`, `available_tools`), Replay (`replay_policy`);
--                    Frame, Ledger, Once, Reach, Simulation, Grants, Effects, Integrity and
--                    Counts hold the proofs
--   McpSecurity      mcp_security.py; McpSecurity/Blocked: what a blocked tool leaves unchanged
--   Watch            watch.py: Patterns (`_most_common`, `_cycle_pattern`), Analysis (the findings of
--                    `analyze`), Service (`create_task`, `ingest`, `analyze`), Observe (the gateway's
--                    calls); Common, Cycle, Isolation, Accounts and Refused hold the
--                    proofs
--   Worker           worker.py; Drained and Delivered hold the proofs
--   Prelude          shared names and lemmas: Tests (Boolean tests), Rows (queries on tables), Text
--   Tests            a small deployment, and the theorems applied to it
--
-- A table is a list of rows, a query a selection, an update by key a map over the rows, and each
-- transaction one function from the old table to the new one: the store runs its transactions one
-- after the other under its lock. A time is a number of microseconds; ISO texts of UTC times compare
-- as their times do. A cut-off before the first microsecond is 0, which no comparison sees. The clock
-- is read once for each operation of the gateway and of the watch service; a store operation takes
-- its readings as arguments.
-- A cost is a whole number of a fixed unit, a confidence a whole number of hundredths.
-- SQL leaves open which of two rows of one time comes first: of two containments the state says it,
-- two policy snapshots stay in one fixed order. A lineage row is read as SQLite's.
-- Identifiers are the successive values of a function. Every loop of the modelled code runs over a
-- list, and is structural recursion: there is no fuel and no bound other than the code's own.
--
-- Parameters. The runtime's text functions, JSON printing and reading, base64, digests and regular
-- expressions are a record of functions (Runtime); where a theorem relies on them, it names the laws:
-- `DecimalLaws` (an index's digits read back), `CodecLaws` (base64 decodes what it encoded, pads by
-- the length and has no dot) and `ReadsBack` (JSON reads back a value it printed). Encryption at rest
-- appears as a flag that says whether a row decrypts; the worker's notifier is a function. The
-- gateway's collaborators (provenance.py, field_taint.py, security.py, executor.py, notifications.py,
-- watch.py) are a record of functions in Gateway/World: the theorems on the gateway hold for every
-- behaviour of theirs, and the calls of the executor and of the watch service are logged in the state.
--
-- Not modelled: the HTTP layer and settings, the administrators' identity, the executor's registry,
-- connectors, reports, benchmarks and demonstrations. The values that the
-- services build are not validated by pydantic again, and the bytes of a text are the text itself.
pub mod Prelude
pub mod Json
pub mod Models
pub mod Taint
pub mod Runtime
pub mod FieldTaint
pub mod Security
pub mod Identity
pub mod Provenance
pub mod Policy
pub mod Storage
pub mod Gateway
pub mod McpSecurity
pub mod Worker
pub mod Watch
pub mod Tests
