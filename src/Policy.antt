-- ===== src/Policy.antt =====
-- src/sentinelgate/policy.py: the deterministic authorization of a tool call.
pub mod Config
pub mod Verdict
pub mod Fields
pub mod Evaluate
pub mod Checks
pub mod FieldSpec
pub mod Passed
pub mod Allow
