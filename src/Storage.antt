-- ===== src/Storage.antt =====
-- src/sentinelgate/storage.py, table by table.
pub mod Approvals
pub mod Limits
pub mod Executions
pub mod Audit
pub mod Agents
pub mod Containment
pub mod Incidents
pub mod Outbox
pub mod Lineage
pub mod Mcp
pub mod Snapshots
pub mod Watch
