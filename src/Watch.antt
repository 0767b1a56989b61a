-- ===== src/Watch.antt =====
-- SentinelGate Watch, src/sentinelgate/watch.py and its tables.
pub mod Patterns
pub mod Common
pub mod Cycle
pub mod Analysis
pub mod Service
pub mod Observe
pub mod Isolation
pub mod Accounts
pub mod Refused
