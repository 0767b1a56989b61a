-- ===== src/Gateway.antt =====
-- src/sentinelgate/service.py: the gateway that evaluates, executes, simulates and replays calls.
pub mod World
pub mod Contexts
pub mod Guards
pub mod Finalize
pub mod Decide
pub mod Authorized
pub mod Execute
pub mod Replay
pub mod Frame
pub mod Ledger
pub mod Once
pub mod Reach
pub mod Simulation
pub mod Grants
pub mod Effects
pub mod Counts
pub mod Integrity
