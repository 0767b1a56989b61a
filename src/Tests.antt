-- ===== src/Tests.antt =====
-- Concrete inputs at which the theorems are applied.
mod Data
mod Gateway
mod Policy
mod Storage
mod Integrity
mod Codec
mod Provenance
mod Derived
mod Worker
mod Watch
