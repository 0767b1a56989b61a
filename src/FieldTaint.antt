-- ===== src/FieldTaint.antt =====
-- src/sentinelgate/field_taint.py: JSON pointers, the leaves of a value and their taint.
pub mod Pointer
pub mod Escape
pub mod Resolve
pub mod Combine
