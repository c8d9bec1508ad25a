-- ===== src/Physics.antt =====
-- scripts/check-demo-physics.py: the demo's values against what the realm's arithmetic allows.
pub mod Scan
pub mod Entries
pub mod Rules
pub mod Tests
