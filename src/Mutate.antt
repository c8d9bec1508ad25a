-- ===== src/Mutate.antt =====
-- scripts/mutate.py: break the realm on purpose and see whether the tests object.
pub mod Tables
pub mod Output
pub mod Sorted
pub mod Suite
pub mod Verdict
pub mod Batch
pub mod Tests
