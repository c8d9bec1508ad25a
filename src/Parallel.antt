-- ===== src/Parallel.antt =====
-- scripts/mutate-parallel.py: a mutation batch as concurrent shards, and one verdict over them.
pub mod Shards
pub mod Report
pub mod Printed
pub mod Sections
pub mod Listed
pub mod Calm
pub mod Complete
pub mod Collect
pub mod Marks
pub mod Tests
