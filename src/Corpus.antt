-- ===== src/Corpus.antt =====
-- scripts/check-mutation-anchors.py: the guard of the mutation corpus.
pub mod Makefile
pub mod Rows
pub mod Batch
pub mod Guard
pub mod Fixtures
pub mod Tests
