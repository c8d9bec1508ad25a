-- ===== src/Scenario.antt =====
-- scripts/scenario.py: a chain story that is built once and emitted for two targets.
pub mod Step
pub mod Literal
pub mod Builder
pub mod Verbs
pub mod Story
pub mod Acts
pub mod Quote
pub mod Bech32
pub mod Emit
pub mod Reads
pub mod Command
pub mod Guards
pub mod Clock
pub mod Latch
pub mod Sound
pub mod Tests
