-- ===== src/Scenario/Emit.antt =====
-- scripts/scenario.py: the emitters, one module each.
pub mod Txtar
pub mod Accounts
pub mod Plan
pub mod Json
pub mod Genesis
pub mod Checks
