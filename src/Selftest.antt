-- ===== src/Selftest.antt =====
-- scripts/selftest-checks.py: an arm plants an edit in the repository, runs a guard on it and puts
-- the file back; `coverage` and `vacuity` judge the arms themselves. The two audits of the call
-- sites are in `Exprs`, `Anchors` and `Vacuity`.
pub mod Repo
pub mod Arms
pub mod Session
pub mod Exprs
pub mod Anchors
pub mod Vacuity
pub mod Run
pub mod Moved
pub mod Restored
pub mod Sensitive
pub mod Exercised
pub mod Clean
pub mod Planted
pub mod Tests
