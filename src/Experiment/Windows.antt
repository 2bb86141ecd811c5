-- ===== src/Experiment/Windows.antt =====
-- The windows of the TestSegments under the requests of the manager, in time.
pub mod Order
pub mod Invariant
pub mod Tables
pub mod Steps
pub mod Closing
pub mod Reach
