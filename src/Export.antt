-- ===== src/Export.antt =====
-- backend/export.py: the representative values and the quality check of an experiment.
mod Tests
pub mod Statistics
pub mod Groups
pub mod Rows
pub mod Summaries
pub mod Windows
pub mod Checks
pub mod Quality
pub mod Bundle
pub mod Overlap
pub mod Keys
pub mod Complete
pub mod Report
pub mod Raises
