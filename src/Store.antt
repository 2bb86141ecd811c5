-- ===== src/Store.antt =====
-- backend/store.py: the SQLite store, one module for each group of tables.
pub mod Migration
pub mod Tables
pub mod Runs
pub mod Segments
pub mod Measurements
pub mod Points
pub mod Sessions
pub mod Progress
pub mod Recovery
mod Tests
