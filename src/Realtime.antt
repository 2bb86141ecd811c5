-- ===== src/Realtime.antt =====
-- backend/realtime: the window buffer of the live view.
mod Tests
pub mod Window
pub mod Emission
pub mod Calls
pub mod Reference
