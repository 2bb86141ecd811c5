-- ===== src/Relay.antt =====
-- The image relay (image_relay/).
pub mod Producer
pub mod Protocol
pub mod Viewers
mod Tests
