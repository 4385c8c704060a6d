-- ===== src/Bridge.antt =====
-- hysteria/auth_service.py: the HTTP bridge that Hysteria asks whether a client may connect.
pub mod Address
pub mod Message
pub mod Handler
pub mod Watchdog
pub mod Headers
pub mod Answers
pub mod Source
pub mod Expiry
