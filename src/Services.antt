-- ===== src/Services.antt =====
-- The services under observation (services).
pub mod Payment
pub mod Notifications
