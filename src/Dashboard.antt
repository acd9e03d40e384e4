-- ===== src/Dashboard.antt =====
-- The dashboard's server (dashboard/api).
pub mod Connections
pub mod Approvals
pub mod Bridge
