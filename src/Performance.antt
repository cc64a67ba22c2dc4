-- ===== src/Performance.antt =====
-- The performance data of KPIs, apps/backend/src/modules/performance.
pub mod Measurements
