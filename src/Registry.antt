-- ===== src/Registry.antt =====
-- The registry of KPIs, apps/backend/src/modules/registry: the hierarchy along which KPIs roll up.
pub mod Hierarchy
