-- ===== src/Shared.antt =====
-- shared/shared: what the services have in common.
pub mod Enums
pub mod Constants
pub mod Schemas
