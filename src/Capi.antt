-- ===== src/Capi.antt =====
-- capi: the C boundary.
pub mod Boundary
pub mod Registry
pub mod Tags
pub mod System
pub mod Contexts
pub mod Actions
pub mod Charts
pub mod ChartData
pub mod Repos
pub mod Registries
