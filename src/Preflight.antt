-- ===== src/Preflight.antt =====
-- The preflight check of the mesh: modules/operator/internal/preflight.
pub mod Version
pub mod Mesh
pub mod Probe
