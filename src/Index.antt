-- ===== src/Index.antt =====
-- The snapshot index of the read API: modules/operator/internal/apiserver/index.go.
pub mod Types
pub mod Rebuild
pub mod Owners
pub mod Sorted
