-- ===== src/ContextRoute.antt =====
-- The ContextRoute reconciler (modules/operator/internal/controller/contextroute_controller.go).
pub mod Client
pub mod Steps
pub mod Reconciler
pub mod Allowed
pub mod Safety
pub mod Success
pub mod Watches
pub mod Beaten
