-- ===== src/EdgeTransformation.antt =====
-- The EdgeTransformation reconciler
-- (modules/operator/internal/controller/edgetransformation_controller.go).
pub mod Endpoints
pub mod Client
pub mod Reconciler
pub mod Watches
