-- ===== src/Verify.antt =====
-- The verify command: modules/operator/internal/verify.
pub mod Namespaces
pub mod Traffic
