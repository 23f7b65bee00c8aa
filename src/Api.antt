-- ===== src/Api.antt =====
-- The read-only HTTP API (modules/operator/internal/apiserver/api.go).
pub mod Filter
pub mod Cursor
pub mod Page
pub mod Handlers
