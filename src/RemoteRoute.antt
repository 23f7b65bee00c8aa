-- ===== src/RemoteRoute.antt =====
-- The RemoteRoute reconciler (modules/operator/internal/controller/remoteroute_controller.go) and
-- what it renders (modules/operator/internal/controller/remoteroute_render.go).
pub mod Owner
pub mod Health
pub mod Upstreams
pub mod Proxy
pub mod Variant
pub mod Client
pub mod Reconciler
pub mod Watches
