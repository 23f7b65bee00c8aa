-- ===== src/Tests.antt =====
-- The theorems at concrete inputs, and runs of the model.
pub mod ReadApi
pub mod Routes
mod Snapshots
pub mod Translators
pub mod Remotes
pub mod Success
pub mod Proxies
mod RemoteRuns
mod Preflights
mod Verifies
mod Watching
mod Traffics
