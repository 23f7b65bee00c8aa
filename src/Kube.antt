-- ===== src/Kube.antt =====
-- The Kubernetes objects that the operator reads and writes, with the fields that its code uses, and
-- the API types of the operator itself (modules/operator/api/v1alpha1).
pub mod Meta
pub mod Types
pub mod Reconcile
pub mod Ensures
pub mod Workloads
pub mod Goes
