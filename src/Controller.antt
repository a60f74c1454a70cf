-- ===== src/Controller.antt =====
-- The reconciler of LLMBatchGateway resources (internal/controller).
pub mod Errors
pub mod Objects
pub mod Rollout
pub mod Availability
pub mod Cluster
pub mod Orphans
pub mod Grants
pub mod Secrets
pub mod Traces
pub mod Conditions
pub mod Status
pub mod SecretFilter
pub mod Watch
pub mod Registration
pub mod Ownership
pub mod Tracked
pub mod Reconcile
