-- ===== src/Api.antt =====
-- The custom resource LLMBatchGateway (api/v1alpha1). A pointer field is an `Option`, a map is an
-- association list, int32 and int64 are integers.
pub mod Shared
pub mod Async
pub mod Components
pub mod Features
pub mod Status
pub mod Gateway
