-- ===== src/Helm/Batch.antt =====
-- The Helm values of the batch-gateway chart (internal/controller/helm_batch.go,
-- `specToBatchHelmValues`): the sections global, apiserver, processor and gc are child modules.
pub mod Global
pub mod ApiServer
pub mod ProcessorConfig
pub mod Processor
pub mod Gc
pub mod Values
