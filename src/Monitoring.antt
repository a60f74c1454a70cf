-- ===== src/Monitoring.antt =====
-- The operator's own monitoring resources (internal/monitoring): a Service, a ServiceMonitor and a
-- PrometheusRule that are applied again on each of their events.
pub mod Resources
pub mod Reconcile
pub mod Registration
pub mod Order
pub mod Wakes
pub mod Selection
