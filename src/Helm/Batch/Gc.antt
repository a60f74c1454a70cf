-- ===== src/Helm/Batch/Gc.antt =====
-- The section "gc" of the batch-gateway chart: the garbage collector.
use llm_d_batch_gateway_oper.Prelude.{Option, none, some, true}
use llm_d_batch_gateway_oper.Api.Components.{ReconcilerSpec, GcConfigSpec, GcSpec}
use llm_d_batch_gateway_oper.Api.Gateway.{LlmBatchGateway}
use llm_d_batch_gateway_oper.Value.{
  Value, int, bool, obj, Fields, end, put, put_if, put_some, put_fields, set_if_not_empty,
  set_if_not_zero, ◌▹◌,
}
use llm_d_batch_gateway_oper.Helm.{ComponentImages, resource_requirements_to_map, scrape_monitor}
use llm_d_batch_gateway_oper.Helm.Async.{monitoring_enabled}
use llm_d_batch_gateway_oper.Helm.Batch.ApiServer.{component_base, put_logging}

unfoldable pub reconciler_values : ReconcilerSpec → Value
reconciler_values r =
    obj (end ▹ put "enabled" (bool r.enabled) ▹ set_if_not_empty "interval" r.interval)

abbrev pub put_max_concurrency : Option GcConfigSpec → Fields → Fields
put_max_concurrency none m = m
put_max_concurrency (some cfg) m = m ▹ set_if_not_zero "maxConcurrency" cfg.max_concurrency

-- `gcCollector`
unfoldable pub collector_values : GcSpec → Fields
collector_values gc = end ▹ set_if_not_empty "interval" gc.interval ▹ put_max_concurrency gc.config

abbrev pub put_gc_options : Option GcConfigSpec → Fields → Fields
put_gc_options none m = m
put_gc_options (some cfg) m =
    m
    ▹ put_if cfg.dry_run "dryRun" (bool true)
    ▹ put_some reconciler_values "reconciler" cfg.reconciler

-- `gcConfig`
unfoldable pub gc_config_values : GcSpec → Fields
gc_config_values gc = end ▹ put_gc_options gc.config ▹ put_fields "collector" (collector_values gc)

abbrev pub put_gc_logging : Option GcConfigSpec → Fields → Fields
put_gc_logging none m = m
put_gc_logging (some cfg) m = put_logging cfg.logging m

unfoldable pub gc_values : LlmBatchGateway → ComponentImages → Fields
gc_values gw images =
    component_base images.gc gw.spec.gc.image_pull_policy
    ▹ put_some int "replicaCount" gw.spec.gc.replicas
    ▹ put_some resource_requirements_to_map "resources" gw.spec.gc.resources
    ▹ put_gc_logging gw.spec.gc.config
    ▹ put_fields "config" (gc_config_values gw.spec.gc)
    ▹ put_if (monitoring_enabled gw.spec.monitoring) "podMonitor" scrape_monitor
