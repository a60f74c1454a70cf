-- ===== src/Helm/Batch/ProcessorConfig.antt =====
-- `mergeProcessorConfig`: the tuning parameters of the batch processor.
use llm_d_batch_gateway_oper.Prelude.{Option, none, some, true}
use llm_d_batch_gateway_oper.Api.Components.{
  AimdConfig, ConcurrencyConfig, ResumableConfigSpec, ProcessorConfigSpec,
}
use llm_d_batch_gateway_oper.Value.{
  bool, Fields, end, put_if, put_some, put_fields, set_if_not_empty, set_if_not_zero, ◌▹◌,
  to_interface_slice,
}

unfoldable pub aimd_values : AimdConfig → Fields
aimd_values aimd =
    end
    ▹ put_some bool "enabled" aimd.enabled
    ▹ set_if_not_zero "min" aimd.min
    ▹ set_if_not_empty "backoffFactor" aimd.backoff_factor
    ▹ set_if_not_zero "additiveIncrease" aimd.additive_increase

abbrev pub put_aimd : Option AimdConfig → Fields → Fields
put_aimd none m = m
put_aimd (some aimd) m = m ▹ put_fields "aimd" (aimd_values aimd)

unfoldable pub concurrency_values : ConcurrencyConfig → Fields
concurrency_values c =
    end
    ▹ set_if_not_zero "global" c.global
    ▹ set_if_not_zero "perEndpoint" c.per_endpoint
    ▹ set_if_not_zero "recovery" c.recovery
    ▹ put_aimd c.aimd

unfoldable pub resumable_values : ResumableConfigSpec → Fields
resumable_values r =
    end
    ▹ set_if_not_empty "leaseDuration" r.lease_duration
    ▹ set_if_not_zero "finalizeConcurrency" r.finalize_concurrency
    ▹ set_if_not_empty "finalizeTimeout" r.finalize_timeout

unfoldable pub put_concurrency : Option ConcurrencyConfig → Fields → Fields
put_concurrency none m = m
put_concurrency (some c) m = m ▹ put_fields "concurrency" (concurrency_values c)

unfoldable pub put_resumable : Option ResumableConfigSpec → Fields → Fields
put_resumable none m = m
put_resumable (some r) m = m ▹ put_fields "resumable" (resumable_values r)

unfoldable pub merge_processor_config : ProcessorConfigSpec → Fields → Fields
merge_processor_config cfg m =
    m
    ▹ set_if_not_zero "numWorkers" cfg.num_workers
    ▹ set_if_not_zero "inputFileDiskBudgetPercent" cfg.input_file_disk_budget_percent
    ▹ put_some to_interface_slice "extraEndpoints" cfg.extra_endpoints
    ▹ put_concurrency cfg.concurrency
    ▹ put_resumable cfg.resumable
    ▹ set_if_not_zero "defaultOutputExpirationSeconds" cfg.default_output_expiration_seconds
    ▹ set_if_not_empty "progressUpdateInterval" cfg.progress_update_interval
    ▹ put_some bool "sendFairnessHeader" cfg.send_fairness_header
    ▹ set_if_not_empty "routeKeyMethod" cfg.route_key_method
    ▹ put_if cfg.enable_pprof "enablePprof" (bool true)
