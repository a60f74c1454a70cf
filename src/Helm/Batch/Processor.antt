-- ===== src/Helm/Batch/Processor.antt =====
-- The section "processor" of the batch-gateway chart, and the async dispatch that it configures.
use llm_d_batch_gateway_oper.Prelude.{Option, none, some, [], ◌∷◌}
use llm_d_batch_gateway_oper.Prelude.Assoc.{Assoc}
use llm_d_batch_gateway_oper.Api.Async.{AsyncRedisSpec, AsyncSqlSpec, AsyncProcessorSpec}
use llm_d_batch_gateway_oper.Api.Components.{ModelGatewaySpec, ProcessorConfigSpec}
use llm_d_batch_gateway_oper.Api.Gateway.{LlmBatchGateway}
use llm_d_batch_gateway_oper.Value.{
  Value, str, int, obj, Fields, end, put, put_if, put_some, put_fields, set_if_not_empty, ◌▹◌,
  is_nonempty,
}
use llm_d_batch_gateway_oper.Helm.{ComponentImages, resource_requirements_to_map, scrape_monitor}
use llm_d_batch_gateway_oper.Helm.Async.{monitoring_enabled}
use llm_d_batch_gateway_oper.Helm.AsyncTransport.{transport_redis, transport_sql}
use llm_d_batch_gateway_oper.Helm.Batch.ApiServer.{component_base, put_logging}
use llm_d_batch_gateway_oper.Helm.Batch.ProcessorConfig.{merge_processor_config}

-- `asyncModelGatewayToMap`
unfoldable pub async_model_gateway_to_map : ModelGatewaySpec → Value
async_model_gateway_to_map g = obj (
    end
    ▹ set_if_not_empty "inferencePoolName" g.inference_pool_name
    ▹ set_if_not_empty "inferenceObjective" g.inference_objective
    ▹ set_if_not_empty "requestQueueName" g.request_queue_name
    ▹ set_if_not_empty "resultQueueName" g.result_queue_name)

unfoldable pub model_values : Assoc ModelGatewaySpec → Fields
model_values [] = end
model_values ((model, g) ∷ rest) = put model (async_model_gateway_to_map g) (model_values rest)

-- `if SQL != nil … else if Redis != nil`
unfoldable pub put_dispatch_transport :
    Option AsyncSqlSpec → Option AsyncRedisSpec → Fields → Fields
put_dispatch_transport (some sql) redis m =
    m ▹ put "transport" (str transport_sql) ▹ put_some int "maxConnections" sql.max_connections
put_dispatch_transport none (some redis) m = m ▹ put "transport" (str transport_redis)
put_dispatch_transport none none m = m

unfoldable pub async_dispatch_values : Assoc ModelGatewaySpec → AsyncProcessorSpec → Fields
async_dispatch_values models ac =
    end
    ▹ put "resultPollTimeout" (str ac.result_poll_timeout)
    ▹ put_dispatch_transport ac.sql ac.redis
    ▹ put_if (is_nonempty models) "models" (obj (model_values models))

abbrev pub put_processor_config : Option ProcessorConfigSpec → Fields → Fields
put_processor_config none m = m
put_processor_config (some cfg) m = merge_processor_config cfg m

abbrev pub put_processor_logging : Option ProcessorConfigSpec → Fields → Fields
put_processor_logging none m = m
put_processor_logging (some cfg) m = put_logging cfg.logging m

-- `procConfig`
unfoldable pub processor_config_values : LlmBatchGateway → Fields
processor_config_values gw =
    end
    ▹ put "dispatchMode" (str "async")
    ▹ put_some (λ ac. obj (async_dispatch_values gw.spec.processor.model_gateways ac))
        "asyncDispatch" gw.spec.processor.async_config
    ▹ put_processor_config gw.spec.processor.config

unfoldable pub processor_values : LlmBatchGateway → ComponentImages → Fields
processor_values gw images =
    component_base images.processor gw.spec.processor.image_pull_policy
    ▹ put_some int "replicaCount" gw.spec.processor.replicas
    ▹ put_some resource_requirements_to_map "resources" gw.spec.processor.resources
    ▹ put_processor_logging gw.spec.processor.config
    ▹ put_fields "config" (processor_config_values gw)
    ▹ put_if (monitoring_enabled gw.spec.monitoring) "podMonitor" scrape_monitor
