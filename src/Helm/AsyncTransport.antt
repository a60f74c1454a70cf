-- ===== src/Helm/AsyncTransport.antt =====
-- The transport of the llm-d-async chart (internal/controller/helm_async.go): the queues as values
-- and the transport's configuration, for Redis or SQL.
use llm_d_batch_gateway_oper.Prelude.{
  String, Option, none, some, Bool, true, false, List, ◌==◌, if◌then◌else◌,
}
use llm_d_batch_gateway_oper.Api.Async.{
  InferenceGatewaySpec, AsyncQueueConfig, AsyncRedisSpec, AsyncSqlSpec, AsyncProcessorSpec,
}
use llm_d_batch_gateway_oper.Api.Features.{OtelSpec}
use llm_d_batch_gateway_oper.Api.Gateway.{LlmBatchGateway}
use llm_d_batch_gateway_oper.Value.{
  Value, str, int, bool, arr, obj, Fields, end, put, put_if, put_some, set_if_not_empty, ◌▹◌,
  is_nonempty, to_string_interface_map, items_of,
}
use llm_d_batch_gateway_oper.Queues.{redis_queues, sql_queues, sql_result_queue_name}

abbrev pub transport_redis : String
transport_redis = "redis-sortedset"

abbrev pub transport_sql : String
transport_sql = "sql"

-- The queue's own gateway URL, or the shared one.
abbrev pub queue_gateway_url : AsyncQueueConfig → String → String
queue_gateway_url q gateway_url = if q.igw_base_url == "" then gateway_url else q.igw_base_url

unfoldable pub async_queue_fields : String → AsyncQueueConfig → Fields
async_queue_fields gateway_url q =
    end
    ▹ put "queue_name" (str q.name)
    ▹ set_if_not_empty "worker_pool_id" q.worker_pool_id
    ▹ set_if_not_empty "igw_base_url" (queue_gateway_url q gateway_url)
    ▹ set_if_not_empty "request_path_url" q.request_path_url
    ▹ set_if_not_empty "gate_type" q.gate_type
    ▹ put_if (is_nonempty q.gate_params) "gate_params" (to_string_interface_map q.gate_params)

unfoldable pub async_queue_values : String → List AsyncQueueConfig → Value
async_queue_values gateway_url queues =
    arr (items_of (λ q. obj (async_queue_fields gateway_url q)) queues)

unfoldable pub url_secret : String → String → Value
url_secret secret_name key = obj (end ▹ put "name" (str secret_name) ▹ put "key" (str key))

abbrev pub redis_tracing : Option OtelSpec → Bool
redis_tracing none = false
redis_tracing (some otel) = otel.redis_tracing

-- `gatewayURL`
abbrev pub gateway_url_of : Option InferenceGatewaySpec → String
gateway_url_of none = ""
gateway_url_of (some ig) = ig.url

module _ (gw : LlmBatchGateway) (secret_name : String) (ac : AsyncProcessorSpec) where
  unfoldable pub redis_transport_config : AsyncRedisSpec → Fields
  redis_transport_config redis =
      end
      ▹ put "urlSecret" (url_secret secret_name "redis-url")
      ▹ put_some int "poll_interval_ms" redis.poll_interval_ms
      ▹ put_some int "batch_size" redis.batch_size
      ▹ put_if (redis_tracing gw.spec.otel) "enable_tracing" (bool true)
      ▹ put "queues" (
          async_queue_values (gateway_url_of ac.inference_gateway)
            (redis_queues gw.spec.processor.model_gateways redis))

  unfoldable pub sql_transport_config : AsyncSqlSpec → Fields
  sql_transport_config sql =
      end
      ▹ put "urlSecret" (url_secret secret_name "postgresql-url")
      ▹ set_if_not_empty "result_queue_name"
          (sql_result_queue_name gw.spec.processor.model_gateways)
      ▹ put_some int "poll_interval_ms" sql.poll_interval_ms
      ▹ put_some int "batch_size" sql.batch_size
      ▹ put_some int "result_batch_size" sql.result_batch_size
      ▹ put_some int "lease_ttl_seconds" sql.lease_ttl_seconds
      ▹ put_some int "handoff_timeout_seconds" sql.handoff_timeout_seconds
      ▹ put "queues" (
          async_queue_values (gateway_url_of ac.inference_gateway)
            (sql_queues gw.spec.processor.model_gateways sql))

  unfoldable pub put_chosen_transport :
      Option AsyncRedisSpec → Option AsyncSqlSpec → Fields → Fields
  put_chosen_transport (some redis) sql ap =
      ap
      ▹ put "transport" (str transport_redis)
      ▹ put "transportConfig" (obj (redis_transport_config redis))
  put_chosen_transport none (some sql) ap =
      ap
      ▹ put "transport" (str transport_sql)
      ▹ put "transportConfig" (obj (sql_transport_config sql))
  put_chosen_transport none none ap = ap

  -- `if ac.Redis != nil … else if ac.SQL != nil`
  unfoldable pub put_transport : Fields → Fields
  unfolding put_chosen_transport
  put_transport ap = put_chosen_transport ac.redis ac.sql ap
