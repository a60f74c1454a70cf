-- ===== src/Validate/Rules.antt =====
-- What a valid spec is, said without the loops of the code: the rules speak of lookups in the map
-- of model gateways, so they cannot depend on the order in which Go ranges over it.
use llm_d_batch_gateway_oper.Prelude.{
  String, ◌≡◌, ◌≢◌, ◌↔◌, ◌⊎◌, Option, none, some, List, [], All, Distinct,
}
use llm_d_batch_gateway_oper.Prelude.Assoc.{Assoc, lookup}
use llm_d_batch_gateway_oper.Prelude.Sorting.{SameMembers}
use llm_d_batch_gateway_oper.Api.Async.{
  InferenceGatewaySpec, AsyncQueueConfig, AsyncRedisSpec, AsyncSqlSpec, AsyncWorkerPool,
  AsyncProcessorSpec,
}
use llm_d_batch_gateway_oper.Api.Components.{ModelGatewaySpec}
use llm_d_batch_gateway_oper.Api.Gateway.{LlmBatchGateway}
use llm_d_batch_gateway_oper.Queues.{
  sql_result_queue_name_for, redis_queues, sql_queues, queue_names, published_queues,
}

abbrev pub IsPrometheusGate : String → Type 0
IsPrometheusGate gate =
    (gate ≡ "prometheus-budget") ⊎ (gate ≡ "prometheus-query") ⊎ (gate ≡ "prometheus-saturation")

-- A shared gateway URL, or one on every queue.
abbrev pub HasGatewayUrl : Option InferenceGatewaySpec → List AsyncQueueConfig → Type 0
HasGatewayUrl gateway queues =
    ((ig : InferenceGatewaySpec) × (gateway ≡ some ig) × (ig.url ≢ ""))
    ⊎ All (λ q. q.igw_base_url ≢ "") queues

abbrev pub HasPrometheus : String → List AsyncQueueConfig → List AsyncWorkerPool → Type 0
HasPrometheus url queues pools =
    (url ≢ "")
    ⊎ (All (λ q. ¬ IsPrometheusGate q.gate_type) queues
        × All (λ p. ¬ IsPrometheusGate p.gate_type) pools)

-- The configured queues are the published ones, each one once; or none is configured.
abbrev pub Covers : Assoc ModelGatewaySpec → List AsyncQueueConfig → Type 0
Covers models configured =
    (configured ≡ [])
    ⊎ (Distinct (queue_names configured)
        × SameMembers (queue_names configured) (published_queues models))

-- Two models never have one value.
abbrev pub Separates : (ModelGatewaySpec → String) → Assoc ModelGatewaySpec → Type 0
Separates value models =
    (a b : String) (g h : ModelGatewaySpec)
    → lookup a models ≡ some g
    → lookup b models ≡ some h
    → value g ≡ value h
    → a ≡ b

pub record QueueRules (models : Assoc ModelGatewaySpec) (ac : AsyncProcessorSpec)
    (configured queues : List AsyncQueueConfig) : Type 0 where
  pub covers : Covers models configured
  pub urls : HasGatewayUrl ac.inference_gateway queues
  pub gates : HasPrometheus ac.prometheus_url queues ac.worker_pools

abbrev pub RedisRules : Assoc ModelGatewaySpec → AsyncProcessorSpec → Type 0
RedisRules models ac =
    (redis : AsyncRedisSpec) × (ac.redis ≡ some redis)
    × (ac.sql ≡ none)
    × QueueRules models ac redis.queues_config (redis_queues models redis)

abbrev pub SqlRules : Assoc ModelGatewaySpec → AsyncProcessorSpec → Type 0
SqlRules models ac =
    (sql : AsyncSqlSpec) × (ac.sql ≡ some sql)
    × (ac.redis ≡ none)
    × Separates (λ g. g.inference_pool_name) models
    × Separates sql_result_queue_name_for models
    × QueueRules models ac sql.queues_config (sql_queues models sql)

abbrev pub IsModelGatewayValid : ModelGatewaySpec → Type 0
IsModelGatewayValid g =
    (g.inference_pool_name ≢ "") × ((g.request_queue_name ≡ "") ↔ (g.result_queue_name ≡ ""))

pub record IsAsyncConfigValid (models : Assoc ModelGatewaySpec) (ac : AsyncProcessorSpec)
    : Type 0 where
  pub transport : RedisRules models ac ⊎ SqlRules models ac
  pub timeout : ac.result_poll_timeout ≢ ""
  pub some_model : models ≢ []
  pub gateways :
      (k : String) (g : ModelGatewaySpec) → lookup k models ≡ some g → IsModelGatewayValid g

pub record IsSpecValid (gw : LlmBatchGateway) : Type 0 where
  pub backend : (gw.spec.db_backend ≡ "") ⊎ (gw.spec.db_backend ≡ "postgresql")
  pub mode : gw.spec.processor.dispatch_mode ≢ "sync"
  pub config :
      (ac : AsyncProcessorSpec) × (gw.spec.processor.async_config ≡ some ac)
      × IsAsyncConfigValid gw.spec.processor.model_gateways ac
