-- ===== src/Validate.antt =====
-- Validation of the spec (internal/controller/llmbatchgateway_controller.go, `validateSpec` and the
-- functions that it calls). An error is a constructor with the values that its text prints; the
-- nil error is `none`.
pub mod Rules
pub mod Loops
pub mod Parts
pub mod Decides
pub mod Guarantees
use llm_d_batch_gateway_oper.Prelude.{
  String, Option, none, some, Bool, true, false, not, ◌&&◌, ◌||◌, List, [], ◌∷◌, map, ◌==◌,
  if◌then◌else◌, member,
}
use llm_d_batch_gateway_oper.Prelude.Assoc.{Assoc, lookup}
use llm_d_batch_gateway_oper.Api.Async.{
  InferenceGatewaySpec, AsyncQueueConfig, AsyncRedisSpec, AsyncSqlSpec, AsyncWorkerPool,
  AsyncProcessorSpec,
}
use llm_d_batch_gateway_oper.Api.Components.{ModelGatewaySpec}
use llm_d_batch_gateway_oper.Api.Gateway.{LlmBatchGateway}
use llm_d_batch_gateway_oper.Queues.{
  sorted_model_names, model_gateway, request_queue_name_for, sql_result_queue_name_for,
  redis_queues, sql_queues, queue_names,
}

pub data ValidationError : Type 0 where
  db_backend_not_supported : String → ValidationError
  dispatch_mode_not_supported : ValidationError
  async_config_required : ValidationError
  transports_exclusive : ValidationError
  transport_required : ValidationError
  result_poll_timeout_required : ValidationError
  model_gateways_required : ValidationError
  inference_pool_required : String → ValidationError
  queue_names_unpaired : String → ValidationError
  -- the earlier model, the later one, and what they share
  shared_inference_pool : String → String → String → ValidationError
  shared_result_queue : String → String → String → ValidationError
  -- the transport and the queue
  duplicate_queue : String → String → ValidationError
  missing_queue : String → String → String → ValidationError
  unpublished_queue : String → String → ValidationError
  gateway_url_required : String → String → ValidationError
  queue_prometheus_required : String → String → String → ValidationError
  pool_prometheus_required : String → String → ValidationError

-- `if test { return err }`
abbrev pub fail_if : Bool → ValidationError → Option ValidationError
fail_if true e = some e
fail_if false e = none

-- The first error of two checks in a row.
infixr 30 ◌then_check◌
abbrev pub ◌then_check◌ : Option ValidationError → Option ValidationError → Option ValidationError
none then_check later = later
(some e) then_check later = some e

abbrev pub is_set {ℓ} : {A : Type ℓ} → Option A → Bool
is_set none = false
is_set (some a) = true

abbrev pub is_empty {ℓ} : {A : Type ℓ} → List A → Bool
is_empty [] = true
is_empty (x ∷ xs) = false

abbrev pub bool_ne : Bool → Bool → Bool
bool_ne true b = not b
bool_ne false b = b

unfoldable pub is_prometheus_gate : String → Bool
is_prometheus_gate gate_type =
    gate_type == "prometheus-budget"
    || gate_type == "prometheus-query"
    || gate_type == "prometheus-saturation"

unfoldable pub queue_gates : String → List AsyncQueueConfig → Option ValidationError
queue_gates transport [] = none
queue_gates transport (queue ∷ queues) =
    fail_if (is_prometheus_gate queue.gate_type)
      (queue_prometheus_required transport queue.name queue.gate_type)
    then_check queue_gates transport queues

unfoldable pub pool_gates : List AsyncWorkerPool → Option ValidationError
pool_gates [] = none
pool_gates (pool ∷ pools) =
    fail_if (is_prometheus_gate pool.gate_type) (pool_prometheus_required pool.name pool.gate_type)
    then_check pool_gates pools

unfoldable pub validate_async_prometheus_gates :
    String → List AsyncQueueConfig → List AsyncWorkerPool → String → Option ValidationError
validate_async_prometheus_gates transport queues pools prometheus_url =
    if prometheus_url == "" then queue_gates transport queues then_check pool_gates pools else none

unfoldable pub queue_urls : String → List AsyncQueueConfig → Option ValidationError
queue_urls transport [] = none
queue_urls transport (queue ∷ queues) =
    fail_if (queue.igw_base_url == "") (gateway_url_required transport queue.name)
    then_check queue_urls transport queues

unfoldable pub validate_async_queue_gateway_url :
    String → List AsyncQueueConfig → Option InferenceGatewaySpec → Option ValidationError
validate_async_queue_gateway_url transport queues none = queue_urls transport queues
validate_async_queue_gateway_url transport queues (some ig) =
    if not (ig.url == "") then none else queue_urls transport queues

-- The loop over the configured queues; `configured` holds the names met so far.
unfoldable pub duplicate_queues :
    String → List String → List AsyncQueueConfig → Option ValidationError
duplicate_queues transport configured [] = none
duplicate_queues transport configured (queue ∷ queues) =
    fail_if (member queue.name configured) (duplicate_queue transport queue.name)
    then_check duplicate_queues transport (queue.name ∷ configured) queues

unfoldable pub missing_queues :
    String → Assoc ModelGatewaySpec → List String → List String → Option ValidationError
missing_queues transport models configured [] = none
missing_queues transport models configured (model ∷ rest) =
    let request_queue = request_queue_name_for (model_gateway models model) in
    fail_if (not (member request_queue configured)) (missing_queue transport request_queue model)
    then_check missing_queues transport models configured rest

unfoldable pub unpublished_queues :
    String → List String → List AsyncQueueConfig → Option ValidationError
unpublished_queues transport published [] = none
unpublished_queues transport published (queue ∷ queues) =
    fail_if (not (member queue.name published)) (unpublished_queue transport queue.name)
    then_check unpublished_queues transport published queues

-- Of the map `published` the source reads only the keys.
unfoldable pub validate_async_queue_coverage :
    String → Assoc ModelGatewaySpec → List AsyncQueueConfig → Option ValidationError
validate_async_queue_coverage transport models queues =
    let names = sorted_model_names models in
    let published = map (λ model. request_queue_name_for (model_gateway models model)) names in
    duplicate_queues transport [] queues
    then_check missing_queues transport models (queue_names queues) names
    then_check unpublished_queues transport published queues

abbrev pub coverage_if_configured :
    String → Assoc ModelGatewaySpec → List AsyncQueueConfig → Option ValidationError
coverage_if_configured transport models [] = none
coverage_if_configured transport models (queue ∷ queues) =
    validate_async_queue_coverage transport models (queue ∷ queues)

unfoldable pub validate_async_redis_config :
    Assoc ModelGatewaySpec → AsyncProcessorSpec → AsyncRedisSpec → Option ValidationError
validate_async_redis_config models ac redis =
    let queues = redis_queues models redis in
    coverage_if_configured "redis" models redis.queues_config
    then_check validate_async_queue_gateway_url "Redis" queues ac.inference_gateway
    then_check validate_async_prometheus_gates "Redis" queues ac.worker_pools ac.prometheus_url

-- The two loops that look for models with one pool, or one result queue: `seen` maps the value to
-- the model that has it, and the loops go through the sorted model names.
unfoldable pub shared_values :
    (ModelGatewaySpec → String)
    → (String → String → String → ValidationError)
    → Assoc ModelGatewaySpec
    → Assoc String
    → List String
    → Option ValidationError
shared_values value error models seen [] = none
shared_values value error models seen (model ∷ rest) =
    let v = value (model_gateway models model) in
    (elim (lookup v seen) [ none ↦ none | some other ↦ some (error other model v) ])
    then_check shared_values value error models ((v, model) ∷ seen) rest

unfoldable pub validate_async_sql_config :
    Assoc ModelGatewaySpec → AsyncProcessorSpec → AsyncSqlSpec → Option ValidationError
validate_async_sql_config models ac sql =
    let names = sorted_model_names models in
    let queues = sql_queues models sql in
    shared_values (λ gateway. gateway.inference_pool_name) shared_inference_pool models [] names
    then_check shared_values sql_result_queue_name_for shared_result_queue models [] names
    then_check coverage_if_configured "sql" models sql.queues_config
    then_check validate_async_queue_gateway_url "SQL" queues ac.inference_gateway
    then_check validate_async_prometheus_gates "SQL" queues ac.worker_pools ac.prometheus_url

-- The loop over the model gateways, in the order of the `range`.
unfoldable pub model_gateway_rules : Assoc ModelGatewaySpec → Option ValidationError
model_gateway_rules [] = none
model_gateway_rules ((model, gateway) ∷ rest) =
    fail_if (gateway.inference_pool_name == "") (inference_pool_required model)
    then_check fail_if
        (bool_ne (gateway.request_queue_name == "") (gateway.result_queue_name == ""))
        (queue_names_unpaired model)
    then_check model_gateway_rules rest

-- The final `switch`.
unfoldable pub validate_transport :
    Assoc ModelGatewaySpec
    → AsyncProcessorSpec
    → Option AsyncRedisSpec
    → Option AsyncSqlSpec
    → Option ValidationError
validate_transport models ac (some redis) sql = validate_async_redis_config models ac redis
validate_transport models ac none (some sql) = validate_async_sql_config models ac sql
validate_transport models ac none none = none

unfoldable pub validate_async_config :
    Assoc ModelGatewaySpec → Option AsyncProcessorSpec → Option ValidationError
validate_async_config models none = some async_config_required
validate_async_config models (some ac) =
    fail_if (is_set ac.redis && is_set ac.sql) transports_exclusive
    then_check fail_if (not (is_set ac.redis) && not (is_set ac.sql)) transport_required
    then_check fail_if (ac.result_poll_timeout == "") result_poll_timeout_required
    then_check fail_if (is_empty models) model_gateways_required
    then_check model_gateway_rules models
    then_check validate_transport models ac ac.redis ac.sql

unfoldable pub validate_spec : LlmBatchGateway → Option ValidationError
validate_spec gw =
    fail_if (not (gw.spec.db_backend == "") && not (gw.spec.db_backend == "postgresql"))
      (db_backend_not_supported gw.spec.db_backend)
    then_check fail_if (gw.spec.processor.dispatch_mode == "sync") dispatch_mode_not_supported
    then_check validate_async_config gw.spec.processor.model_gateways gw.spec.processor.async_config
