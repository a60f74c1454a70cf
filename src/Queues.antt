-- ===== src/Queues.antt =====
-- Queue names and dispatcher queues (internal/controller/helm_async.go): the names that the batch
-- processor publishes to, and the queues that the async dispatcher polls.
pub mod Models
pub mod Names
use Prim.Native.String.{◌++◌}
use llm_d_batch_gateway_oper.Prelude.{
  String, Option, none, some, Bool, true, false, List, [], ◌∷◌, map, ◌==◌, if◌then◌else◌, member,
}
use llm_d_batch_gateway_oper.Prelude.Assoc.{Assoc, lookup, keys}
use llm_d_batch_gateway_oper.Prelude.Sorting.{sorted}
use llm_d_batch_gateway_oper.Api.Async.{AsyncQueueConfig, AsyncRedisSpec, AsyncSqlSpec}
use llm_d_batch_gateway_oper.Api.Components.{ModelGatewaySpec}

abbrev pub async_queue_prefix : String
async_queue_prefix = "llm-d-async:"

unfoldable pub async_request_queue_name : String → String
async_request_queue_name pool = async_queue_prefix ++ "requests:" ++ pool

unfoldable pub async_result_queue_name : String → String
async_result_queue_name pool = async_queue_prefix ++ "results:" ++ pool

unfoldable pub request_queue_name_for : ModelGatewaySpec → String
request_queue_name_for gateway =
    if gateway.request_queue_name == ""
    then async_request_queue_name gateway.inference_pool_name
    else gateway.request_queue_name

unfoldable pub sql_result_queue_name_for : ModelGatewaySpec → String
sql_result_queue_name_for gateway =
    if gateway.result_queue_name == ""
    then async_result_queue_name gateway.inference_pool_name
    else gateway.result_queue_name

unfoldable pub sorted_model_names : Assoc ModelGatewaySpec → List String
sorted_model_names models = sorted (keys models)

-- The zero value that a Go map yields for a missing key.
abbrev pub zero_model_gateway : ModelGatewaySpec
zero_model_gateway = record {
  inference_pool_name = "";
  inference_objective = "";
  request_queue_name = "";
  result_queue_name = "";
}

abbrev pub or_zero : Option ModelGatewaySpec → ModelGatewaySpec
or_zero none = zero_model_gateway
or_zero (some gateway) = gateway

-- `ModelGateways[model]`
abbrev pub model_gateway : Assoc ModelGatewaySpec → String → ModelGatewaySpec
model_gateway models model = or_zero (lookup model models)

unfoldable pub sorted_model_gateways : Assoc ModelGatewaySpec → List ModelGatewaySpec
sorted_model_gateways models = map (model_gateway models) (sorted_model_names models)

abbrev pub first_result_queue : List ModelGatewaySpec → String
first_result_queue [] = ""
first_result_queue (gateway ∷ _) = sql_result_queue_name_for gateway

unfoldable pub sql_result_queue_name : Assoc ModelGatewaySpec → String
sql_result_queue_name models = first_result_queue (sorted_model_gateways models)

abbrev pub named_queue : String → AsyncQueueConfig
named_queue name = record {
  name = name;
  worker_pool_id = "";
  igw_base_url = "";
  request_path_url = "";
  gate_type = "";
  gate_params = [];
}

-- The loop of `defaultAsyncQueues`; `seen` holds the names that have a queue already.
unfoldable pub distinct_queues : List String → List ModelGatewaySpec → List AsyncQueueConfig
distinct_queues seen [] = []
distinct_queues seen (gateway ∷ gateways) =
    let name = request_queue_name_for gateway in
    let skipped = distinct_queues seen gateways in
    let added = named_queue name ∷ distinct_queues (name ∷ seen) gateways in
    if member name seen then skipped else added

unfoldable pub default_async_queues : Assoc ModelGatewaySpec → List AsyncQueueConfig
default_async_queues models = distinct_queues [] (sorted_model_gateways models)

-- The top-level Redis settings, carried by a derived queue.
abbrev pub with_redis_settings : AsyncRedisSpec → AsyncQueueConfig → AsyncQueueConfig
with_redis_settings redis queue = record queue {
  request_path_url = redis.request_path_url;
  gate_type = redis.gate_type;
  gate_params = redis.gate_params;
}

abbrev pub configured_or : List AsyncQueueConfig → List AsyncQueueConfig → List AsyncQueueConfig
configured_or [] derived = derived
configured_or (queue ∷ queues) derived = queue ∷ queues

unfoldable pub redis_queues : Assoc ModelGatewaySpec → AsyncRedisSpec → List AsyncQueueConfig
redis_queues models redis =
    configured_or redis.queues_config
      (map (with_redis_settings redis) (default_async_queues models))

unfoldable pub sql_queues : Assoc ModelGatewaySpec → AsyncSqlSpec → List AsyncQueueConfig
sql_queues models sql = configured_or sql.queues_config (default_async_queues models)

abbrev pub queue_names : List AsyncQueueConfig → List String
queue_names [] = []
queue_names (queue ∷ queues) = queue.name ∷ queue_names queues

-- The request queues that the batch processor publishes to, by sorted model name.
abbrev pub published_queues : Assoc ModelGatewaySpec → List String
published_queues models = map request_queue_name_for (sorted_model_gateways models)
