-- ===== src/Examples.antt =====
-- A concrete resource and a concrete cluster, on which the theorems are used in the child modules.
pub mod Values
pub mod Runs
pub mod Profile
pub mod Startup
pub mod Events
use llm_d_batch_gateway_oper.Prelude.{
  String, ◌≡◌, ◌≢◌, refl, Bool, true, false, List, [], ◌∷◌, Option, none, some, ◌==◌, if◌then◌else◌,
  eq_refl, false_of_ne,
}
use llm_d_batch_gateway_oper.Prelude.Int.{ℤ, pos}
use llm_d_batch_gateway_oper.Prelude.Assoc.{Assoc}
use llm_d_batch_gateway_oper.Api.Async.{AsyncProcessorSpec, AsyncRedisSpec, InferenceGatewaySpec}
use llm_d_batch_gateway_oper.Api.Components.{ModelGatewaySpec}
use llm_d_batch_gateway_oper.Api.Gateway.{LlmBatchGateway}
use llm_d_batch_gateway_oper.Api.Status.{LlmBatchGatewayStatus}
use llm_d_batch_gateway_oper.Controller.Errors.{ok, err, not_found}
use llm_d_batch_gateway_oper.Controller.Objects.{
  Object, OwnerReference, gvk_of, group_name, group_version,
}
use llm_d_batch_gateway_oper.Controller.Rollout.{Deployment, StatefulSet}
use llm_d_batch_gateway_oper.Controller.Conditions.{Condition, ConditionApi, ConditionLaws}
use llm_d_batch_gateway_oper.Controller.Cluster.{Cluster, State, Secret, ReferenceGrant}
use llm_d_batch_gateway_oper.Controller.Secrets.{SetOwner}
use llm_d_batch_gateway_oper.Controller.Reconcile.{Reconciler}

abbrev pub sample_model : ModelGatewaySpec
sample_model = record {
  inference_pool_name = "pool-a";
  inference_objective = "";
  request_queue_name = "";
  result_queue_name = "";
}

abbrev pub sample_models : Assoc ModelGatewaySpec
sample_models = ("llama", sample_model) ∷ []

abbrev pub sample_redis : AsyncRedisSpec
sample_redis = record {
  request_path_url = "";
  poll_interval_ms = none;
  batch_size = some (pos 8);
  gate_type = "";
  gate_params = [];
  queues_config = [];
}

abbrev pub sample_config : AsyncProcessorSpec
sample_config = record {
  replicas = none;
  resources = none;
  image_pull_policy = "";
  inference_gateway = some (record { url = "http://epp:8081" });
  concurrency = none;
  drain_timeout = "";
  result_poll_timeout = "1s";
  redis = some sample_redis;
  sql = none;
  worker_pools = [];
  prometheus_url = "";
  prometheus_cache_ttl = "";
  tls = none;
  transform_config = none;
  model_server_monitor = none;
}

abbrev pub sample_gateway : LlmBatchGateway
sample_gateway = record {
  name = "gw";
  namespace = "prod";
  uid = "u-1";
  generation = pos 2;
  resource_version = "41";
  spec = record {
    secret_ref = record { name = "creds"; namespace = "vault" };
    db_backend = "postgresql";
    extra_endpoints = none;
    file_storage = none;
    api_server = record {
      replicas = none;
      resources = none;
      config = none;
      image_pull_policy = "";
    };
    processor = record {
      replicas = none;
      resources = none;
      image_pull_policy = "";
      config = none;
      dispatch_mode = "async";
      model_gateways = sample_models;
      async_config = some sample_config;
    };
    gc = record {
      replicas = none;
      resources = none;
      interval = "1h";
      config = none;
      image_pull_policy = "";
    };
    monitoring = none;
    grafana = none;
    tls = none;
    http_route = none;
    otel = none;
    prometheus_rule = none;
    image_pull_secrets = [];
  };
}

abbrev pub sample_owner : OwnerReference
sample_owner = record {
  uid = "u-1";
  kind = "LLMBatchGateway";
  api_version = group_version;
  controller = some true;
}

abbrev pub sample_object : String → Object
sample_object name = record {
  gvk = gvk_of "" "v1" "Service";
  name = name;
  namespace = "prod";
  labels = [];
  owners = sample_owner ∷ [];
  content = "";
}

abbrev pub sample_secret : Secret
sample_secret = record {
  name = "creds";
  namespace = "vault";
  annotations = [];
  owners = [];
  type = "Opaque";
  content = ("redis-url", "redis://cache") ∷ [];
}

abbrev pub sample_grant : ReferenceGrant
sample_grant = record {
  from = record { group = group_name; kind = "LLMBatchGateway"; namespace = "prod" } ∷ [];
  to = record { group = ""; kind = "Secret"; name = some "creds" } ∷ [];
}

abbrev pub sample_deployment : Deployment
sample_deployment = record {
  labels = ("app.kubernetes.io/component", "apiserver") ∷ [];
  owners = sample_owner ∷ [];
  generation = pos 3;
  spec_replicas = some (pos 2);
  observed_generation = pos 3;
  updated_replicas = pos 2;
  replicas = pos 2;
  ready_replicas = pos 2;
}

abbrev pub sample_stateful_set : StatefulSet
sample_stateful_set = record {
  labels = ("app.kubernetes.io/component", "processor") ∷ [];
  owners = sample_owner ∷ [];
  generation = pos 3;
  spec_replicas = none;
  observed_generation = pos 3;
  updated_replicas = pos 1;
  replicas = pos 1;
  ready_replicas = pos 1;
  current_revision = "r1";
  update_revision = "r1";
}

-- Conditions as a function of their type.
abbrev pub Table : Type 0
Table = String → Option Condition

abbrev pub sample_api : ConditionApi Table
sample_api = record { set = λ c cs t. if t == c.type then some c else cs t; find = λ t cs. cs t }

pub sample_laws : ConditionLaws sample_api
sample_laws = record {
  find-set = λ c cs. rw (eq_refl c.type) refl;
  find-set_ne = λ t c cs n. rw (false_of_ne t c.type n) refl;
}

abbrev pub sample_status : LlmBatchGatewayStatus Table
sample_status = record {
  observed_generation = pos 1;
  conditions = λ t. none;
  component_status = none;
}

-- Every call succeeds; each listing has a Service that is no longer wanted.
abbrev pub sample_cluster : Cluster (Unit {0}) Table
sample_cluster = record {
  get_gateway = λ namespace name w. (ok (sample_gateway, sample_status), w);
  get_secret =
      λ namespace name w. (if namespace == "vault" then ok sample_secret else err not_found, w);
  list_grants = λ namespace w. (ok (sample_grant ∷ []), w);
  list = λ gvk namespace w. (ok (sample_object "old" ∷ []), w);
  list_deployments = λ namespace name w. (ok (sample_deployment ∷ []), w);
  list_stateful_sets = λ namespace name w. (ok (sample_stateful_set ∷ []), w);
  apply = λ what w. (none, w);
  delete = λ object w. (none, w);
  patch_status = λ gw patch w. (none, w);
}

abbrev pub sample_set_owner : SetOwner
sample_set_owner gw namespace owners = ok (sample_owner ∷ owners)

abbrev pub sample_reconciler : Reconciler
sample_reconciler = record {
  render_batch = λ gw secret. ok (sample_object "gw-apiserver" ∷ []);
  render_async = some (λ gw secret. ok (sample_object "gw-async" ∷ []));
  sync_period = pos 60;
}

abbrev pub sample_state : State (Unit {0}) Table
sample_state = record { world = tt; calls = []; watched = [] }
