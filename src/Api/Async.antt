-- ===== src/Api/Async.antt =====
-- api/v1alpha1/llmdasync_types.go: the async processor, its transports, queues and worker pools.
use llm_d_batch_gateway_oper.Prelude.{String, Option, Bool, List}
use llm_d_batch_gateway_oper.Prelude.Assoc.{Assoc}
use llm_d_batch_gateway_oper.Prelude.Int.{ℤ}
use llm_d_batch_gateway_oper.Api.Shared.{ResourceRequirements}

pub record InferenceGatewaySpec : Type 0 where
  pub url : String

pub record AsyncQueueConfig : Type 0 where
  pub name : String
  pub worker_pool_id : String
  pub igw_base_url : String
  pub request_path_url : String
  pub gate_type : String
  pub gate_params : Assoc String

pub record AsyncRedisSpec : Type 0 where
  pub request_path_url : String
  pub poll_interval_ms : Option ℤ
  pub batch_size : Option ℤ
  pub gate_type : String
  pub gate_params : Assoc String
  pub queues_config : List AsyncQueueConfig

pub record AsyncSqlSpec : Type 0 where
  pub poll_interval_ms : Option ℤ
  pub batch_size : Option ℤ
  pub max_connections : Option ℤ
  pub result_batch_size : Option ℤ
  pub lease_ttl_seconds : Option ℤ
  pub handoff_timeout_seconds : Option ℤ
  pub queues_config : List AsyncQueueConfig

pub record AsyncWorkerPool : Type 0 where
  pub name : String
  pub workers : ℤ
  pub gate_type : String
  pub gate_params : Assoc String

pub record AsyncTlsSpec : Type 0 where
  pub secret_name : String
  pub insecure_skip_verify : Bool
  pub ca_cert_key : String
  pub cert_key : String
  pub key_key : String

pub record AsyncRequestTransform : Type 0 where
  pub name : String
  pub type : String
  pub parameters : Assoc String

pub record AsyncTransformConfig : Type 0 where
  pub request_transforms : List AsyncRequestTransform

pub record AsyncModelServerMonitorSpec : Type 0 where
  pub enabled : Bool
  pub selector : Assoc String
  pub port : String
  pub path : String
  pub interval : String

pub record AsyncProcessorSpec : Type 0 where
  pub replicas : Option ℤ
  pub resources : Option ResourceRequirements
  pub image_pull_policy : String
  pub inference_gateway : Option InferenceGatewaySpec
  pub concurrency : Option ℤ
  pub drain_timeout : String
  pub result_poll_timeout : String
  pub redis : Option AsyncRedisSpec
  pub sql : Option AsyncSqlSpec
  pub worker_pools : List AsyncWorkerPool
  pub prometheus_url : String
  pub prometheus_cache_ttl : String
  pub tls : Option AsyncTlsSpec
  pub transform_config : Option AsyncTransformConfig
  pub model_server_monitor : Option AsyncModelServerMonitorSpec
