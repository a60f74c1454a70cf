-- ===== src/Api/Components.antt =====
-- api/v1alpha1/llmbatchgateway_types.go: the specs of the API server, the batch processor and the
-- garbage collector. A slice whose nil value the operator tells apart is an `Option`.
use llm_d_batch_gateway_oper.Prelude.{String, Option, Bool, List}
use llm_d_batch_gateway_oper.Prelude.Assoc.{Assoc}
use llm_d_batch_gateway_oper.Prelude.Int.{ℤ}
use llm_d_batch_gateway_oper.Api.Shared.{ResourceRequirements, LoggingConfig}
use llm_d_batch_gateway_oper.Api.Async.{AsyncProcessorSpec}

pub record BatchApiConfig : Type 0 where
  pub event_ttl_seconds : ℤ
  pub pass_through_headers : List String
  pub extra_endpoints : Option (List String)

pub record FileApiConfig : Type 0 where
  pub default_expiration_seconds : ℤ
  pub max_size_bytes : ℤ
  pub max_line_count : ℤ

pub record ApiServerConfigSpec : Type 0 where
  pub port : ℤ
  pub observability_port : ℤ
  pub read_timeout_seconds : ℤ
  pub write_timeout_seconds : ℤ
  pub idle_timeout_seconds : ℤ
  pub input_headers : Assoc String
  pub batch_api : Option BatchApiConfig
  pub file_api : Option FileApiConfig
  pub enable_pprof : Bool
  pub logging : Option LoggingConfig

pub record ApiServerSpec : Type 0 where
  pub replicas : Option ℤ
  pub resources : Option ResourceRequirements
  pub config : Option ApiServerConfigSpec
  pub image_pull_policy : String

pub record ModelGatewaySpec : Type 0 where
  pub inference_pool_name : String
  pub inference_objective : String
  pub request_queue_name : String
  pub result_queue_name : String

pub record AimdConfig : Type 0 where
  pub enabled : Option Bool
  pub min : ℤ
  pub backoff_factor : String
  pub additive_increase : ℤ

pub record ConcurrencyConfig : Type 0 where
  pub global : ℤ
  pub per_endpoint : ℤ
  pub recovery : ℤ
  pub aimd : Option AimdConfig

pub record ResumableConfigSpec : Type 0 where
  pub lease_duration : String
  pub finalize_concurrency : ℤ
  pub finalize_timeout : String

pub record ProcessorConfigSpec : Type 0 where
  pub num_workers : ℤ
  pub input_file_disk_budget_percent : ℤ
  pub extra_endpoints : Option (List String)
  pub concurrency : Option ConcurrencyConfig
  pub resumable : Option ResumableConfigSpec
  pub default_output_expiration_seconds : ℤ
  pub progress_ttl_seconds : ℤ
  pub progress_update_interval : String
  pub send_fairness_header : Option Bool
  pub route_key_method : String
  pub enable_pprof : Bool
  pub logging : Option LoggingConfig

pub record ProcessorSpec : Type 0 where
  pub replicas : Option ℤ
  pub resources : Option ResourceRequirements
  pub image_pull_policy : String
  pub config : Option ProcessorConfigSpec
  pub dispatch_mode : String
  pub model_gateways : Assoc ModelGatewaySpec
  pub async_config : Option AsyncProcessorSpec

pub record ReconcilerSpec : Type 0 where
  pub enabled : Bool
  pub interval : String

pub record GcConfigSpec : Type 0 where
  pub dry_run : Bool
  pub max_concurrency : ℤ
  pub logging : Option LoggingConfig
  pub reconciler : Option ReconcilerSpec

pub record GcSpec : Type 0 where
  pub replicas : Option ℤ
  pub resources : Option ResourceRequirements
  pub interval : String
  pub config : Option GcConfigSpec
  pub image_pull_policy : String
