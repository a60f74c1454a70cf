-- ===== src/Api/Features.antt =====
-- api/v1alpha1/llmbatchgateway_types.go: file storage, monitoring, TLS, routing and tracing.
use llm_d_batch_gateway_oper.Prelude.{String, Option, Bool, List}
use llm_d_batch_gateway_oper.Prelude.Assoc.{Assoc}
use llm_d_batch_gateway_oper.Prelude.Int.{ℤ}

pub record S3StorageSpec : Type 0 where
  pub region : String
  pub bucket : String
  pub endpoint : String
  pub access_key_id : String
  pub prefix : String
  pub use_path_style : Bool
  pub auto_create_bucket : Option Bool

pub record FsStorageSpec : Type 0 where
  pub base_path : String
  pub claim_name : String

pub record FileRetrySpec : Type 0 where
  pub max_retries : Option ℤ
  pub initial_backoff : String
  pub max_backoff : String

pub record FileStorageSpec : Type 0 where
  pub s3 : Option S3StorageSpec
  pub fs : Option FsStorageSpec
  pub retry : Option FileRetrySpec

pub record MonitoringSpec : Type 0 where
  pub enabled : Bool

pub record GrafanaSpec : Type 0 where
  pub enabled : Bool

pub record PrometheusRuleSpec : Type 0 where
  pub enabled : Bool
  pub labels : Assoc String

pub record OtelSpec : Type 0 where
  pub endpoint : String
  pub insecure : Bool
  pub sampler : String
  pub sampler_arg : String
  pub redis_tracing : Bool
  pub postgresql_tracing : Bool

pub record CertManagerSpec : Type 0 where
  pub issuer_name : String
  pub issuer_kind : String
  pub dns_names : List String

pub record TlsSpec : Type 0 where
  pub enabled : Bool
  pub secret_name : String
  pub cert_manager : Option CertManagerSpec

pub record ParentReference : Type 0 where
  pub name : String
  pub namespace : String
  pub section_name : String

pub record HttpRouteSpec : Type 0 where
  pub enabled : Bool
  pub annotations : Assoc String
  pub parent_refs : List ParentReference
