-- ===== src/Api/Gateway.antt =====
-- api/v1alpha1/llmbatchgateway_types.go: the resource, its spec and its metadata.
use llm_d_batch_gateway_oper.Prelude.{String, Option, List}
use llm_d_batch_gateway_oper.Prelude.Int.{ℤ}
use llm_d_batch_gateway_oper.Api.Shared.{SecretReference}
use llm_d_batch_gateway_oper.Api.Components.{ApiServerSpec, ProcessorSpec, GcSpec}
use llm_d_batch_gateway_oper.Api.Features.{
  FileStorageSpec, MonitoringSpec, GrafanaSpec, PrometheusRuleSpec, OtelSpec, TlsSpec,
  HttpRouteSpec,
}

pub record LlmBatchGatewaySpec : Type 0 where
  pub secret_ref : SecretReference
  pub db_backend : String
  pub extra_endpoints : Option (List String)
  pub file_storage : Option FileStorageSpec
  pub api_server : ApiServerSpec
  pub processor : ProcessorSpec
  pub gc : GcSpec
  pub monitoring : Option MonitoringSpec
  pub grafana : Option GrafanaSpec
  pub tls : Option TlsSpec
  pub http_route : Option HttpRouteSpec
  pub otel : Option OtelSpec
  pub prometheus_rule : Option PrometheusRuleSpec
  pub image_pull_secrets : List String

-- The object metadata that the operator reads, and the spec. The status is passed beside it.
pub record LlmBatchGateway : Type 0 where
  pub name : String
  pub namespace : String
  pub uid : String
  pub generation : ℤ
  pub resource_version : String
  pub spec : LlmBatchGatewaySpec
