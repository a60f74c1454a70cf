-- ===== src/Helm/Async.antt =====
-- The Helm values of the llm-d-async chart (internal/controller/helm_async.go,
-- `specToAsyncHelmValues`). Each definition fills one map of the source; the transport's part is in
-- AsyncTransport.
use llm_d_batch_gateway_oper.Prelude.{String, Option, none, some, Bool, true, false}
use llm_d_batch_gateway_oper.Api.Async.{
  AsyncWorkerPool, AsyncTlsSpec, AsyncRequestTransform, AsyncTransformConfig,
  AsyncModelServerMonitorSpec, AsyncProcessorSpec,
}
use llm_d_batch_gateway_oper.Api.Features.{MonitoringSpec, PrometheusRuleSpec, OtelSpec}
use llm_d_batch_gateway_oper.Api.Gateway.{LlmBatchGateway}
use llm_d_batch_gateway_oper.Value.{
  Value, str, int, bool, arr, obj, Fields, end, put, put_if, put_some, set_if_not_empty, ◌▹◌,
  is_nonempty, to_string_interface_map, items_of,
}
use llm_d_batch_gateway_oper.Helm.{
  ComponentImages, Unmarshal, to_json_aware_map, scrape_monitor, resource_requirements_to_map,
  named,
}
use llm_d_batch_gateway_oper.Helm.Images.{split_image}
use llm_d_batch_gateway_oper.Helm.AsyncTransport.{put_transport}

unfoldable pub image_values : String → Value
image_values image =
    let (repo, tag) = split_image image in
    obj (end ▹ put "repository" (str repo) ▹ put "tag" (str tag))

unfoldable pub worker_pool_value : AsyncWorkerPool → Value
worker_pool_value wp = obj (
    end
    ▹ put "id" (str wp.name)
    ▹ put "workers" (int wp.workers)
    ▹ set_if_not_empty "gate_type" wp.gate_type
    ▹ put_if (is_nonempty wp.gate_params) "gate_params" (to_string_interface_map wp.gate_params))

unfoldable pub async_tls_values : AsyncTlsSpec → Value
async_tls_values tls = obj (
    end
    ▹ set_if_not_empty "secretName" tls.secret_name
    ▹ put "insecureSkipVerify" (bool tls.insecure_skip_verify)
    ▹ set_if_not_empty "caCertKey" tls.ca_cert_key
    ▹ set_if_not_empty "certKey" tls.cert_key
    ▹ set_if_not_empty "keyKey" tls.key_key)

unfoldable pub transform_value : Unmarshal → AsyncRequestTransform → Value
transform_value unmarshal rt = obj (
    end
    ▹ put "name" (str rt.name)
    ▹ put "type" (str rt.type)
    ▹ put_if (is_nonempty rt.parameters) "parameters" (to_json_aware_map unmarshal rt.parameters))

unfoldable pub put_transforms : Unmarshal → Option AsyncTransformConfig → Fields → Fields
put_transforms unmarshal none m = m
put_transforms unmarshal (some config) m =
    m
    ▹ put_if (is_nonempty config.request_transforms) "transformConfig" (
        obj (
          end
          ▹ put "requestTransforms"
              (arr (items_of (transform_value unmarshal) config.request_transforms))))

unfoldable pub async_otel_values : OtelSpec → Value
async_otel_values otel = obj (
    end
    ▹ set_if_not_empty "endpoint" otel.endpoint
    ▹ put "insecure" (bool otel.insecure)
    ▹ set_if_not_empty "sampler" otel.sampler
    ▹ set_if_not_empty "samplerArg" otel.sampler_arg
    ▹ put "redisTracing" (bool otel.redis_tracing))

unfoldable pub model_server_monitor_values : AsyncModelServerMonitorSpec → Value
model_server_monitor_values msm = obj (
    end
    ▹ put "enabled" (bool true)
    ▹ put_if (is_nonempty msm.selector) "selector" (to_string_interface_map msm.selector)
    ▹ set_if_not_empty "port" msm.port
    ▹ set_if_not_empty "path" msm.path
    ▹ set_if_not_empty "interval" msm.interval)

-- A feature that is there and enabled.
abbrev pub when_enabled {ℓ} : {A : Type ℓ} → (A → Bool) → Option A → Option A
when_enabled enabled none = none
when_enabled enabled (some a) = elim (enabled a) [ true ↦ some a | false ↦ none ]

abbrev pub monitoring_enabled : Option MonitoringSpec → Bool
monitoring_enabled none = false
monitoring_enabled (some monitoring) = monitoring.enabled

unfoldable pub dashboards : Bool → Value
dashboards enabled = obj (end ▹ put "dashboards" (obj (end ▹ put "enabled" (bool enabled))))

unfoldable pub prometheus_rule_values : PrometheusRuleSpec → Value
prometheus_rule_values rule = obj (
    end
    ▹ put "enabled" (bool rule.enabled)
    ▹ put_if (is_nonempty rule.labels) "labels" (to_string_interface_map rule.labels))

module _ (unmarshal : Unmarshal) (gw : LlmBatchGateway) (secret_name : String)
    (images : ComponentImages) where
  -- The map `ap` up to the transport.
  unfoldable pub async_base_values : AsyncProcessorSpec → Fields
  async_base_values ac =
      end
      ▹ put "image" (image_values images.async)
      ▹ put_some int "replicaCount" ac.replicas
      ▹ set_if_not_empty "imagePullPolicy" ac.image_pull_policy
      ▹ put_some int "concurrency" ac.concurrency
      ▹ put_some (λ ig. str ig.url) "igwBaseURL" ac.inference_gateway
      ▹ put_some resource_requirements_to_map "resources" ac.resources
      ▹ set_if_not_empty "drainTimeout" ac.drain_timeout
      ▹ set_if_not_empty "prometheusURL" ac.prometheus_url
      ▹ set_if_not_empty "prometheusCacheTTL" ac.prometheus_cache_ttl

  -- What follows the transport.
  unfoldable pub async_feature_values : AsyncProcessorSpec → Fields → Fields
  async_feature_values ac ap =
      ap
      ▹ put_if (is_nonempty ac.worker_pools) "workerPools"
          (arr (items_of worker_pool_value ac.worker_pools))
      ▹ put_some async_tls_values "tls" ac.tls
      ▹ put_transforms unmarshal ac.transform_config
      ▹ put_some async_otel_values "otel" gw.spec.otel
      ▹ put_some model_server_monitor_values "modelServerMonitor"
          (when_enabled (λ m. m.enabled) ac.model_server_monitor)
      ▹ put_if (is_nonempty gw.spec.image_pull_secrets) "imagePullSecrets"
          (arr (items_of named gw.spec.image_pull_secrets))
      ▹ put_if (monitoring_enabled gw.spec.monitoring) "podMonitor" scrape_monitor
      ▹ put_some (λ g. dashboards true) "grafana" (when_enabled (λ g. g.enabled) gw.spec.grafana)
      ▹ put_some prometheus_rule_values "prometheusRule"
          (when_enabled (λ r. r.enabled) gw.spec.prometheus_rule)

  unfoldable pub async_processor_values : AsyncProcessorSpec → Fields
  async_processor_values ac =
      async_feature_values ac (put_transport gw secret_name ac (async_base_values ac))

  unfoldable pub async_values_of : Option AsyncProcessorSpec → Fields
  async_values_of none = end
  async_values_of (some ac) =
      end ▹ put "nameOverride" (str "async-processor") ▹ put "ap" (obj (async_processor_values ac))

  -- `specToAsyncHelmValues`
  unfoldable pub spec_to_async_helm_values : Fields
  unfolding async_values_of
  spec_to_async_helm_values = async_values_of gw.spec.processor.async_config
