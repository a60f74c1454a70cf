-- ===== src/Helm/Batch/ApiServer.antt =====
-- The section "apiserver" of the batch-gateway chart: configuration, TLS, routes and monitoring.
use llm_d_batch_gateway_oper.Prelude.{String, Option, none, some, true, not}
use llm_d_batch_gateway_oper.Prelude.Int.{pos, eqb_ℤ}
use llm_d_batch_gateway_oper.Api.Shared.{LoggingConfig}
use llm_d_batch_gateway_oper.Api.Components.{BatchApiConfig, FileApiConfig, ApiServerConfigSpec}
use llm_d_batch_gateway_oper.Api.Features.{CertManagerSpec, TlsSpec, ParentReference, HttpRouteSpec}
use llm_d_batch_gateway_oper.Api.Gateway.{LlmBatchGateway}
use llm_d_batch_gateway_oper.Value.{
  Value, str, int, bool, arr, obj, Fields, end, put, put_if, put_some, put_fields, set_if_not_empty,
  set_if_not_zero, ◌▹◌, is_nonempty, to_interface_slice, to_string_interface_map, items_of,
}
use llm_d_batch_gateway_oper.Helm.{ComponentImages, resource_requirements_to_map, scrape_monitor}
use llm_d_batch_gateway_oper.Helm.Async.{when_enabled, monitoring_enabled}
use llm_d_batch_gateway_oper.Helm.Images.{split_image}
use llm_d_batch_gateway_oper.Tls.{ProfileValues}

unfoldable pub batch_api_values : BatchApiConfig → Fields
batch_api_values api =
    end
    ▹ set_if_not_zero "eventTTLSeconds" api.event_ttl_seconds
    ▹ put_if (is_nonempty api.pass_through_headers) "passThroughHeaders"
        (to_interface_slice api.pass_through_headers)
    ▹ put_some to_interface_slice "extraEndpoints" api.extra_endpoints

unfoldable pub file_api_values : FileApiConfig → Fields
file_api_values api =
    end
    ▹ set_if_not_zero "defaultExpirationSeconds" api.default_expiration_seconds
    ▹ set_if_not_zero "maxLineCount" api.max_line_count

abbrev pub put_batch_api : Option BatchApiConfig → Fields → Fields
put_batch_api none m = m
put_batch_api (some api) m = m ▹ put_fields "batchAPI" (batch_api_values api)

abbrev pub put_file_api : Option FileApiConfig → Fields → Fields
put_file_api none m = m
put_file_api (some api) m = m ▹ put_fields "fileAPI" (file_api_values api)

-- `apiServerConfigToMap`
unfoldable pub api_server_config_to_map : ApiServerConfigSpec → Value
api_server_config_to_map cfg = obj (
    end
    ▹ set_if_not_zero "port" cfg.port
    ▹ set_if_not_zero "observabilityPort" cfg.observability_port
    ▹ set_if_not_zero "readTimeoutSeconds" cfg.read_timeout_seconds
    ▹ set_if_not_zero "writeTimeoutSeconds" cfg.write_timeout_seconds
    ▹ set_if_not_zero "idleTimeoutSeconds" cfg.idle_timeout_seconds
    ▹ put_batch_api cfg.batch_api
    ▹ put_file_api cfg.file_api
    ▹ put_if (is_nonempty cfg.input_headers) "inputHeaders"
        (to_string_interface_map cfg.input_headers)
    ▹ put_if cfg.enable_pprof "enablePprof" (bool true))

-- `"image"` with a pull policy if one is given
unfoldable pub component_image : String → String → Value
component_image image pull_policy =
    let (repo, tag) = split_image image in
    obj (
      end
      ▹ put "repository" (str repo)
      ▹ put "tag" (str tag)
      ▹ set_if_not_empty "pullPolicy" pull_policy)

-- The literal that the sections apiserver, processor and gc begin with.
unfoldable pub component_base : String → String → Fields
component_base image pull_policy =
    end
    ▹ put "enabled" (bool true)
    ▹ put "image" (component_image image pull_policy)
    ▹ put "serviceAccount" (obj (end ▹ put "create" (bool true)))

-- `if logging != nil && logging.Verbosity != 0`
abbrev pub put_logging : Option LoggingConfig → Fields → Fields
put_logging none m = m
put_logging (some logging) m =
    m
    ▹ put_if (not (eqb_ℤ logging.verbosity (pos 0))) "logging"
        (obj (end ▹ put "verbosity" (int logging.verbosity)))

unfoldable pub cert_manager_values : CertManagerSpec → Value
cert_manager_values cm = obj (
    end
    ▹ put "enabled" (bool true)
    ▹ set_if_not_empty "issuerName" cm.issuer_name
    ▹ set_if_not_empty "issuerKind" cm.issuer_kind
    ▹ put_if (is_nonempty cm.dns_names) "dnsNames" (to_interface_slice cm.dns_names))

abbrev pub enabled_tls_values : Option TlsSpec → Fields
enabled_tls_values none = end
enabled_tls_values (some spec) =
    end
    ▹ put "enabled" (bool true)
    ▹ set_if_not_empty "secretName" spec.secret_name
    ▹ put_some cert_manager_values "certManager" spec.cert_manager

unfoldable pub tls_values : Option TlsSpec → ProfileValues → Fields
tls_values spec profile =
    enabled_tls_values (when_enabled (λ t. t.enabled) spec)
    ▹ set_if_not_empty "minVersion" profile.min_version
    ▹ set_if_not_empty "cipherSuites" profile.cipher_suites
    ▹ set_if_not_empty "nextProtos" profile.next_protos

unfoldable pub parent_ref_value : ParentReference → Value
parent_ref_value ref = obj (
    end
    ▹ put "name" (str ref.name)
    ▹ set_if_not_empty "namespace" ref.namespace
    ▹ set_if_not_empty "sectionName" ref.section_name)

unfoldable pub http_route_values : HttpRouteSpec → Value
http_route_values route = obj (
    end
    ▹ put "enabled" (bool true)
    ▹ put_if (is_nonempty route.annotations) "annotations"
        (to_string_interface_map route.annotations)
    ▹ put_if (is_nonempty route.parent_refs) "parentRefs"
        (arr (items_of parent_ref_value route.parent_refs)))

abbrev pub put_api_server_config : Option ApiServerConfigSpec → Fields → Fields
put_api_server_config none m = m
put_api_server_config (some config) m =
    m ▹ put "config" (api_server_config_to_map config) ▹ put_logging config.logging

unfoldable pub api_server_values : LlmBatchGateway → ComponentImages → ProfileValues → Fields
api_server_values gw images profile =
    component_base images.api_server gw.spec.api_server.image_pull_policy
    ▹ put_some int "replicaCount" gw.spec.api_server.replicas
    ▹ put_some resource_requirements_to_map "resources" gw.spec.api_server.resources
    ▹ put_api_server_config gw.spec.api_server.config
    ▹ put_fields "tls" (tls_values gw.spec.tls profile)
    ▹ put_some http_route_values "httpRoute" (when_enabled (λ r. r.enabled) gw.spec.http_route)
    ▹ put_if (monitoring_enabled gw.spec.monitoring) "serviceMonitor" scrape_monitor
