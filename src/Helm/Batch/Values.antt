-- ===== src/Helm/Batch/Values.antt =====
-- `specToBatchHelmValues`: the sections together, with the dashboards and the alerts.
use llm_d_batch_gateway_oper.Prelude.{String}
use llm_d_batch_gateway_oper.Api.Gateway.{LlmBatchGateway}
use llm_d_batch_gateway_oper.Value.{obj, Fields, end, put, put_some, ◌▹◌}
use llm_d_batch_gateway_oper.Helm.{ComponentImages}
use llm_d_batch_gateway_oper.Helm.Async.{dashboards, prometheus_rule_values}
use llm_d_batch_gateway_oper.Helm.Batch.Global.{global_values}
use llm_d_batch_gateway_oper.Helm.Batch.ApiServer.{api_server_values}
use llm_d_batch_gateway_oper.Helm.Batch.Processor.{processor_values}
use llm_d_batch_gateway_oper.Helm.Batch.Gc.{gc_values}
use llm_d_batch_gateway_oper.Tls.{ProfileValues}

unfoldable pub spec_to_batch_helm_values :
    LlmBatchGateway → String → ComponentImages → ProfileValues → Fields
spec_to_batch_helm_values gw secret_name images profile =
    end
    ▹ put "global" (obj (global_values gw secret_name))
    ▹ put "apiserver" (obj (api_server_values gw images profile))
    ▹ put "processor" (obj (processor_values gw images))
    ▹ put "gc" (obj (gc_values gw images))
    ▹ put_some (λ g. dashboards g.enabled) "grafana" gw.spec.grafana
    ▹ put_some prometheus_rule_values "prometheusRule" gw.spec.prometheus_rule
