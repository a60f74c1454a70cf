-- ===== src/Monitoring/Resources.antt =====
-- The three resources, as far as their fields are set (internal/monitoring/controller.go).
use Prim.Native.String.{◌++◌}
use llm_d_batch_gateway_oper.Prelude.{ℕ, String, List, [], ◌∷◌}
use llm_d_batch_gateway_oper.Prelude.Assoc.{Assoc}
use llm_d_batch_gateway_oper.Utils.{operator_name, field_owner, leader_election_id}

-- `utils.OperatorName + suffix`
abbrev pub own_name : String → String
own_name suffix = operator_name ++ suffix

abbrev pub metrics_port : String
metrics_port = "https"

abbrev pub metrics_port_num : ℕ
metrics_port_num = 8443

abbrev pub operator_selector_labels : Assoc String
operator_selector_labels =
    ("control-plane", "llm-d-batch-gateway-controller-manager")
    ∷ ("app.kubernetes.io/name", operator_name)
    ∷ []

abbrev pub operator_labels : Assoc String
operator_labels =
    ("control-plane", "llm-d-batch-gateway-controller-manager")
    ∷ ("app.kubernetes.io/name", operator_name)
    ∷ ("app.kubernetes.io/managed-by", field_owner)
    ∷ []

-- metav1.TypeMeta and metav1.ObjectMeta
pub record Meta : Type 0 where
  pub api_version : String
  pub kind : String
  pub name : String
  pub namespace : String
  pub labels : Assoc String
  pub annotations : Assoc String

pub record ServicePort : Type 0 where
  pub name : String
  pub port : ℕ
  pub protocol : String
  pub target_port : ℕ

pub record ServiceSpec : Type 0 where
  pub ports : List ServicePort
  pub selector : Assoc String

-- monitoringv1.SchemeHTTPS
pub data Scheme : Type 0 where
  scheme_https : Scheme

pub record Endpoint : Type 0 where
  pub port : String
  pub path : String
  pub scheme : Scheme
  pub bearer_token_file : String
  pub ca_file : String

pub record ServiceMonitorSpec : Type 0 where
  pub match_labels : Assoc String
  pub endpoints : List Endpoint

pub record Rule : Type 0 where
  pub alert : String
  pub expr : String
  pub for_duration : String
  pub labels : Assoc String
  pub annotations : Assoc String

pub record RuleGroup : Type 0 where
  pub name : String
  pub rules : List Rule

-- What the controller applies.
pub data Resource : Type 0 where
  metrics_service : Meta → ServiceSpec → Resource
  service_monitor : Meta → ServiceMonitorSpec → Resource
  prometheus_rule : Meta → List RuleGroup → Resource

abbrev pub meta_of : Resource → Meta
meta_of (metrics_service meta spec) = meta
meta_of (service_monitor meta spec) = meta
meta_of (prometheus_rule meta groups) = meta

-- The object of `reconcileMetricsService`.
unfoldable pub service_for : String → Resource
service_for namespace =
    metrics_service
      (record {
        api_version = "v1";
        kind = "Service";
        name = own_name "-metrics";
        namespace = namespace;
        labels = operator_labels;
        annotations =
            ("service.beta.openshift.io/serving-cert-secret-name", own_name "-metrics-tls") ∷ [];
      })
      (record {
        ports =
            (record {
              name = metrics_port;
              port = metrics_port_num;
              protocol = "TCP";
              target_port = metrics_port_num;
            })
            ∷ [];
        selector = operator_selector_labels;
      })

-- The object of `reconcileServiceMonitor`.
unfoldable pub service_monitor_for : String → Resource
service_monitor_for namespace =
    service_monitor
      (record {
        api_version = "monitoring.coreos.com/v1";
        kind = "ServiceMonitor";
        name = own_name "-metrics";
        namespace = namespace;
        labels = operator_labels;
        annotations = [];
      })
      (record {
        match_labels = operator_selector_labels;
        endpoints =
            (record {
              port = metrics_port;
              path = "/metrics";
              scheme = scheme_https;
              bearer_token_file = "/var/run/secrets/kubernetes.io/serviceaccount/token";
              ca_file = "/etc/prometheus/configmaps/serving-certs-ca-bundle/service-ca.crt";
            })
            ∷ [];
      })

abbrev pub error_rate_rule : Rule
error_rate_rule = record {
  alert = "LLMBatchGatewayOperatorHighReconcileErrorRate";
  expr = "rate(llmbatchgateway_controller_reconcile_errors_total[5m]) > 0.1";
  for_duration = "5m";
  labels = ("severity", "warning") ∷ [];
  annotations =
      ("summary", "LLMBatchGateway operator reconcile error rate is high")
      ∷ (
        "description",
        "The operator has been experiencing more than 0.1 reconcile errors per second for 5 minutes.",
      )
      ∷ [];
}

abbrev pub leader_election_rule : String → Rule
leader_election_rule namespace = record {
  alert = "LLMBatchGatewayOperatorLeaderElectionLost";
  expr =
      "leader_election_master_status{name=\"" ++ leader_election_id ++ "\",namespace=\""
      ++ namespace ++ "\"} == 0";
  for_duration = "5m";
  labels = ("severity", "critical") ∷ [];
  annotations =
      ("summary", "LLMBatchGateway operator has lost leader election")
      ∷ (
        "description",
        "The operator in namespace " ++ namespace
            ++ " has lost leader election and is not reconciling.",
      )
      ∷ [];
}

-- The object of `reconcilePrometheusRule`.
unfoldable pub prometheus_rule_for : String → Resource
prometheus_rule_for namespace =
    prometheus_rule
      (record {
        api_version = "monitoring.coreos.com/v1";
        kind = "PrometheusRule";
        name = own_name "-alerts";
        namespace = namespace;
        labels = operator_labels;
        annotations = [];
      })
      ((record {
        name = "llmbatchgateway.operator.rules";
        rules = error_rate_rule ∷ leader_election_rule namespace ∷ [];
      })
        ∷ [])
