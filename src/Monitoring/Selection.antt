-- ===== src/Monitoring/Selection.antt =====
-- The ServiceMonitor finds the Service, and the alert reads the counter of reconcile errors
-- (internal/monitoring/metrics.go).
use Prim.Native.String.{◌++◌}
use llm_d_batch_gateway_oper.Prelude.{String, ◌≡◌, refl, List, [], map, some, All}
use mathlib.Core.List.{Memᴰ}
use llm_d_batch_gateway_oper.Prelude.Assoc.{Assoc, lookup}
use llm_d_batch_gateway_oper.Monitoring.Resources as Own
use llm_d_batch_gateway_oper.Monitoring.Resources.{
  Resource, Meta, ServicePort, Endpoint, RuleGroup, meta_of, service_for, service_monitor_for,
  prometheus_rule_for, own_name,
}

-- prometheus.CounterOpts, and the name that Prometheus builds from it.
pub record CounterOpts : Type 0 where
  pub namespace : String
  pub subsystem : String
  pub name : String

abbrev pub reconcile_errors : CounterOpts
reconcile_errors = record {
  namespace = "llmbatchgateway";
  subsystem = "controller";
  name = "reconcile_errors_total";
}

abbrev pub metric_name : CounterOpts → String
metric_name opts = opts.namespace ++ "_" ++ opts.subsystem ++ "_" ++ opts.name

-- The labels that a ServiceMonitor selects by, and the ports it scrapes.
abbrev match_labels_of : Resource → Assoc String
match_labels_of (Own.service_monitor meta spec) = spec.match_labels
match_labels_of (Own.metrics_service meta spec) = []
match_labels_of (Own.prometheus_rule meta groups) = []

abbrev endpoints_of : Resource → List Endpoint
endpoints_of (Own.service_monitor meta spec) = spec.endpoints
endpoints_of (Own.metrics_service meta spec) = []
endpoints_of (Own.prometheus_rule meta groups) = []

abbrev ports_of : Resource → List ServicePort
ports_of (Own.metrics_service meta spec) = spec.ports
ports_of (Own.service_monitor meta spec) = []
ports_of (Own.prometheus_rule meta groups) = []

abbrev selector_of : Resource → Assoc String
selector_of (Own.metrics_service meta spec) = spec.selector
selector_of (Own.service_monitor meta spec) = []
selector_of (Own.prometheus_rule meta groups) = []

-- Every label of the selector is one of the labels.
abbrev Selects : Assoc String → Assoc String → Type 0
Selects selector labels = All (λ (p : String × String). lookup p.0 labels ≡ some p.1) selector

-- The ServiceMonitor stands in the Service's namespace, selects by labels that the Service carries
-- and by which the Service selects its pods, and scrapes only ports that the Service names.
pub service_monitor-Selects_service :
    (namespace : String)
    → let monitor = service_monitor_for namespace in
      let service = service_for namespace in
      ((meta_of monitor).namespace ≡ (meta_of service).namespace)
      × Selects (match_labels_of monitor) (meta_of service).labels
      × (match_labels_of monitor ≡ selector_of service)
      × All
          (λ (e : Endpoint). Memᴰ e.port (map (λ (p : ServicePort). p.name) (ports_of service)))
          (endpoints_of monitor)
unfolding service_monitor_for service_for lookup
service_monitor-Selects_service namespace = (refl, (refl, (refl, tt)), refl, (Memᴰ.head refl, tt))

-- The first alert is on the counter that both controllers increment.
error_rate_expr :
    Own.error_rate_rule.expr ≡ "rate(" ++ metric_name reconcile_errors ++ "[5m]) > 0.1"
error_rate_expr = refl
