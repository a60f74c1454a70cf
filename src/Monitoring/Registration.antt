-- ===== src/Monitoring/Registration.antt =====
-- `MetricsController.SetupWithManager`: the events that lead to a reconcile.
use llm_d_batch_gateway_oper.Prelude.{String, Bool, ◌&&◌, ◌==◌, List, [], ◌∷◌, ◌++◌, if◌then◌else◌}
use llm_d_batch_gateway_oper.Controller.Watch.{Request}
use llm_d_batch_gateway_oper.Utils.{
  service, service_monitor, prometheus_rule, RestMapper, Source, watches, at_startup, if_installed,
}
use llm_d_batch_gateway_oper.Monitoring.Resources.{own_name}

-- The requests for an event, by the object's namespace and name.
abbrev pub MetricsHandler : Type 0
MetricsHandler = String → String → List Request

-- `reconcile.Request{}`
abbrev pub empty_request : Request
empty_request = record { name = ""; namespace = "" }

-- `nameFilter`
unfoldable pub name_filter : String → String → String → String → Bool
name_filter operator_namespace suffix namespace name =
    namespace == operator_namespace && name == own_name suffix

-- `enqueue`, behind the predicate.
unfoldable pub enqueue_own : String → String → MetricsHandler
unfolding name_filter
enqueue_own operator_namespace suffix namespace name =
    if name_filter operator_namespace suffix namespace name then empty_request ∷ [] else []

abbrev pub bootstrap : MetricsHandler
bootstrap namespace name = empty_request ∷ []

unfoldable pub metrics_sources : RestMapper → String → List (Source MetricsHandler)
metrics_sources mapper namespace =
    (at_startup bootstrap ∷ watches service (enqueue_own namespace "-metrics") ∷ [])
    ++ (if_installed mapper service_monitor
        (watches service_monitor (enqueue_own namespace "-metrics")))
    ++ if_installed mapper prometheus_rule
        (watches prometheus_rule (enqueue_own namespace "-alerts"))
