-- ===== src/Monitoring/Reconcile.antt =====
-- `MetricsController.Reconcile`: the three resources are applied in turn. The API server and the JSON
-- encoder are parameters; each application is recorded with its answer, with the counted failures and
-- the events.
use llm_d_batch_gateway_oper.Prelude.{String, List, ◌∷◌, Option, none, some}
use llm_d_batch_gateway_oper.Controller.Errors.{Result}
use llm_d_batch_gateway_oper.Controller.Cluster.{Act, pure, ◌>>=◌, ◌>>◌}
use llm_d_batch_gateway_oper.Utils.{ApplyError, server_side_apply}
use llm_d_batch_gateway_oper.Monitoring.Resources.{
  Resource, meta_of, service_for, service_monitor_for, prometheus_rule_for,
}

pub data MetricsCall : Type 0 where
  applied : Resource → Option ApplyError → MetricsCall
  -- the counter's label
  counted : String → MetricsCall
  -- a warning on the object, with its reason
  warned : Resource → String → MetricsCall

pub record MetricsState (W : Type 0) : Type 0 where
  pub world : W
  pub calls : List MetricsCall

-- `fmt.Errorf("reconciling ...: %w", err)`, with what is reconciled.
pub data MetricsError : Type 0 where
  reconciling : String → ApplyError → MetricsError

-- The API and the encoder, as `ServerSideApply` uses them.
pub record ApplyApi (W : Type 0) : Type 0 where
  pub marshal : Resource → Result String String
  pub patch : Resource → String → String → Act W (Option String)

-- One of the three parts: its object, the counter's label, and its name in the error.
pub record Stage : Type 0 where
  pub resource : Resource
  pub label : String
  pub subject : String

abbrev pub service_stage : String → Stage
service_stage namespace = record {
  resource = service_for namespace;
  label = "ServiceApplyFailed";
  subject = "operator metrics Service";
}

abbrev pub service_monitor_stage : String → Stage
service_monitor_stage namespace = record {
  resource = service_monitor_for namespace;
  label = "ServiceMonitorApplyFailed";
  subject = "operator ServiceMonitor";
}

abbrev pub prometheus_rule_stage : String → Stage
prometheus_rule_stage namespace = record {
  resource = prometheus_rule_for namespace;
  label = "PrometheusRuleApplyFailed";
  subject = "operator PrometheusRule";
}

module _ {W : Type 0} where
  abbrev pub note : MetricsCall → Act (MetricsState W) (Unit {0})
  note call s = (tt, record s { calls = call ∷ s.calls })

  -- The body of one `if` of `Reconcile`, or what follows it.
  abbrev pub after_stage :
      Stage
      → Option ApplyError
      → Act (MetricsState W) (Option MetricsError)
      → Act (MetricsState W) (Option MetricsError)
  after_stage stage none rest = rest
  after_stage stage (some e) rest = do
    note (counted stage.label)
    note (warned stage.resource "ReconcileFailed")
    pure (some (reconciling stage.subject e))

  module _ (api : ApplyApi W) where
    -- `reconcileMetricsService` and its likes, without the construction of the object.
    abbrev pub apply_resource : Resource → Act (MetricsState W) (Option ApplyError)
    apply_resource resource s =
        let (e, w) =
          server_side_apply (λ r. (meta_of r).kind) (λ r. (meta_of r).name) api.marshal api.patch
            resource s.world in
        (e, record s { world = w; calls = applied resource e ∷ s.calls })

    abbrev pub run_stage :
        Stage
        → Act (MetricsState W) (Option MetricsError)
        → Act (MetricsState W) (Option MetricsError)
    run_stage stage rest = do e ← apply_resource stage.resource; after_stage stage e rest

    unfoldable pub reconcile_metrics : String → Act (MetricsState W) (Option MetricsError)
    reconcile_metrics namespace = run_stage (service_stage namespace) (
        run_stage (service_monitor_stage namespace)
          (run_stage (prometheus_rule_stage namespace) (pure none)))
