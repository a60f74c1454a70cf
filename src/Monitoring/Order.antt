-- ===== src/Monitoring/Order.antt =====
-- The order in which the resources are applied, and what a failure leaves behind.
use llm_d_batch_gateway_oper.Prelude.{
  String, ◌≡◌, refl, inl, inr, List, [], ◌∷◌, Option, none, some,
}
use llm_d_batch_gateway_oper.Controller.Errors.{ok, err, Result-cases}
use llm_d_batch_gateway_oper.Utils.{
  ApplyError, marshalling, patching, patch_error, server_side_apply,
}
use llm_d_batch_gateway_oper.Controller.Cluster.{Act, pure}
use llm_d_batch_gateway_oper.Monitoring.Resources.{
  meta_of, service_for, service_monitor_for, prometheus_rule_for,
}
use llm_d_batch_gateway_oper.Monitoring.Reconcile.{
  applied, counted, warned, MetricsState, MetricsError, reconciling, ApplyApi, Stage, after_stage,
  run_stage, service_stage, service_monitor_stage, prometheus_rule_stage, reconcile_metrics,
}

module _ {W : Type 0} (api : ApplyApi W) where
  -- What the API server does with the JSON of the part's object, sent by the operator.
  abbrev answer_to : Stage → String → W → Option String × W
  answer_to stage text = api.patch stage.resource text "llmbatchgateway-controller"

  abbrev encoding_error : Stage → String → ApplyError
  encoding_error stage reason =
      marshalling (meta_of stage.resource).kind (meta_of stage.resource).name reason

  -- The state after a failure: the error is counted and told in an event on the object.
  abbrev after_failure : Stage → ApplyError → W → MetricsState W → MetricsState W
  after_failure stage e w s = record {
    world = w;
    calls =
        warned stage.resource "ReconcileFailed"
        ∷ counted stage.label
        ∷ applied stage.resource (some e)
        ∷ s.calls;
  }

  -- From a state to the result and the state after it: the JSON of each part in turn is sent to the
  -- API server, which accepts it, up to the first that cannot be encoded or is not accepted; that
  -- failure is counted, told, and returned with its reason, and nothing further is sent.
  pub data Progress
      : List Stage → MetricsState W → Option MetricsError → MetricsState W → Type 0 where
    finished : (s : MetricsState W) → Progress [] s none s
    accepted :
        (stage : Stage) (stages : List Stage) (s after : MetricsState W) (w : W) (text : String)
        (result : Option MetricsError)
        → api.marshal stage.resource ≡ ok text
        → answer_to stage text s.world ≡ (none, w)
        → Progress stages
            (record { world = w; calls = applied stage.resource none ∷ s.calls })
            result
            after
        → Progress (stage ∷ stages) s result after
    refused :
        (stage : Stage) (stages : List Stage) (s : MetricsState W) (w : W) (text reason : String)
        → api.marshal stage.resource ≡ ok text
        → answer_to stage text s.world ≡ (some reason, w)
        → Progress
            (stage ∷ stages)
            s
            (some (reconciling stage.subject (patching reason)))
            (after_failure stage (patching reason) w s)
    not_encoded :
        (stage : Stage) (stages : List Stage) (s : MetricsState W) (reason : String)
        → api.marshal stage.resource ≡ err reason
        → Progress
            (stage ∷ stages)
            s
            (some (reconciling stage.subject (encoding_error stage reason)))
            (after_failure stage (encoding_error stage reason) s.world s)

  abbrev IsRun : List Stage → Act (MetricsState W) (Option MetricsError) → Type 0
  IsRun stages m = (s : MetricsState W) → Progress stages s (m s).0 (m s).1

  module _ (stage : Stage) (stages : List Stage) (rest : Act (MetricsState W) (Option MetricsError))
      (h : IsRun stages rest) where
    answered :
        (s : MetricsState W) (text : String) (answer : Option String × W)
        → api.marshal stage.resource ≡ ok text
        → answer_to stage text s.world ≡ answer
        → let e = patch_error answer.0 in
          let r =
            after_stage stage e rest
              (record { world = answer.1; calls = applied stage.resource e ∷ s.calls }) in
          Progress (stage ∷ stages) s r.0 r.1
    answered s text (none, w) m a =
        let next : MetricsState W = record {
          world = w;
          calls = applied stage.resource none ∷ s.calls;
        } in
        accepted stage stages s (rest next).1 w text (rest next).0 m a (h next)
    answered s text (some reason, w) m a = refused stage stages s w text reason m a

    run_stage-IsRun : IsRun (stage ∷ stages) (run_stage api stage rest)
    unfolding server_side_apply
    run_stage-IsRun s = elim (Result-cases (api.marshal stage.resource)) [
      | inl (text, m) ↦ rw m (answered s text _ m refl)
      | inr (reason, m) ↦ rw m (not_encoded stage stages s reason m)
    ]

-- The three parts in their order, each with its label and its name.
abbrev pub three_stages : String → List Stage
three_stages namespace =
    (record {
      resource = service_for namespace;
      label = "ServiceApplyFailed";
      subject = "operator metrics Service";
    })
    ∷ (record {
      resource = service_monitor_for namespace;
      label = "ServiceMonitorApplyFailed";
      subject = "operator ServiceMonitor";
    })
    ∷ (record {
      resource = prometheus_rule_for namespace;
      label = "PrometheusRuleApplyFailed";
      subject = "operator PrometheusRule";
    })
    ∷ []

-- Whatever the API server answers, a reconcile sends the JSON of the Service, of the ServiceMonitor and
-- of the PrometheusRule to it, in this order and as the operator, each only after the one before it
-- was accepted, and returns no error if all three were; at the first that cannot be encoded or is
-- not accepted it counts one error under that resource's label, emits one warning on it, sends
-- nothing further, and returns the reason.
pub reconcile_metrics-Progress :
    {W : Type 0} (api : ApplyApi W) (namespace : String) (s : MetricsState W)
    → let (result, s') = reconcile_metrics api namespace s in
      Progress api (three_stages namespace) s result s'
unfolding reconcile_metrics
reconcile_metrics-Progress api namespace s =
    let rule = run_stage api (prometheus_rule_stage namespace) (pure none) in
    let monitor = run_stage api (service_monitor_stage namespace) rule in
    run_stage-IsRun api (service_stage namespace) _ monitor
      (run_stage-IsRun api (service_monitor_stage namespace) _ rule
        (run_stage-IsRun api (prometheus_rule_stage namespace) [] (pure none) finished))
      s
