-- ===== src/Examples/Events.antt =====
-- The theorems on events, monitoring, rendering and counting, used on small inputs.
use mathlib.Core.List.{Memᴰ}
use llm_d_batch_gateway_oper.Prelude.{
  String, ◌≡◌, refl, ◌↔◌, ◌⊎◌, true, false, List, [], ◌∷◌, ◌++◌, map, none, some, ◌==◌,
  if◌then◌else◌,
}
use llm_d_batch_gateway_oper.Controller.Errors.{ok}
use llm_d_batch_gateway_oper.Controller.Objects.{Object, gvk_of, any_reference, is_owned_by}
use llm_d_batch_gateway_oper.Controller.SecretFilter.{matches}
use llm_d_batch_gateway_oper.Controller.Status.{
  no_component_status, count_deployments, count_stateful_sets,
}
use llm_d_batch_gateway_oper.Controller.Status.Counting.{
  processor, of_deployment, of_stateful_set, status_of, last_counted, counts_last_workload,
}
use llm_d_batch_gateway_oper.Controller.Rollout.{Deployment, deployment_replica_status}
use llm_d_batch_gateway_oper.Controller.Status.Dispatcher.{rendered_dispatcher_counted}
use llm_d_batch_gateway_oper.Controller.Registration.{built_in_kinds, gateway_sources}
use llm_d_batch_gateway_oper.Controller.Ownership.{kind_name, managed_kind_watched}
use llm_d_batch_gateway_oper.Controller.Tracked.{
  FilterOp, track, untrack, run_ops, spec_ops, filter_refines_set,
}
use llm_d_batch_gateway_oper.Helm.Images.{contains_char}
use llm_d_batch_gateway_oper.Helm.Render.{
  HelmRenderer, base_name, is_blank, label_async, last_segment, render_async_chart, render_chart,
  render_templates, rendered_objects, template_objects, templates_objects, without_slashes,
}
use llm_d_batch_gateway_oper.Helm.Rendered.{all_documents, collect, templates_objects-collect}
use llm_d_batch_gateway_oper.Monitoring.Order.{Progress, three_stages, reconcile_metrics-Progress}
use llm_d_batch_gateway_oper.Monitoring.Resources.{meta_of}
use llm_d_batch_gateway_oper.Monitoring.Reconcile.{ApplyApi, MetricsState, reconcile_metrics}
use llm_d_batch_gateway_oper.Utils.{ObjectType, RestMapper, owns, is_crd_installed}
use llm_d_batch_gateway_oper.Examples.{
  sample_gateway, sample_deployment, sample_stateful_set, sample_object, sample_owner,
}
use llm_d_batch_gateway_oper.Examples.Startup.{sample_chart, sample_unmarshal}

-- One Secret stays tracked, another one is forgotten.
abbrev sample_ops : List FilterOp
sample_ops = track "vault" "creds" ∷ track "vault" "old" ∷ untrack "vault" "old" ∷ []

filter_refines_set_example :
    matches "vault" "old" (run_ops sample_ops []) ≡ spec_ops sample_ops (λ a b. false) "vault" "old"
unfolding contains_char
filter_refines_set_example =
    filter_refines_set sample_ops (refl, (refl, (refl, tt))) "vault" "old" refl

-- Every kind is installed.
abbrev sample_mapper : RestMapper
sample_mapper = record {
  object_kinds = λ object. ok (gvk_of "" "v1" "Kind" ∷ []);
  rest_mapping = λ gvk. none;
}

managed_kind_watched_example :
    (object : ObjectType) × ◌≡◌ {A = String} (kind_name object) "Deployment"
    × (Memᴰ (owns object) (gateway_sources sample_mapper)
        ↔ (Memᴰ object built_in_kinds ⊎ (is_crd_installed sample_mapper object ≡ true)))
managed_kind_watched_example =
    managed_kind_watched sample_mapper (gvk_of "apps" "v1" "Deployment") (Memᴰ.head refl)

-- The second application fails.
abbrev sample_apply_api : ApplyApi (Unit {0})
sample_apply_api = record {
  marshal = λ resource. ok "{}";
  patch = λ resource text owner w.
      (if (meta_of resource).kind == "ServiceMonitor" then some "conflict" else none, w);
}

abbrev sample_metrics_state : MetricsState (Unit {0})
sample_metrics_state = record { world = tt; calls = [] }

reconcile_metrics-Progress_example :
    let (result, s') = reconcile_metrics sample_apply_api "operators" sample_metrics_state in
    Progress sample_apply_api (three_stages "operators") sample_metrics_state result s'
reconcile_metrics-Progress_example =
    reconcile_metrics-Progress sample_apply_api "operators" sample_metrics_state

counts_last_workload_example :
    status_of processor (
      count_stateful_sets sample_gateway
        (sample_stateful_set ∷ [])
        (count_deployments sample_gateway (sample_deployment ∷ []) no_component_status))
    ≡ last_counted sample_gateway processor
        (map of_deployment (sample_deployment ∷ [])
          ++ map of_stateful_set (sample_stateful_set ∷ []))
        none
counts_last_workload_example =
    counts_last_workload sample_gateway processor (sample_deployment ∷ [])
      (sample_stateful_set ∷ [])

templates_objects-collect_example :
    templates_objects sample_chart label_async (("a/NOTES.txt", "text") ∷ ("a/b.yaml", "x") ∷ [])
    ≡ collect label_async
        (all_documents sample_chart (("a/NOTES.txt", "text") ∷ ("a/b.yaml", "x") ∷ []))
templates_objects-collect_example =
    templates_objects-collect label_async sample_chart
      (("a/NOTES.txt", "text") ∷ ("a/b.yaml", "x") ∷ [])

abbrev sample_renderer : HelmRenderer (Unit {0})
sample_renderer = record {
  chart = sample_chart;
  images = record { api_server = "a"; processor = "b"; gc = "c"; async = "d" };
  tls_profile = record { min_version = ""; cipher_suites = ""; next_protos = "" };
}

abbrev labelled_object : Object
labelled_object = label_async (sample_object "gw-async")

sample_rendered :
    render_async_chart sample_renderer sample_unmarshal sample_gateway "creds"
    ≡ ok (labelled_object ∷ [])
unfolding base_name is_blank contains_char last_segment render_async_chart render_chart
    render_templates rendered_objects template_objects templates_objects without_slashes
sample_rendered = refl

abbrev rendered_deployment : Deployment
rendered_deployment = record sample_deployment {
  owners = sample_owner ∷ [];
  labels = labelled_object.labels;
}

sample_owned : is_owned_by rendered_deployment.owners sample_gateway ≡ true
unfolding is_owned_by any_reference
sample_owned = refl

rendered_dispatcher_counted_example :
    count_deployments sample_gateway
      (rendered_deployment ∷ sample_deployment ∷ [])
      no_component_status
    ≡ count_deployments sample_gateway (sample_deployment ∷ []) (record no_component_status {
      async_processor = some (deployment_replica_status rendered_deployment);
    })
rendered_dispatcher_counted_example =
    rendered_dispatcher_counted sample_renderer sample_unmarshal sample_gateway "creds"
      (labelled_object ∷ []) labelled_object rendered_deployment (sample_deployment ∷ [])
      no_component_status sample_rendered (Memᴰ.head refl) refl sample_owned
