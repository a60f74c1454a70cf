-- ===== src/Controller/Status/Dispatcher.antt =====
-- The Deployments of the async chart and the status: the label that the renderer sets is the one by
-- which the loop of `updateStatus` finds the dispatcher among those it listed.
use mathlib.Core.List.{Memᴰ}
use llm_d_batch_gateway_oper.Prelude.{
  String, ◌≡◌, refl, ◌∙◌, ap, inl, inr, true, List, [], ◌∷◌, some, ◌==◌, All, All-mem, eq_refl,
  Bool-cases,
}
use llm_d_batch_gateway_oper.Prelude.Assoc.{Assoc, lookup, insert}
use llm_d_batch_gateway_oper.Api.Gateway.{LlmBatchGateway}
use llm_d_batch_gateway_oper.Controller.Errors.{ok}
use llm_d_batch_gateway_oper.Controller.Objects.{Object, is_owned_by}
use llm_d_batch_gateway_oper.Api.Status.{ComponentStatus}
use llm_d_batch_gateway_oper.Controller.Rollout.{Deployment, deployment_replica_status}
use llm_d_batch_gateway_oper.Controller.Status.{
  label_key_component, component_async_processor, set_component_status, count_workload,
  count_deployments,
}
use llm_d_batch_gateway_oper.Helm.{Unmarshal}
use llm_d_batch_gateway_oper.Helm.Render.{HelmRenderer, label_async, render_async_chart}
use llm_d_batch_gateway_oper.Helm.Rendered.{render_chart-All}

lookup-insert : (k v : String) (m : Assoc String) → lookup k (insert k v m) ≡ some v
unfolding lookup insert
lookup-insert k v [] = rw (eq_refl k) refl
lookup-insert k v ((j, w) ∷ m) = elim (Bool-cases (j == k)) [
  | inl e ↦ rw e (rw (eq_refl k) refl)
  | inr e ↦ rw e (rw e (lookup-insert k v m))
]

-- The object is labelled as the dispatcher's.
abbrev IsDispatcher : Object → Type 0
IsDispatcher object = lookup label_key_component object.labels ≡ some component_async_processor

module _ {RenderValues : Type 0} (h : HelmRenderer RenderValues) (unmarshal : Unmarshal)
    (gw : LlmBatchGateway) (secret : String) (objects : List Object) where
  render_async_chart-IsDispatcher :
      render_async_chart h unmarshal gw secret ≡ ok objects → All IsDispatcher objects
  unfolding render_async_chart
  render_async_chart-IsDispatcher e =
      render_chart-All label_async IsDispatcher
        (λ object. lookup-insert label_key_component component_async_processor object.labels)
        h.chart gw _ objects e

  -- When the loop of `updateStatus` over the Deployments that it listed reaches one that the resource
  -- owns and that carries the labels of an object that the async chart was rendered to, whatever has
  -- been counted before, it takes that one's replicas for the dispatcher's, leaves the counts of the
  -- other components, and goes on with the rest.
  pub rendered_dispatcher_counted :
      (object : Object) (d : Deployment) (rest : List Deployment) (components : ComponentStatus)
      → render_async_chart h unmarshal gw secret ≡ ok objects
      → Memᴰ object objects
      → d.labels ≡ object.labels
      → is_owned_by d.owners gw ≡ true
      → count_deployments gw (d ∷ rest) components
        ≡ count_deployments gw rest (record {
          api_server = components.api_server;
          processor = components.processor;
          gc = components.gc;
          async_processor = some (deployment_replica_status d);
        })
  unfolding count_deployments count_workload set_component_status
  rendered_dispatcher_counted object d rest components e m same owned =
      let label : lookup label_key_component d.labels ≡ some component_async_processor =
        ap (lookup label_key_component) same
        ∙ All-mem IsDispatcher objects (render_async_chart-IsDispatcher e) object m in
      rw (owned, label) refl
