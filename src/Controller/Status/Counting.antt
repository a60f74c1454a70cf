-- ===== src/Controller/Status/Counting.antt =====
-- What the two loops of `updateStatus` count for each component.
use llm_d_batch_gateway_oper.Prelude.{
  String, ◌≡◌, refl, sym, ap, ◌∙◌, inl, inr, Bool, false, ◌&&◌, List, [], ◌∷◌, ◌++◌, map, Option,
  none, some, ◌==◌, if◌then◌else◌, arith, Bool-cases, Option-cases, String-cases,
}
use llm_d_batch_gateway_oper.Prelude.Assoc.{Assoc, lookup}
use llm_d_batch_gateway_oper.Api.Status.{ComponentReplicaStatus, ComponentStatus}
use llm_d_batch_gateway_oper.Api.Gateway.{LlmBatchGateway}
use llm_d_batch_gateway_oper.Controller.Objects.{OwnerReference, is_owned_by}
use llm_d_batch_gateway_oper.Controller.Rollout.{
  Deployment, StatefulSet, deployment_replica_status, stateful_set_replica_status,
}
use llm_d_batch_gateway_oper.Controller.Status.{
  label_key_component, component_api_server, component_processor, component_gc,
  component_async_processor, no_component_status, set_component_status, count_workload,
  count_deployments, count_stateful_sets,
}

-- A Deployment or a StatefulSet, as far as it is counted.
pub record Workload : Type 0 where
  pub owners : List OwnerReference
  pub labels : Assoc String
  pub status : ComponentReplicaStatus

abbrev pub of_deployment : Deployment → Workload
of_deployment d = record {
  owners = d.owners;
  labels = d.labels;
  status = deployment_replica_status d;
}

abbrev pub of_stateful_set : StatefulSet → Workload
of_stateful_set ss = record {
  owners = ss.owners;
  labels = ss.labels;
  status = stateful_set_replica_status ss;
}

-- The four fields of the status, with the label's value of each.
pub data Component : Type 0 where
  api_server processor gc async_processor : Component

abbrev pub component_label : Component → String
component_label api_server = component_api_server
component_label processor = component_processor
component_label gc = component_gc
component_label async_processor = component_async_processor

abbrev pub status_of : Component → ComponentStatus → Option ComponentReplicaStatus
status_of api_server components = components.api_server
status_of processor components = components.processor
status_of gc components = components.gc
status_of async_processor components = components.async_processor

abbrev is_label : String → Option String → Bool
is_label component none = false
is_label component (some label) = label == component

-- The resource owns the workload, and its label names the component.
abbrev pub counts_for : LlmBatchGateway → Component → Workload → Bool
counts_for gw c w =
    is_owned_by w.owners gw && is_label (component_label c) (lookup label_key_component w.labels)

-- The last workload that counts for the component, or what was there before.
abbrev pub last_counted :
    LlmBatchGateway
    → Component
    → List Workload
    → Option ComponentReplicaStatus
    → Option ComponentReplicaStatus
last_counted gw c [] before = before
last_counted gw c (w ∷ ws) before =
    last_counted gw c ws (if counts_for gw c w then some w.status else before)

set_component_status_field :
    (c : Component) (components : ComponentStatus) (label : String)
    (status : ComponentReplicaStatus)
    → status_of c (set_component_status components label status)
      ≡ (if label == component_label c then some status else status_of c components)
unfolding set_component_status
set_component_status_field api_server components label status = ground arith
set_component_status_field processor components label status =
    elim (String-cases label component_api_server) [
      | inl e ↦ rw e refl
      | inr n ↦ rw n (ground arith)
    ]
set_component_status_field gc components label status =
    elim (String-cases label component_api_server) [
      | inl e ↦ rw e refl
      | inr n ↦ elim (String-cases label component_processor) [
        | inl e ↦ rw e refl
        | inr k ↦ rw (n, k) (ground arith)
      ]
    ]
set_component_status_field async_processor components label status =
    elim (String-cases label component_api_server) [
      | inl e ↦ rw e refl
      | inr n ↦ elim (String-cases label component_processor) [
        | inl e ↦ rw e refl
        | inr k ↦ elim (String-cases label component_gc) [
          | inl e ↦ rw e refl
          | inr l ↦ rw (n, k, l) (ground arith)
        ]
      ]
    ]

-- One workload.
count_workload_field :
    (gw : LlmBatchGateway) (c : Component) (w : Workload) (components : ComponentStatus)
    → status_of c (count_workload gw w.owners w.labels w.status components)
      ≡ (if counts_for gw c w then some w.status else status_of c components)
unfolding count_workload
count_workload_field gw c w components = elim (Bool-cases (is_owned_by w.owners gw)) [
  | inl e ↦ elim (Option-cases (lookup label_key_component w.labels)) [
    | inl n ↦ rw (e, n) refl
    | inr (label, n) ↦ rw (e, n) (set_component_status_field c components label w.status)
  ]
  | inr e ↦ rw e refl
]

last_counted-append :
    (gw : LlmBatchGateway) (c : Component) (ws vs : List Workload)
    (before : Option ComponentReplicaStatus)
    → last_counted gw c (ws ++ vs) before ≡ last_counted gw c vs (last_counted gw c ws before)
last_counted-append gw c [] vs before = refl
last_counted-append gw c (w ∷ ws) vs before = last_counted-append gw c ws vs _

module _ (gw : LlmBatchGateway) (c : Component) where
  count_deployments_field :
      (ds : List Deployment) (components : ComponentStatus)
      → status_of c (count_deployments gw ds components)
        ≡ last_counted gw c (map of_deployment ds) (status_of c components)
  unfolding count_deployments
  count_deployments_field [] components = refl
  count_deployments_field (d ∷ ds) components =
      count_deployments_field ds _
      ∙ ap (last_counted gw c (map of_deployment ds))
          (count_workload_field gw c (of_deployment d) components)

  count_stateful_sets_field :
      (sss : List StatefulSet) (components : ComponentStatus)
      → status_of c (count_stateful_sets gw sss components)
        ≡ last_counted gw c (map of_stateful_set sss) (status_of c components)
  unfolding count_stateful_sets
  count_stateful_sets_field [] components = refl
  count_stateful_sets_field (ss ∷ sss) components =
      count_stateful_sets_field sss _
      ∙ ap (last_counted gw c (map of_stateful_set sss))
          (count_workload_field gw c (of_stateful_set ss) components)

  -- For each component, the two loops of `updateStatus` leave the replica counts of the last workload,
  -- the Deployments first and the StatefulSets after them, that the resource owns and that has the
  -- component's name as its component label; and nothing if there is no such workload.
  pub counts_last_workload :
      (ds : List Deployment) (sss : List StatefulSet)
      → status_of c (count_stateful_sets gw sss (count_deployments gw ds no_component_status))
        ≡ last_counted gw c (map of_deployment ds ++ map of_stateful_set sss) none
  counts_last_workload ds sss =
      count_stateful_sets_field sss _
      ∙ ap (last_counted gw c (map of_stateful_set sss))
          (count_deployments_field ds no_component_status ∙ empty c)
      ∙ sym (last_counted-append gw c (map of_deployment ds) (map of_stateful_set sss) none)
    where
      empty :
          (k : Component)
          → last_counted gw c (map of_deployment ds) (status_of k no_component_status)
            ≡ last_counted gw c (map of_deployment ds) none
      empty api_server = refl
      empty processor = refl
      empty gc = refl
      empty async_processor = refl
