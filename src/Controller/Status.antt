-- ===== src/Controller/Status.antt =====
-- The status of the resource (`updateStatus`, `setComponentStatus`,
-- `setComponentAvailableCondition`, `recordFailure` and statuspatch.go).
pub mod Calls
pub mod Ready
pub mod Failure
pub mod Counting
pub mod Dispatcher
use llm_d_batch_gateway_oper.Prelude.{
  String, Bool, true, false, not, ◌&&◌, List, [], ◌∷◌, ◌++◌, Option, none, some, ◌==◌,
  if◌then◌else◌,
}
use llm_d_batch_gateway_oper.Prelude.Assoc.{Assoc, lookup}
use llm_d_batch_gateway_oper.Prelude.Int.{ℤ, pos}
use llm_d_batch_gateway_oper.Api.Status.{
  ComponentReplicaStatus, ComponentStatus, LlmBatchGatewayStatus,
}
use llm_d_batch_gateway_oper.Api.Gateway.{LlmBatchGateway}
use llm_d_batch_gateway_oper.Controller.Errors.{
  ApiError, Result, ok, err, GoError, patching_status, listing_deployments, listing_stateful_sets,
  patching,
}
use llm_d_batch_gateway_oper.Controller.Objects.{OwnerReference, is_owned_by}
use llm_d_batch_gateway_oper.Controller.Rollout.{
  Deployment, StatefulSet, deployment_replica_status, stateful_set_replica_status, is_available,
}
use llm_d_batch_gateway_oper.Controller.Conditions.{
  ConditionStatus, is_true, is_false, is_unknown, Condition, ConditionApi, ComponentCondition,
  Message, replicas_ready, all_ready, not_all_ready, condition_ready, api_server_condition,
  processor_condition, gc_condition, async_processor_condition, condition_status, condition_reason,
  condition_message,
}
use llm_d_batch_gateway_oper.Controller.Cluster.{
  Cluster, State, StatusField, conditions, component_status, observed_generation, StatusPatch,
  normal, warning, listed_deployments, listed_stateful_sets, patched_status, Act, pure, ◌>>=◌, ◌>>◌,
  perform, emit,
}

abbrev pub label_key_component : String
label_key_component = "app.kubernetes.io/component"

abbrev pub component_api_server : String
component_api_server = "apiserver"

abbrev pub component_processor : String
component_processor = "processor"

abbrev pub component_gc : String
component_gc = "gc"

abbrev pub component_async_processor : String
component_async_processor = "async-processor"

abbrev pub no_component_status : ComponentStatus
no_component_status = record {
  api_server = none;
  processor = none;
  gc = none;
  async_processor = none;
}

unfoldable pub set_component_status :
    ComponentStatus → String → ComponentReplicaStatus → ComponentStatus
set_component_status components component status =
    if component == component_api_server
    then record components { api_server = some status }
    else if component == component_processor
    then record components { processor = some status }
    else if component == component_gc
    then record components { gc = some status }
    else if component == component_async_processor
    then record components { async_processor = some status }
    else components

-- One round of either loop over the workloads: its owners, labels and replica counts.
unfoldable pub count_workload :
    LlmBatchGateway
    → List OwnerReference
    → Assoc String
    → ComponentReplicaStatus
    → ComponentStatus
    → ComponentStatus
count_workload gw owners labels status components =
    if not (is_owned_by owners gw) then components else elim (lookup label_key_component labels) [
      | none ↦ components
      | some component ↦ set_component_status components component status
    ]

unfoldable pub count_deployments :
    LlmBatchGateway → List Deployment → ComponentStatus → ComponentStatus
count_deployments gw [] components = components
count_deployments gw (d ∷ ds) components =
    count_deployments gw ds
      (count_workload gw d.owners d.labels (deployment_replica_status d) components)

unfoldable pub count_stateful_sets :
    LlmBatchGateway → List StatefulSet → ComponentStatus → ComponentStatus
count_stateful_sets gw [] components = components
count_stateful_sets gw (ss ∷ sss) components =
    count_stateful_sets gw sss
      (count_workload gw ss.owners ss.labels (stateful_set_replica_status ss) components)

-- The counts of a component; both are 0 where nothing was counted.
abbrev pub counts : Option ComponentReplicaStatus → ComponentReplicaStatus
counts none = record { replicas = pos 0; ready_replicas = pos 0 }
counts (some status) = status

abbrev pub eqb_status : ConditionStatus → ConditionStatus → Bool
eqb_status is_true is_true = true
eqb_status is_false is_false = true
eqb_status is_unknown is_unknown = true
eqb_status _ _ = false

-- `prevReadyStatus` is the status of the condition, or empty if there is none.
abbrev pub has_status : Option Condition → ConditionStatus → Bool
has_status none status = false
has_status (some c) status = eqb_status c.status status

abbrev pub component_condition :
    LlmBatchGateway → ComponentCondition → Option ComponentReplicaStatus → Condition
component_condition gw cond status =
    let c = counts status in
    let available = is_available c in
    record {
      type = cond.condition_type;
      status = condition_status available;
      reason = condition_reason available "Available" "Unavailable";
      message = replicas_ready cond.name c.ready_replicas c.replicas;
      observed_generation = gw.generation;
    }

abbrev pub ready_condition : LlmBatchGateway → Bool → Condition
ready_condition gw ready = record {
  type = condition_ready;
  status = condition_status ready;
  reason = condition_reason ready "AllComponentsReady" "ComponentsNotReady";
  message = condition_message ready all_ready not_all_ready;
  observed_generation = gw.generation;
}

module _ {Conditions : Type 0} (api : ConditionApi Conditions) where
  unfoldable pub set_component_available_condition :
      LlmBatchGateway
      → ComponentCondition
      → Option ComponentReplicaStatus
      → Conditions
      → Bool × Conditions
  set_component_available_condition gw cond status cs =
      (is_available (counts status), api.set (component_condition gw cond status) cs)

  -- The four component conditions, and whether all of the components are available.
  unfoldable pub set_component_conditions :
      LlmBatchGateway → ComponentStatus → Conditions → Bool × Conditions
  unfolding set_component_available_condition
  set_component_conditions gw components cs =
      let (api_available, cs1) =
        set_component_available_condition gw api_server_condition components.api_server cs in
      let (proc_available, cs2) =
        set_component_available_condition gw processor_condition components.processor cs1 in
      let (gc_available, cs3) =
        set_component_available_condition gw gc_condition components.gc cs2 in
      let (async_available, cs4) =
        set_component_available_condition gw async_processor_condition components.async_processor
          cs3 in
      (api_available && proc_available && gc_available && async_available, cs4)

  -- `recordFailure`: the conditions are False, each for the same reason.
  unfoldable pub fail_conditions :
      LlmBatchGateway → String → Message → List String → Conditions → Conditions
  fail_conditions gw reason message [] cs = cs
  fail_conditions gw reason message (type ∷ types) cs = fail_conditions gw reason message types (
      api.set
        (record {
          type = type;
          status = is_false;
          reason = reason;
          message = message;
          observed_generation = gw.generation;
        })
        cs)

abbrev pub ready_event : Bool → {W Conditions : Type 0} → Act (State W Conditions) (Unit {0})
ready_event ready =
    if ready then emit normal "AllComponentsReady" else emit warning "ComponentsNotReady"

abbrev pub patch_error : Option ApiError → Option GoError
patch_error none = none
patch_error (some e) = some (patching e)

abbrev pub failure_error : String → Option ApiError → Option GoError
failure_error reason none = none
failure_error reason (some e) = some (patching_status reason e)

module _ {W Conditions : Type 0} (cluster : Cluster W Conditions)
    (api : ConditionApi Conditions) where
  unfoldable pub apply_patch :
      LlmBatchGateway → List (StatusField Conditions) → Act (State W Conditions) (Option ApiError)
  apply_patch gw fields =
      let patch : StatusPatch Conditions = record {
        resource_version = gw.resource_version;
        fields = fields;
      } in
      perform (cluster.patch_status gw patch) (patched_status patch)

  -- `updateStatus` after the workloads are counted.
  unfoldable pub write_status :
      LlmBatchGateway
      → LlmBatchGatewayStatus Conditions
      → ComponentStatus
      → Act (State W Conditions) (Option GoError)
  write_status gw status components =
      let (ready, cs) = set_component_conditions api gw components status.conditions in
      let previous = api.find condition_ready cs in
      let cs' = api.set (ready_condition gw ready) cs in
      do
        (if has_status previous (condition_status ready) then pure tt else ready_event ready)
        answer ← apply_patch gw (
            conditions cs'
            ∷ component_status (some components)
            ∷ observed_generation gw.generation
            ∷ [])
        pure (patch_error answer)

  unfoldable pub update_with_stateful_sets :
      LlmBatchGateway
      → LlmBatchGatewayStatus Conditions
      → ComponentStatus
      → Result ApiError (List StatefulSet)
      → Act (State W Conditions) (Option GoError)
  update_with_stateful_sets gw status components (err e) = pure (some (listing_stateful_sets e))
  update_with_stateful_sets gw status components (ok sss) =
      write_status gw status (count_stateful_sets gw sss components)

  unfoldable pub update_with_deployments :
      LlmBatchGateway
      → LlmBatchGatewayStatus Conditions
      → Result ApiError (List Deployment)
      → Act (State W Conditions) (Option GoError)
  update_with_deployments gw status (err e) = pure (some (listing_deployments e))
  update_with_deployments gw status (ok ds) = do
    sss ←
        perform (cluster.list_stateful_sets gw.namespace gw.name)
          (listed_stateful_sets gw.namespace gw.name)
    update_with_stateful_sets gw status (count_deployments gw ds no_component_status) sss

  unfoldable pub update_status :
      LlmBatchGateway → LlmBatchGatewayStatus Conditions → Act (State W Conditions) (Option GoError)
  update_status gw status = do
    ds ←
        perform (cluster.list_deployments gw.namespace gw.name)
          (listed_deployments gw.namespace gw.name)
    update_with_deployments gw status ds

  unfoldable pub record_failure :
      LlmBatchGateway
      → LlmBatchGatewayStatus Conditions
      → String
      → Message
      → List String
      → Act (State W Conditions) (Option GoError)
  record_failure gw status reason message types = do
    emit warning reason
    answer ← apply_patch gw (
        conditions (fail_conditions api gw reason message types status.conditions)
        ∷ observed_generation gw.generation
        ∷ [])
    pure (failure_error reason answer)
