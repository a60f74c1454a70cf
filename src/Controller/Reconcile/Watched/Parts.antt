-- ===== src/Controller/Reconcile/Watched/Parts.antt =====
-- The parts of a reconcile lose no tracked Secret: the credentials, the cleanup, the status.
use llm_d_batch_gateway_oper.Prelude.{String, List, [], ◌∷◌, ◌==◌, Bool-cases, inl, inr}
use llm_d_batch_gateway_oper.Api.Status.{LlmBatchGatewayStatus, ComponentStatus}
use llm_d_batch_gateway_oper.Api.Gateway.{LlmBatchGateway}
use llm_d_batch_gateway_oper.Controller.Errors.{ApiError, Result, ok, err, GoError}
use llm_d_batch_gateway_oper.Controller.Objects.{Gvk, Object, ResourceKey, OwnerReference}
use llm_d_batch_gateway_oper.Controller.Rollout.{Deployment, StatefulSet}
use llm_d_batch_gateway_oper.Controller.Conditions.{
  ConditionApi, Message, condition_ready, condition_status,
}
use llm_d_batch_gateway_oper.Controller.Cluster.{
  Cluster, State, Act, ◌>>=◌, pure, Secret, perform, listed, deleted, got_secret,
  listed_deployments, listed_stateful_sets,
}
use llm_d_batch_gateway_oper.Controller.Orphans.{
  is_orphan, delete_items, delete_listed, delete_kinds,
}
use llm_d_batch_gateway_oper.Controller.Secrets.{
  SetOwner, unless_failed, check_reference_grant, apply_copy, sync_secret_copy, copy_source,
  resolve_foreign, resolve_secret, secret_namespace, changed_reference, qualified,
  local_secret_name,
}
use llm_d_batch_gateway_oper.Controller.Status.{
  apply_patch, write_status, update_with_stateful_sets, update_with_deployments, update_status,
  record_failure, has_status, set_component_conditions, count_deployments, count_stateful_sets,
  no_component_status,
}
use llm_d_batch_gateway_oper.Controller.Reconcile.Watched.{
  Grows, Grows-bind, Grows-call, Grows-if, Grows-unless_failed,
}

module _ {W Conditions : Type 0} (cluster : Cluster W Conditions) (set_owner : SetOwner)
    (gw : LlmBatchGateway) where
  Grows-apply_copy :
      (copy : Secret) (owners : Result ApiError (List OwnerReference))
      → Grows (apply_copy cluster set_owner copy owners)
  unfolding apply_copy
  Grows-apply_copy copy (ok owners) s n k e = e
  Grows-apply_copy copy (err e) s n k p = p

  Grows-copy_source : (src : Result ApiError Secret) → Grows (copy_source cluster set_owner gw src)
  unfolding copy_source sync_secret_copy
  Grows-copy_source (err e) s n k p = p
  Grows-copy_source (ok src) s n k p = Grows-apply_copy _ (set_owner gw gw.namespace []) s n k p

  Grows-check_reference_grant :
      (name namespace : String) → Grows (check_reference_grant cluster set_owner gw name namespace)
  unfolding check_reference_grant
  Grows-check_reference_grant name namespace s n k e = e

  -- `resolve_foreign` from the reading of the source on, and from the grant check on.
  abbrev from_source : Act (State W Conditions) (Result GoError String)
  from_source = do
    src ←
        perform (cluster.get_secret (secret_namespace gw) gw.spec.secret_ref.name)
          (got_secret (secret_namespace gw) gw.spec.secret_ref.name)
    copy_source cluster set_owner gw src

  abbrev from_check : Act (State W Conditions) (Result GoError String)
  from_check = do
    refused ←
        check_reference_grant cluster set_owner gw gw.spec.secret_ref.name (secret_namespace gw)
    unless_failed refused from_source

  Grows-from_source : Grows from_source
  Grows-from_source =
      Grows-call (cluster.get_secret (secret_namespace gw) gw.spec.secret_ref.name)
        (got_secret (secret_namespace gw) gw.spec.secret_ref.name)
        (copy_source cluster set_owner gw) Grows-copy_source

  Grows-from_check : Grows from_check
  Grows-from_check =
      Grows-bind
        (check_reference_grant cluster set_owner gw gw.spec.secret_ref.name (secret_namespace gw))
        (λ refused. unless_failed refused from_source)
        (Grows-check_reference_grant gw.spec.secret_ref.name (secret_namespace gw))
        (λ refused. Grows-unless_failed refused from_source Grows-from_source)

  Grows-resolve_foreign : Grows (resolve_foreign cluster set_owner gw)
  unfolding resolve_foreign
  Grows-resolve_foreign =
      let changed = changed_reference (qualified (secret_namespace gw) gw.spec.secret_ref.name) in
      Grows-call (cluster.get_secret gw.namespace (local_secret_name gw))
        (got_secret gw.namespace (local_secret_name gw))
        (λ existing. unless_failed (changed existing) from_check)
        (λ existing. Grows-unless_failed (changed existing) from_check Grows-from_check)

  pub Grows-resolve_secret : Grows (resolve_secret cluster set_owner gw)
  unfolding resolve_secret
  Grows-resolve_secret =
      Grows-if (secret_namespace gw == gw.namespace) (pure (ok gw.spec.secret_ref.name))
        (resolve_foreign cluster set_owner gw) (λ s n k e. e) Grows-resolve_foreign

module _ {W Conditions : Type 0} (cluster : Cluster W Conditions) (gw : LlmBatchGateway)
    (desired : List ResourceKey) where
  Grows-delete_items :
      (gvk : Gvk) (items : List Object) → Grows (delete_items cluster gw desired gvk items)
  unfolding delete_items
  Grows-delete_items gvk [] s n k e = e
  Grows-delete_items gvk (item ∷ items) s n k e =
      elim (Bool-cases (is_orphan gw desired gvk item)) [
        | inl p ↦ rw p (
            let (answer, w) = cluster.delete item s.world in
            Grows-delete_items gvk items
              (record s { world = w; calls = deleted gvk item answer ∷ s.calls }) n k e)
        | inr p ↦ rw p (Grows-delete_items gvk items s n k e)
      ]

  Grows-delete_listed :
      (gvk : Gvk) (answer : Result ApiError (List Object))
      → Grows (delete_listed cluster gw desired gvk answer)
  Grows-delete_listed gvk (ok items) s n k e = Grows-delete_items gvk items s n k e
  Grows-delete_listed gvk (err x) s n k e = e

  pub Grows-delete_kinds : (gvks : List Gvk) → Grows (delete_kinds cluster gw desired gvks)
  unfolding delete_kinds
  Grows-delete_kinds [] s n k e = e
  Grows-delete_kinds (gvk ∷ gvks) s n k e =
      let (answer, w) = cluster.list gvk gw.namespace s.world in
      let t = record s { world = w; calls = listed gvk gw.namespace answer ∷ s.calls } in
      Grows-delete_kinds gvks (delete_listed cluster gw desired gvk answer t).1 n k
        (Grows-delete_listed gvk answer t n k e)

module _ {W Conditions : Type 0} (cluster : Cluster W Conditions) (api : ConditionApi Conditions)
    (gw : LlmBatchGateway) (status : LlmBatchGatewayStatus Conditions) where
  pub Grows-record_failure :
      (reason : String) (message : Message) (types : List String)
      → Grows (record_failure cluster api gw status reason message types)
  unfolding record_failure apply_patch
  Grows-record_failure reason message types s n k e = e

  Grows-write_status :
      (components : ComponentStatus) → Grows (write_status cluster api gw status components)
  unfolding write_status apply_patch
  Grows-write_status components s n k e =
      let (ready, cs) = set_component_conditions api gw components status.conditions in
      let previous = api.find condition_ready cs in
      elim (Bool-cases (has_status previous (condition_status ready))) [
        | inl p ↦ rw p e
        | inr p ↦ rw p (elim (Bool-cases ready) [ inl q ↦ rw q e | inr q ↦ rw q e ])
      ]

  Grows-stateful_sets :
      (components : ComponentStatus) (answer : Result ApiError (List StatefulSet))
      → Grows (update_with_stateful_sets cluster api gw status components answer)
  unfolding update_with_stateful_sets
  Grows-stateful_sets components (err x) s n k e = e
  Grows-stateful_sets components (ok sss) s n k e =
      Grows-write_status (count_stateful_sets gw sss components) s n k e

  Grows-deployments :
      (answer : Result ApiError (List Deployment))
      → Grows (update_with_deployments cluster api gw status answer)
  unfolding update_with_deployments
  Grows-deployments (err x) s n k e = e
  Grows-deployments (ok ds) s n k e =
      let (answer, w) = cluster.list_stateful_sets gw.namespace gw.name s.world in
      Grows-stateful_sets (count_deployments gw ds no_component_status) answer
        (record s { world = w; calls = listed_stateful_sets gw.namespace gw.name answer ∷ s.calls })
        n k e

  pub Grows-update_status : Grows (update_status cluster api gw status)
  unfolding update_status
  Grows-update_status s n k e =
      let (answer, w) = cluster.list_deployments gw.namespace gw.name s.world in
      Grows-deployments answer
        (record s { world = w; calls = listed_deployments gw.namespace gw.name answer ∷ s.calls }) n
        k e
