-- ===== src/Controller/Reconcile/Watched.antt =====
-- What a reconcile does to the set of tracked Secrets: it never loses one.
pub mod Parts
pub mod Chain
use llm_d_batch_gateway_oper.Prelude.{
  String, ◌≡◌, Bool, true, false, List, [], ◌∷◌, ◌++◌, Option, none, some, ◌==◌, if◌then◌else◌,
  Bool-cases, inl, inr, ◌||◌, not, ◌&&◌, arith, refl,
}
use llm_d_batch_gateway_oper.Api.Status.{LlmBatchGatewayStatus, ComponentStatus}
use llm_d_batch_gateway_oper.Api.Gateway.{LlmBatchGateway}
use llm_d_batch_gateway_oper.Validate.{validate_spec, ValidationError}
use llm_d_batch_gateway_oper.Controller.Errors.{
  ApiError, Result, ok, err, GoError, RenderError, is_missing_kind, is_not_found,
}
use llm_d_batch_gateway_oper.Controller.Objects.{
  Gvk, Object, ResourceKey, managed_gvks, OwnerReference,
}
use llm_d_batch_gateway_oper.Controller.Rollout.{Deployment, StatefulSet}
use llm_d_batch_gateway_oper.Controller.Conditions.{
  ConditionApi, Message, render_failed, secret_failed, validation_failed, condition_ready,
  condition_status, all_condition_types,
}
use llm_d_batch_gateway_oper.Controller.Cluster.{
  Cluster, State, Act, ◌>>=◌, pure, Secret, perform, Call, listed, deleted, normal, warning,
  got_secret, applied, rendered, listed_deployments, listed_stateful_sets, got_gateway,
}
use llm_d_batch_gateway_oper.Controller.SecretFilter.{matches}
use llm_d_batch_gateway_oper.Controller.Watch.{Request}
use llm_d_batch_gateway_oper.Controller.Orphans.{
  is_orphan, delete_items, delete_listed, delete_kinds, delete_orphaned_resources, desired_keys,
  join_errors,
}
use llm_d_batch_gateway_oper.Controller.Secrets.{
  SetOwner, unless_failed, check_reference_grant, apply_copy, sync_secret_copy, copy_source,
  resolve_foreign, resolve_secret, secret_namespace, changed_reference, grant_verdict, qualified,
  local_secret_name,
}
use llm_d_batch_gateway_oper.Controller.Status.{
  apply_patch, write_status, ready_event, update_with_stateful_sets, update_with_deployments,
  update_status, record_failure, has_status, set_component_conditions, count_deployments,
  count_stateful_sets, no_component_status,
}
use llm_d_batch_gateway_oper.Controller.Reconcile.{
  Reconciler, Reply, Render, after_apply, apply_owned, apply_objects, fail_render, after_cleanup,
  after_applied, deploy, with_async, with_renderer, with_batch, secret_failure, with_secret,
  after_validation, reconcile_gateway, reconcile_answer, reconcile, track_secret, permanent_reason,
}
use llm_d_batch_gateway_oper.Controller.Reconcile.Tracking.{matches-add}

module _ {W Conditions : Type 0} where
  -- Each Secret that is tracked in the first state is tracked in the second.
  abbrev pub Includes : State W Conditions → State W Conditions → Type 0
  Includes s t = (n k : String) → matches n k s.watched ≡ true → matches n k t.watched ≡ true

  -- The action loses no tracked Secret.
  abbrev pub Grows : {A : Type 0} → Act (State W Conditions) A → Type 0
  Grows m = (s : State W Conditions) → Includes s (m s).1

  pub Grows-bind :
      {A B : Type 0} (m : Act (State W Conditions) A) (f : A → Act (State W Conditions) B)
      → Grows m
      → ((a : A) → Grows (f a))
      → Grows (m >>= f)
  Grows-bind m f h k s n j e = k (m s).0 (m s).1 n j (h s n j e)

  -- An action that starts with a call.
  pub Grows-call :
      {A B : Type 0} (action : W → A × W) (record_of : A → Call Conditions)
      (f : A → Act (State W Conditions) B)
      → ((a : A) → Grows (f a))
      → Grows (perform action record_of >>= f)
  Grows-call action record_of f h s n k e =
      let (a, w) = action s.world in
      h a (record s { world = w; calls = record_of a ∷ s.calls }) n k e

  pub Grows-if :
      {A : Type 0} (b : Bool) (m n : Act (State W Conditions) A)
      → Grows m
      → Grows n
      → Grows (if b then m else n)
  Grows-if true m n h k = h
  Grows-if false m n h k = k

  pub Grows-unless_failed :
      {A : Type 0} (e : Option GoError) (m : Act (State W Conditions) (Result GoError A))
      → Grows m
      → Grows (unless_failed e m)
  Grows-unless_failed none m h = h
  Grows-unless_failed (some e) m h = λ s n k p. p

  pub Grows-track_secret :
      (gw : LlmBatchGateway) (s : State W Conditions) → Includes s (track_secret gw s)
  Grows-track_secret gw s n k e =
      elim (Bool-cases (
        not (gw.spec.secret_ref.namespace == "")
        && not (gw.spec.secret_ref.namespace == gw.namespace))) [
          | inl p ↦ rw p (
              rw (matches-add gw.spec.secret_ref.namespace gw.spec.secret_ref.name n k s.watched, e)
                (ground arith))
          | inr p ↦ rw p e
        ]
