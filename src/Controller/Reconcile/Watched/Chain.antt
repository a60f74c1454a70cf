-- ===== src/Controller/Reconcile/Watched/Chain.antt =====
-- From the validation to the end, a reconcile loses no tracked Secret.
use llm_d_batch_gateway_oper.Prelude.{
  String, List, [], ◌∷◌, ◌++◌, Option, none, some, Bool-cases, inl, inr,
}
use llm_d_batch_gateway_oper.Api.Status.{LlmBatchGatewayStatus}
use llm_d_batch_gateway_oper.Api.Gateway.{LlmBatchGateway}
use llm_d_batch_gateway_oper.Validate.{ValidationError}
use llm_d_batch_gateway_oper.Controller.Errors.{
  ApiError, Result, ok, err, GoError, RenderError, is_missing_kind,
}
use llm_d_batch_gateway_oper.Controller.Objects.{Object, managed_gvks, OwnerReference}
use llm_d_batch_gateway_oper.Controller.Conditions.{
  ConditionApi, render_failed, secret_failed, validation_failed, condition_ready,
  all_condition_types,
}
use llm_d_batch_gateway_oper.Controller.Cluster.{Cluster, State, Act, applied, rendered}
use llm_d_batch_gateway_oper.Controller.Orphans.{
  delete_kinds, delete_orphaned_resources, desired_keys, join_errors,
}
use llm_d_batch_gateway_oper.Controller.Secrets.{SetOwner, resolve_secret}
use llm_d_batch_gateway_oper.Controller.Reconcile.{
  Reconciler, Render, after_apply, apply_owned, apply_objects, fail_render, after_cleanup,
  after_applied, deploy, with_async, with_renderer, with_batch, secret_failure, with_secret,
  after_validation, track_secret, permanent_reason,
}
use llm_d_batch_gateway_oper.Controller.Reconcile.Watched.{Grows, Grows-track_secret}
use llm_d_batch_gateway_oper.Controller.Reconcile.Watched.Parts.{
  Grows-resolve_secret, Grows-delete_kinds, Grows-record_failure, Grows-update_status,
}

module _ {W Conditions : Type 0} (cluster : Cluster W Conditions) (api : ConditionApi Conditions)
    (set_owner : SetOwner) (r : Reconciler) (gw : LlmBatchGateway) where
  Grows-after_apply :
      (object : Object) (answer : Option ApiError)
      (rest : Act (State W Conditions) (Option GoError))
      → Grows rest
      → Grows (after_apply cluster api set_owner r object answer rest)
  Grows-after_apply object none rest h s n k e = h s n k e
  Grows-after_apply object (some x) rest h s n k e = elim (Bool-cases (is_missing_kind x)) [
    | inl p ↦ rw p (h s n k e)
    | inr p ↦ rw p e
  ]

  Grows-apply_owned :
      (object : Object) (owners : Result ApiError (List OwnerReference))
      (rest : Act (State W Conditions) (Option GoError))
      → Grows rest
      → Grows (apply_owned cluster api set_owner r gw object owners rest)
  Grows-apply_owned object (err x) rest h s n k e = e
  Grows-apply_owned object (ok owners) rest h s n k e =
      let owned = rendered (record object { namespace = gw.namespace; owners = owners }) in
      let (answer, w) = cluster.apply owned s.world in
      Grows-after_apply object answer rest h
        (record s { world = w; calls = applied owned answer ∷ s.calls }) n k e

  Grows-apply_objects :
      (objects : List Object) → Grows (apply_objects cluster api set_owner r gw objects)
  unfolding apply_objects
  Grows-apply_objects [] s n k e = e
  Grows-apply_objects (object ∷ objects) s n k e =
      Grows-apply_owned object (set_owner gw gw.namespace object.owners)
        (apply_objects cluster api set_owner r gw objects) (Grows-apply_objects objects) s n k e

  module _ (status : LlmBatchGatewayStatus Conditions) where
    Grows-after_cleanup :
        (failure : Option GoError) → Grows (after_cleanup cluster api set_owner r gw status failure)
    Grows-after_cleanup (some x) s n k e = e
    Grows-after_cleanup none s n k e = Grows-update_status cluster api gw status s n k e

    Grows-after_applied :
        (objects : List Object) (failure : Option GoError)
        → Grows (after_applied cluster api set_owner r gw status objects failure)
    unfolding delete_orphaned_resources
    Grows-after_applied objects (some x) s n k e = e
    Grows-after_applied objects none s n k e =
        let (errors, t) = delete_kinds cluster gw (desired_keys objects) managed_gvks s in
        Grows-after_cleanup (join_errors errors) t n k
          (Grows-delete_kinds cluster gw (desired_keys objects) managed_gvks s n k e)

    Grows-deploy :
        (objects : List Object) → Grows (deploy cluster api set_owner r gw status objects)
    unfolding deploy
    Grows-deploy objects s n k e =
        let (failure, t) = apply_objects cluster api set_owner r gw objects s in
        Grows-after_applied objects failure t n k (Grows-apply_objects objects s n k e)

    Grows-fail_render :
        (chart : String) (x : RenderError)
        → Grows (fail_render cluster api set_owner r gw status chart x)
    unfolding fail_render
    Grows-fail_render chart x s n k e =
        Grows-record_failure cluster api gw status "RenderFailed" (render_failed chart x)
          (condition_ready ∷ []) s n k e

    Grows-with_async :
        (batch : List Object) (answer : Result RenderError (List Object))
        → Grows (with_async cluster api set_owner r gw status batch answer)
    Grows-with_async batch (err x) s n k e = Grows-fail_render "async chart" x s n k e
    Grows-with_async batch (ok async) s n k e = Grows-deploy (batch ++ async) s n k e

    Grows-with_renderer :
        (secret : String) (batch : List Object) (render : Option Render)
        → Grows (with_renderer cluster api set_owner r gw status secret batch render)
    Grows-with_renderer secret batch none s n k e = e
    Grows-with_renderer secret batch (some render) s n k e =
        Grows-with_async batch (render gw secret) s n k e

    pub Grows-with_batch :
        (secret : String) (answer : Result RenderError (List Object))
        → Grows (with_batch cluster api set_owner r gw status secret answer)
    Grows-with_batch secret (err x) s n k e = Grows-fail_render "batch-gateway chart" x s n k e
    Grows-with_batch secret (ok batch) s n k e =
        Grows-with_renderer secret batch r.render_async s n k e

    Grows-secret_failure :
        (x : GoError) (reason : Option String)
        → Grows (secret_failure cluster api set_owner r gw status x reason)
    Grows-secret_failure x none s n k e = e
    Grows-secret_failure x (some reason) s n k e =
        Grows-record_failure cluster api gw status reason (secret_failed x) (condition_ready ∷ []) s
          n k e

    Grows-with_secret :
        (secret : Result GoError String)
        → Grows (with_secret cluster api set_owner r gw status secret)
    unfolding with_secret
    Grows-with_secret (err x) s n k e = Grows-secret_failure x (permanent_reason x) s n k e
    Grows-with_secret (ok secret) s n k e =
        Grows-with_batch secret (r.render_batch gw secret) (track_secret gw s) n k
          (Grows-track_secret gw s n k e)

    pub Grows-after_validation :
        (x : Option ValidationError) → Grows (after_validation cluster api set_owner r gw status x)
    Grows-after_validation (some x) s n k e =
        Grows-record_failure cluster api gw status "ValidationFailed" (validation_failed x)
          all_condition_types s n k e
    Grows-after_validation none s n k e =
        let (secret, t) = resolve_secret cluster set_owner gw s in
        Grows-with_secret secret t n k (Grows-resolve_secret cluster set_owner gw s n k e)
