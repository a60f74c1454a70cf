-- ===== src/Controller/Reconcile.antt =====
-- One reconcile (`Reconcile`, `reconcile`, `failRender`).
pub mod Applied
pub mod Trace
pub mod Tracking
pub mod Runs
pub mod Safety
pub mod Watched
pub mod Rotation
use llm_d_batch_gateway_oper.Prelude.{
  String, Bool, true, false, not, ◌&&◌, List, [], ◌∷◌, ◌++◌, Option, none, some, ◌==◌,
  if◌then◌else◌,
}
use llm_d_batch_gateway_oper.Prelude.Int.{ℤ}
use llm_d_batch_gateway_oper.Api.Status.{LlmBatchGatewayStatus}
use llm_d_batch_gateway_oper.Api.Gateway.{LlmBatchGateway}
use llm_d_batch_gateway_oper.Validate.{ValidationError, validate_spec}
use llm_d_batch_gateway_oper.Controller.Errors.{
  ApiError, Result, ok, err, GoError, RenderError, fetching, resolving_secret, rendering,
  rendering_unpatched, no_async_renderer, owning, applying, updating_status, is_not_found,
  is_missing_kind, as_reference_not_permitted, as_secret_ref_immutable,
  reason_reference_not_permitted, reason_secret_ref_immutable, error_reason,
}
use llm_d_batch_gateway_oper.Controller.Objects.{OwnerReference, Object}
use llm_d_batch_gateway_oper.Controller.Conditions.{
  ConditionApi, Message, validation_failed, secret_failed, render_failed, all_condition_types,
  condition_ready,
}
use llm_d_batch_gateway_oper.Controller.Cluster.{
  Cluster, State, rendered, got_gateway, applied, warning, Act, pure, ◌>>=◌, ◌>>◌, perform, emit,
}
use llm_d_batch_gateway_oper.Controller.Orphans.{delete_orphaned_resources}
use llm_d_batch_gateway_oper.Controller.Secrets.{SetOwner, resolve_secret}
use llm_d_batch_gateway_oper.Controller.Status.{update_status, record_failure}
use llm_d_batch_gateway_oper.Controller.Watch.{Request}
use llm_d_batch_gateway_oper.Controller.SecretFilter.{add}

-- A renderer of a chart for the resource and the name of the local Secret.
abbrev pub Render : Type 0
Render = LlmBatchGateway → String → Result RenderError (List Object)

-- LLMBatchGatewayReconciler: its renderers and its period of resynchronization.
pub record Reconciler : Type 0 where
  pub render_batch : Render
  pub render_async : Option Render
  pub sync_period : ℤ

-- `ctrl.Result{}` is `none`; a result with a `RequeueAfter` is that period.
abbrev pub Reply : Type 0
Reply = Result GoError (Option ℤ)

-- `return ctrl.Result{}, err`
abbrev pub no_requeue : Option GoError → Reply
no_requeue none = ok none
no_requeue (some e) = err e

abbrev pub render_error : String → RenderError → Option GoError → Reply
render_error chart e none = err (rendering chart e)
render_error chart e (some failure) = err (rendering_unpatched chart e failure)

-- The reason of an error for which the user must act.
abbrev pub permanent_reason : GoError → Option String
permanent_reason e =
    if as_reference_not_permitted e
    then some reason_reference_not_permitted
    else if as_secret_ref_immutable e
    then some reason_secret_ref_immutable
    else none

-- The source Secret of another namespace is tracked.
abbrev pub track_secret :
    {W Conditions : Type 0} → LlmBatchGateway → State W Conditions → State W Conditions
track_secret gw s =
    if not (gw.spec.secret_ref.namespace == "")
      && not (gw.spec.secret_ref.namespace == gw.namespace)
    then record s { watched = add gw.spec.secret_ref.namespace gw.spec.secret_ref.name s.watched }
    else s

module _ {W Conditions : Type 0} (cluster : Cluster W Conditions) (api : ConditionApi Conditions)
    (set_owner : SetOwner) (r : Reconciler) where
  -- What follows the application of one object.
  abbrev pub after_apply :
      Object
      → Option ApiError
      → Act (State W Conditions) (Option GoError)
      → Act (State W Conditions) (Option GoError)
  after_apply object none rest = rest
  after_apply object (some e) rest =
      if is_missing_kind e
      then rest
      else emit warning "ApplyFailed" >> pure (some (applying object.gvk.kind object.name e))

  -- The object in the resource's namespace, with its owners, is applied.
  abbrev pub apply_owned :
      LlmBatchGateway
      → Object
      → Result ApiError (List OwnerReference)
      → Act (State W Conditions) (Option GoError)
      → Act (State W Conditions) (Option GoError)
  apply_owned gw object (err e) rest = pure (some (owning object.gvk.kind object.name e))
  apply_owned gw object (ok owners) rest =
      let owned = rendered (record object { namespace = gw.namespace; owners = owners }) in
      do answer ← perform (cluster.apply owned) (applied owned); after_apply object answer rest

  -- The loop over the rendered objects.
  unfoldable pub apply_objects :
      LlmBatchGateway → List Object → Act (State W Conditions) (Option GoError)
  apply_objects gw [] = pure none
  apply_objects gw (object ∷ objects) =
      let rest = apply_objects gw objects in
      apply_owned gw object (set_owner gw gw.namespace object.owners) rest

  unfoldable pub fail_render :
      LlmBatchGateway
      → LlmBatchGatewayStatus Conditions
      → String
      → RenderError
      → Act (State W Conditions) Reply
  fail_render gw status chart e = do
    failure ←
        record_failure cluster api gw status "RenderFailed" (render_failed chart e)
          (condition_ready ∷ [])
    pure (render_error chart e failure)

  -- The end of a reconcile: after the objects are applied, and after the cleanup.
  abbrev pub reply_of_status : Option GoError → Reply
  reply_of_status none = ok (some r.sync_period)
  reply_of_status (some e) = err (updating_status e)

  abbrev pub after_cleanup :
      LlmBatchGateway
      → LlmBatchGatewayStatus Conditions
      → Option GoError
      → Act (State W Conditions) Reply
  after_cleanup gw status (some e) = pure (err e)
  after_cleanup gw status none = do
    failure ← update_status cluster api gw status
    pure (reply_of_status failure)

  abbrev pub after_applied :
      LlmBatchGateway
      → LlmBatchGatewayStatus Conditions
      → List Object
      → Option GoError
      → Act (State W Conditions) Reply
  after_applied gw status objects (some e) = pure (err e)
  after_applied gw status objects none = do
    failure ← delete_orphaned_resources cluster gw objects
    after_cleanup gw status failure

  unfoldable pub deploy :
      LlmBatchGateway
      → LlmBatchGatewayStatus Conditions
      → List Object
      → Act (State W Conditions) Reply
  deploy gw status objects = do
    failure ← apply_objects gw objects
    after_applied gw status objects failure

  abbrev pub with_async :
      LlmBatchGateway
      → LlmBatchGatewayStatus Conditions
      → List Object
      → Result RenderError (List Object)
      → Act (State W Conditions) Reply
  with_async gw status batch (err e) = fail_render gw status "async chart" e
  with_async gw status batch (ok async) = deploy gw status (batch ++ async)

  abbrev pub with_renderer :
      LlmBatchGateway
      → LlmBatchGatewayStatus Conditions
      → String
      → List Object
      → Option Render
      → Act (State W Conditions) Reply
  with_renderer gw status secret batch none = pure (err no_async_renderer)
  with_renderer gw status secret batch (some render) = with_async gw status batch (render gw secret)

  abbrev pub with_batch :
      LlmBatchGateway
      → LlmBatchGatewayStatus Conditions
      → String
      → Result RenderError (List Object)
      → Act (State W Conditions) Reply
  with_batch gw status secret (err e) = fail_render gw status "batch-gateway chart" e
  with_batch gw status secret (ok batch) = with_renderer gw status secret batch r.render_async

  abbrev pub secret_failure :
      LlmBatchGateway
      → LlmBatchGatewayStatus Conditions
      → GoError
      → Option String
      → Act (State W Conditions) Reply
  secret_failure gw status e none = pure (err (resolving_secret e))
  secret_failure gw status e (some reason) = do
    failure ← record_failure cluster api gw status reason (secret_failed e) (condition_ready ∷ [])
    pure (no_requeue failure)

  unfoldable pub with_secret :
      LlmBatchGateway
      → LlmBatchGatewayStatus Conditions
      → Result GoError String
      → Act (State W Conditions) Reply
  with_secret gw status (err e) = secret_failure gw status e (permanent_reason e)
  with_secret gw status (ok secret) =
      λ s. with_batch gw status secret (r.render_batch gw secret) (track_secret gw s)

  abbrev pub after_validation :
      LlmBatchGateway
      → LlmBatchGatewayStatus Conditions
      → Option ValidationError
      → Act (State W Conditions) Reply
  after_validation gw status (some e) = do
    failure ←
        record_failure cluster api gw status "ValidationFailed" (validation_failed e)
          all_condition_types
    pure (no_requeue failure)
  after_validation gw status none = do
    secret ← resolve_secret cluster set_owner gw
    with_secret gw status secret

  unfoldable pub reconcile_gateway :
      LlmBatchGateway → LlmBatchGatewayStatus Conditions → Act (State W Conditions) Reply
  reconcile_gateway gw status = after_validation gw status (validate_spec gw)

  abbrev pub reconcile_answer :
      Result ApiError (LlmBatchGateway × LlmBatchGatewayStatus Conditions)
      → Act (State W Conditions) Reply
  reconcile_answer (err e) = if is_not_found e then pure (ok none) else pure (err (fetching e))
  reconcile_answer (ok (gw, status)) = reconcile_gateway gw status

  unfoldable pub reconcile : Request → Act (State W Conditions) Reply
  reconcile request = do
    answer ←
        perform (cluster.get_gateway request.namespace request.name)
          (got_gateway request.namespace request.name)
    reconcile_answer answer

-- `Reconcile`: the label under which a failed reconcile is counted.
abbrev pub counted : Reply → Option String
counted (ok requeue) = none
counted (err e) = some (error_reason e)
