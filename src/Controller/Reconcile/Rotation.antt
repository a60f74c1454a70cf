-- ===== src/Controller/Reconcile/Rotation.antt =====
-- Rotation of a source Secret: as long as the operator runs, an event on it starts the reconcile of
-- each resource that was once synchronised with it.
use mathlib.Core.List.{Memᴰ}
use llm_d_batch_gateway_oper.Prelude.{
  String, ◌≡◌, ◌≢◌, refl, true, List, [], ◌∷◌, Option, none, some,
}
use llm_d_batch_gateway_oper.Prelude.Int.{ℤ}
use llm_d_batch_gateway_oper.Api.Status.{LlmBatchGatewayStatus}
use llm_d_batch_gateway_oper.Api.Gateway.{LlmBatchGateway}
use llm_d_batch_gateway_oper.Validate.{ValidationError, validate_spec}
use llm_d_batch_gateway_oper.Controller.Errors.{ApiError, Result, ok, err, GoError, is_not_found}
use llm_d_batch_gateway_oper.Controller.Conditions.{
  ConditionApi, all_condition_types, condition_ready, validation_failed, secret_failed,
}
use llm_d_batch_gateway_oper.Controller.Cluster.{Cluster, State, got_gateway}
use llm_d_batch_gateway_oper.Controller.Secrets.{SetOwner, resolve_secret}
use llm_d_batch_gateway_oper.Controller.SecretFilter.{matches}
use llm_d_batch_gateway_oper.Controller.Status.{record_failure}
use llm_d_batch_gateway_oper.Controller.Watch.{Request, request_for}
use llm_d_batch_gateway_oper.Controller.Registration.{on_secret}
use llm_d_batch_gateway_oper.Controller.Reconcile.{
  Reconciler, no_requeue, secret_failure, with_secret, after_validation, reconcile_gateway,
  reconcile_answer, reconcile, track_secret, permanent_reason,
}
use llm_d_batch_gateway_oper.Controller.Reconcile.Tracking.{tracked_secret_wakes}
use llm_d_batch_gateway_oper.Controller.Reconcile.Watched.{Includes, Grows, Grows-if}
use llm_d_batch_gateway_oper.Controller.Reconcile.Watched.Chain.{
  Grows-with_batch, Grows-after_validation,
}

module _ {W Conditions : Type 0} (cluster : Cluster W Conditions) (api : ConditionApi Conditions)
    (set_owner : SetOwner) (r : Reconciler) where
  -- What may happen to a state while the operator runs: a reconcile of any resource, and any change
  -- of the cluster by others.
  pub data Later (s : State W Conditions) : State W Conditions → Type 0 where
    now : Later s s
    reconciled :
        (request : Request) {t : State W Conditions}
        → Later s t
        → Later s (reconcile cluster api set_owner r request t).1
    changed : (w : W) {t : State W Conditions} → Later s t → Later s (record t { world = w })

  Grows-reconcile_answer :
      (answer : Result ApiError (LlmBatchGateway × LlmBatchGatewayStatus Conditions))
      → Grows (reconcile_answer cluster api set_owner r answer)
  unfolding reconcile_gateway
  Grows-reconcile_answer (err e) = Grows-if (is_not_found e) _ _ (λ s n k p. p) (λ s n k p. p)
  Grows-reconcile_answer (ok (gw, status)) =
      Grows-after_validation cluster api set_owner r gw status (validate_spec gw)

  Grows-reconcile : (request : Request) → Grows (reconcile cluster api set_owner r request)
  unfolding reconcile
  Grows-reconcile request s n k e =
      let (answer, w) = cluster.get_gateway request.namespace request.name s.world in
      Grows-reconcile_answer answer
        (record s {
          world = w;
          calls = got_gateway request.namespace request.name answer ∷ s.calls;
        })
        n k e

  Later-Includes : {s t : State W Conditions} → Later s t → Includes s t
  Later-Includes now n k e = e
  Later-Includes (reconciled request {t} l) n k e =
      Grows-reconcile request t n k (Later-Includes l n k e)
  Later-Includes (changed w l) n k e = Later-Includes l n k e

  -- A recorded failure does not ask for the next reconcile.
  no_requeue-reply : (failure : Option GoError) (period : ℤ) → no_requeue failure ≢ ok (some period)
  no_requeue-reply none period h = absurd (cc)
  no_requeue-reply (some e) period h = absurd (cc)

  module _ (gw : LlmBatchGateway) (status : LlmBatchGatewayStatus Conditions) (period : ℤ) where
    secret_failure-reply :
        (e : GoError) (reason : Option String) (s : State W Conditions)
        → (secret_failure cluster api set_owner r gw status e reason s).0 ≢ ok (some period)
    secret_failure-reply e none s h = absurd (cc)
    secret_failure-reply e (some reason) s h =
        no_requeue-reply
          (record_failure cluster api gw status reason (secret_failed e) (condition_ready ∷ []) s).0
          period h

    module _ (filled : gw.spec.secret_ref.namespace ≢ "")
        (foreign : gw.spec.secret_ref.namespace ≢ gw.namespace) where
      with_secret-tracks :
          (secret : Result GoError String) (s : State W Conditions)
          → let (reply, t) = with_secret cluster api set_owner r gw status secret s in
            reply ≡ ok (some period)
            → matches gw.spec.secret_ref.namespace gw.spec.secret_ref.name t.watched ≡ true
      unfolding with_secret
      with_secret-tracks (err e) s h = absurd (secret_failure-reply e (permanent_reason e) s h)
      with_secret-tracks (ok secret) s h =
          Grows-with_batch cluster api set_owner r gw status secret (r.render_batch gw secret)
            (track_secret gw s) gw.spec.secret_ref.namespace gw.spec.secret_ref.name
            (tracked_secret_wakes gw (gw ∷ []) s filled foreign (Memᴰ.head refl)).0

      after_validation-tracks :
          (e : Option ValidationError) (s : State W Conditions)
          → let (reply, t) = after_validation cluster api set_owner r gw status e s in
            reply ≡ ok (some period)
            → matches gw.spec.secret_ref.namespace gw.spec.secret_ref.name t.watched ≡ true
      after_validation-tracks (some e) s h = absurd (
          no_requeue-reply
            (record_failure cluster api gw status "ValidationFailed" (validation_failed e)
              all_condition_types s).0
            period h)
      after_validation-tracks none s h =
          let (secret, t) = resolve_secret cluster set_owner gw s in with_secret-tracks secret t h

  -- Once a reconcile of a resource whose reference names a Secret of another namespace asks for the
  -- next reconcile after a period, then after any later reconciles, of this and other resources,
  -- and any changes of the cluster by others, each event on that Secret starts a reconcile of the
  -- resource, if the resource is among those listed.
  pub synced_secret_wakes :
      (gw : LlmBatchGateway) (status : LlmBatchGatewayStatus Conditions) (s t : State W Conditions)
      (period : ℤ) (gws : List LlmBatchGateway)
      → gw.spec.secret_ref.namespace ≢ ""
      → gw.spec.secret_ref.namespace ≢ gw.namespace
      → (reconcile_gateway cluster api set_owner r gw status s).0 ≡ ok (some period)
      → Later (reconcile_gateway cluster api set_owner r gw status s).1 t
      → Memᴰ gw gws
      → let ref = gw.spec.secret_ref in
        Memᴰ (request_for gw) (on_secret ref.namespace ref.name t.watched (ok gws))
  unfolding reconcile_gateway on_secret
  synced_secret_wakes gw status s t period gws filled foreign h later m =
      let ref = gw.spec.secret_ref in
      rw
        (Later-Includes later ref.namespace ref.name
          (after_validation-tracks gw status period filled foreign (validate_spec gw) s h))
        (tracked_secret_wakes gw gws s filled foreign m).1
