-- ===== src/Controller/Reconcile/Safety.antt =====
-- What a whole reconcile does: nothing is deleted before everything that is wanted is applied, a
-- reply with a resynchronization stands for a cluster that was brought up to date, and the errors.
use llm_d_batch_gateway_oper.Prelude.{Option, ◌≡◌, refl, List, ◌++◌, none, some, ◌⊎◌, inl, inr}
use llm_d_batch_gateway_oper.Prelude.Int.{ℤ}
use llm_d_batch_gateway_oper.Api.Status.{LlmBatchGatewayStatus}
use llm_d_batch_gateway_oper.Api.Gateway.{LlmBatchGateway}
use llm_d_batch_gateway_oper.Controller.Errors.{
  ApiError, not_found, no_match, failed, error_reason, Result, ok, err, GoError,
  as_reference_not_permitted, as_secret_ref_immutable,
}
use llm_d_batch_gateway_oper.Controller.Conditions.{ConditionApi}
use llm_d_batch_gateway_oper.Controller.Cluster.{Cluster, State, Call}
use llm_d_batch_gateway_oper.Controller.Watch.{Request}
use llm_d_batch_gateway_oper.Controller.Secrets.{SetOwner}
use llm_d_batch_gateway_oper.Controller.Status.Calls.{IsPlain}
use llm_d_batch_gateway_oper.Controller.Traces.{Guarded}
use llm_d_batch_gateway_oper.Controller.Reconcile.{
  Reconciler, Reply, reconcile_gateway, reconcile_answer, reconcile, counted,
}
use llm_d_batch_gateway_oper.Controller.Reconcile.Trace.{IsJustified, IsSynced}
use llm_d_batch_gateway_oper.Controller.Reconcile.Runs.{reconcile_gateway-Run}

-- A success is not counted, and a failure is counted under the label "Other".
abbrev pub IsCountedAsOther : Reply → Type 0
IsCountedAsOther reply =
    ((requeue : Option ℤ) × (reply ≡ ok requeue) × (counted reply ≡ none))
    ⊎ ((e : GoError) × (reply ≡ err e) × (counted reply ≡ some "Other"))

counted_of_plain :
    (reply : Reply) → ((e : GoError) → reply ≡ err e → IsPlain e) → IsCountedAsOther reply
unfolding error_reason
counted_of_plain (ok requeue) h = inl (requeue, refl, refl)
counted_of_plain (err e) h = let (p, q) = h e refl in rw (p, q) (inr (e, refl, refl))

answer_counted :
    {W Conditions : Type 0} (cluster : Cluster W Conditions) (api : ConditionApi Conditions)
    (set_owner : SetOwner) (r : Reconciler)
    (answer : Result ApiError (LlmBatchGateway × LlmBatchGatewayStatus Conditions))
    (s : State W Conditions)
    → let (reply, s') = reconcile_answer cluster api set_owner r answer s in IsCountedAsOther reply
unfolding error_reason as_reference_not_permitted as_secret_ref_immutable
answer_counted cluster api set_owner r (ok (gw, status)) s =
    counted_of_plain _ (reconcile_gateway-Run cluster api set_owner r gw status s).plain
answer_counted cluster api set_owner r (err not_found) s = inl (none, refl, refl)
answer_counted cluster api set_owner r (err no_match) s = inr (_, refl, refl)
answer_counted cluster api set_owner r (err (failed text)) s = inr (_, refl, refl)

-- Whatever the API server and the renderers answer, a reconcile of a resource makes calls, the latest
-- standing first, in which an object is applied only if the spec is valid, and an object is deleted
-- only if the spec is valid, both charts have been rendered, every rendered object has been applied
-- before by one of these calls or is of a kind that is not installed, and the object is owned by the
-- resource as its controller and has the key of no rendered object.
pub reconcile_deletes_last :
    {W Conditions : Type 0} (cluster : Cluster W Conditions) (api : ConditionApi Conditions)
    (set_owner : SetOwner) (r : Reconciler) (gw : LlmBatchGateway)
    (status : LlmBatchGatewayStatus Conditions) (s : State W Conditions)
    → let (reply, s') = reconcile_gateway cluster api set_owner r gw status s in
      (new : List (Call Conditions)) × (s'.calls ≡ new ++ s.calls) × Guarded (IsJustified r gw) new
reconcile_deletes_last cluster api set_owner r gw status s =
    let t = (reconcile_gateway-Run cluster api set_owner r gw status s).trace in
    (t.new, t.extends, t.guarded)

-- If the reply asks for a reconcile after a period, then that is the period of resynchronization, the
-- spec is valid, every object of both charts has been applied or is of a kind that is not installed,
-- and the last call has patched the status without an error.
pub reconcile-IsSynced :
    {W Conditions : Type 0} (cluster : Cluster W Conditions) (api : ConditionApi Conditions)
    (set_owner : SetOwner) (r : Reconciler) (gw : LlmBatchGateway)
    (status : LlmBatchGatewayStatus Conditions) (s : State W Conditions) (period : ℤ)
    → (reconcile_gateway cluster api set_owner r gw status s).0 ≡ ok (some period)
    → (new : List (Call Conditions)) × ((reconcile_gateway cluster api set_owner r gw status
          s).1.calls
        ≡ new ++ s.calls)
      × IsSynced r gw period new
reconcile-IsSynced cluster api set_owner r gw status s period h =
    let run = reconcile_gateway-Run cluster api set_owner r gw status s in
    (run.trace.new, run.trace.extends, run.synced period h)

-- Whatever the API server and the renderers answer, a reconcile that returns no error is not counted,
-- and one that returns an error is counted under the label "Other".
pub reconcile-counted :
    {W Conditions : Type 0} (cluster : Cluster W Conditions) (api : ConditionApi Conditions)
    (set_owner : SetOwner) (r : Reconciler) (request : Request) (s : State W Conditions)
    → let (reply, s') = reconcile cluster api set_owner r request s in IsCountedAsOther reply
unfolding reconcile
reconcile-counted cluster api set_owner r request s =
    let (answer, w) = cluster.get_gateway request.namespace request.name s.world in
    answer_counted cluster api set_owner r answer _
