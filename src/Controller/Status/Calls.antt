-- ===== src/Controller/Status/Calls.antt =====
-- The calls that writing a status makes, and its errors.
use llm_d_batch_gateway_oper.Prelude.{
  String, ◌≡◌, refl, subst, false, List, ◌∷◌, Option, none, some, Bool-cases, inl, inr,
}
use llm_d_batch_gateway_oper.Api.Status.{ComponentStatus, LlmBatchGatewayStatus}
use llm_d_batch_gateway_oper.Api.Gateway.{LlmBatchGateway}
use llm_d_batch_gateway_oper.Controller.Errors.{
  ApiError, Result, ok, err, GoError, patching, patching_status, listing_deployments,
  listing_stateful_sets, as_reference_not_permitted, as_secret_ref_immutable,
}
use llm_d_batch_gateway_oper.Controller.Rollout.{Deployment, StatefulSet}
use llm_d_batch_gateway_oper.Controller.Conditions.{
  ConditionApi, Message, condition_ready, condition_status,
}
use llm_d_batch_gateway_oper.Controller.Cluster.{
  Cluster, State, Call, StatusPatch, normal, warning, event, listed_deployments,
  listed_stateful_sets, patched_status,
}
use llm_d_batch_gateway_oper.Controller.Traces.{Adds, adds_call, adds_then}
use llm_d_batch_gateway_oper.Controller.Status.{
  has_status, set_component_conditions, apply_patch, write_status, update_with_stateful_sets,
  update_with_deployments, update_status, record_failure, patch_error, failure_error,
}

abbrev pub IsStatusCall : {Conditions : Type 0} → Call Conditions → Type 0
IsStatusCall (event severity reason) = Unit
IsStatusCall (listed_deployments namespace name answer) = Unit
IsStatusCall (listed_stateful_sets namespace name answer) = Unit
IsStatusCall (patched_status patch answer) = Unit
IsStatusCall _ = ⊥

-- The error is, and wraps, neither of those for which the user must act.
abbrev pub IsPlain : GoError → Type 0
IsPlain e = (as_reference_not_permitted e ≡ false) × (as_secret_ref_immutable e ≡ false)

-- No error means that the latest call patched the status.
abbrev pub IsPatched : {Conditions : Type 0} → List (Call Conditions) → Type 0
IsPatched {Conditions} calls =
    (patch : StatusPatch Conditions) × (rest : List (Call Conditions)) × (calls
      ≡ patched_status patch none ∷ rest)

-- What is known after a step that writes the status.
pub record Wrote {Conditions : Type 0} (before after : List (Call Conditions))
    (error : Option GoError) : Type 0 where
  pub adds : Adds IsStatusCall before after
  pub patched : error ≡ none → IsPatched adds.new
  pub plain : (e : GoError) → error ≡ some e → IsPlain e

pub IsPlain-of_some : (e x : GoError) → some e ≡ some x → IsPlain e → IsPlain x
IsPlain-of_some e x h p = subst IsPlain (cc h) p

module _ {Conditions : Type 0} (before earlier : List (Call Conditions))
    (adds : Adds IsStatusCall before earlier) (patch : StatusPatch Conditions) where
  abbrev adds_patch :
      (answer : Option ApiError) → Adds IsStatusCall before (patched_status patch answer ∷ earlier)
  adds_patch answer =
      adds_then IsStatusCall adds (adds_call IsStatusCall (patched_status patch answer) earlier tt)

  Wrote-patch :
      (answer : Option ApiError)
      → Wrote before (patched_status patch answer ∷ earlier) (patch_error answer)
  unfolding as_reference_not_permitted as_secret_ref_immutable
  Wrote-patch none = record {
    adds = adds_patch none;
    patched = λ h. (patch, adds.new, refl);
    plain = λ e h. absurd (cc);
  }
  Wrote-patch (some e) = record {
    adds = adds_patch (some e);
    patched = λ h. absurd (cc);
    plain = λ x h. IsPlain-of_some (patching e) x h (refl, refl);
  }

  Wrote-failure :
      (reason : String) (answer : Option ApiError)
      → Wrote before (patched_status patch answer ∷ earlier) (failure_error reason answer)
  unfolding as_reference_not_permitted as_secret_ref_immutable
  Wrote-failure reason none = record {
    adds = adds_patch none;
    patched = λ h. (patch, adds.new, refl);
    plain = λ e h. absurd (cc);
  }
  Wrote-failure reason (some e) = record {
    adds = adds_patch (some e);
    patched = λ h. absurd (cc);
    plain = λ x h. IsPlain-of_some (patching_status reason e) x h (refl, refl);
  }

module _ {W Conditions : Type 0} (cluster : Cluster W Conditions) (api : ConditionApi Conditions)
    (gw : LlmBatchGateway) (status : LlmBatchGatewayStatus Conditions) where
  pub record_failure-Wrote :
      (reason : String) (message : Message) (types : List String) (s : State W Conditions)
      → let (error, s') = record_failure cluster api gw status reason message types s in
        Wrote s.calls s'.calls error
  unfolding record_failure apply_patch
  record_failure-Wrote reason message types s =
      Wrote-failure s.calls (event warning reason ∷ s.calls) (adds_call IsStatusCall _ s.calls tt) _
        reason _

  write_status-Wrote :
      (components : ComponentStatus) (before : List (Call Conditions)) (s : State W Conditions)
      → Adds IsStatusCall before s.calls
      → let (error, s') = write_status cluster api gw status components s in
        Wrote before s'.calls error
  unfolding write_status apply_patch
  write_status-Wrote components before s adds =
      let (ready, cs) = set_component_conditions api gw components status.conditions in
      elim (Bool-cases (has_status (api.find condition_ready cs) (condition_status ready))) [
        | inl e ↦ rw e (Wrote-patch before s.calls adds _ _)
        | inr e ↦ rw e (elim (Bool-cases ready) [
          | inl p ↦ rw p (
              Wrote-patch before (event normal "AllComponentsReady" ∷ s.calls)
                (adds_then IsStatusCall adds (adds_call IsStatusCall _ s.calls tt)) _ _)
          | inr p ↦ rw p (
              Wrote-patch before (event warning "ComponentsNotReady" ∷ s.calls)
                (adds_then IsStatusCall adds (adds_call IsStatusCall _ s.calls tt)) _ _)
        ])
      ]

  -- A listing failed, and nothing is patched.
  Wrote-unlisted :
      (before after : List (Call Conditions)) (e : GoError)
      → Adds IsStatusCall before after
      → IsPlain e
      → Wrote before after (some e)
  Wrote-unlisted before after e adds p = record {
    adds = adds;
    patched = λ h. absurd (cc);
    plain = λ x h. IsPlain-of_some e x h p;
  }

  stateful_sets-Wrote :
      (components : ComponentStatus) (answer : Result ApiError (List StatefulSet))
      (before : List (Call Conditions)) (s : State W Conditions)
      → Adds IsStatusCall before s.calls
      → let (error, s') = update_with_stateful_sets cluster api gw status components answer s in
        Wrote before s'.calls error
  unfolding update_with_stateful_sets as_reference_not_permitted as_secret_ref_immutable
  stateful_sets-Wrote components (err e) before s adds =
      Wrote-unlisted before s.calls (listing_stateful_sets e) adds (refl, refl)
  stateful_sets-Wrote components (ok sss) before s adds = write_status-Wrote _ before s adds

  deployments-Wrote :
      (answer : Result ApiError (List Deployment)) (before : List (Call Conditions))
      (s : State W Conditions)
      → Adds IsStatusCall before s.calls
      → let (error, s') = update_with_deployments cluster api gw status answer s in
        Wrote before s'.calls error
  unfolding update_with_deployments as_reference_not_permitted as_secret_ref_immutable
  deployments-Wrote (err e) before s adds =
      Wrote-unlisted before s.calls (listing_deployments e) adds (refl, refl)
  deployments-Wrote (ok ds) before s adds =
      stateful_sets-Wrote _ _ before _
        (adds_then IsStatusCall adds (adds_call IsStatusCall _ s.calls tt))

  pub update_status-Wrote :
      (s : State W Conditions)
      → let (error, s') = update_status cluster api gw status s in Wrote s.calls s'.calls error
  unfolding update_status
  update_status-Wrote s = deployments-Wrote _ s.calls _ (adds_call IsStatusCall _ s.calls tt)
