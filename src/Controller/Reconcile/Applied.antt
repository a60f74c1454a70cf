-- ===== src/Controller/Reconcile/Applied.antt =====
-- The loop that applies the rendered objects: no error means that each of them is in the cluster, or
-- that its kind is not installed.
use mathlib.Core.List.{Memᴰ}
use llm_d_batch_gateway_oper.Prelude.{
  ◌≡◌, refl, true, List, [], ◌∷◌, ◌++◌, Option, none, some, All, All-mem, All-of_mem, Bool-cases,
  Option-cases, inl, inr, mem-append_left, mem-append_right,
}
use llm_d_batch_gateway_oper.Api.Gateway.{LlmBatchGateway}
use llm_d_batch_gateway_oper.Controller.Errors.{
  ApiError, Result-cases, GoError, owning, applying, is_missing_kind, as_reference_not_permitted,
  as_secret_ref_immutable,
}
use llm_d_batch_gateway_oper.Controller.Objects.{OwnerReference, Object}
use llm_d_batch_gateway_oper.Controller.Conditions.{ConditionApi}
use llm_d_batch_gateway_oper.Controller.Cluster.{
  Cluster, State, Call, rendered, applied, event, warning,
}
use llm_d_batch_gateway_oper.Controller.Secrets.{SetOwner}
use llm_d_batch_gateway_oper.Controller.Traces.{Adds, adds_none, adds_call, adds_then}
use llm_d_batch_gateway_oper.Controller.Status.Calls.{IsPlain, IsPlain-of_some}
use llm_d_batch_gateway_oper.Controller.Reconcile.{Reconciler, apply_objects}

abbrev pub IsApplyCall : {Conditions : Type 0} → Call Conditions → Type 0
IsApplyCall (applied (rendered object) answer) = Unit
IsApplyCall (event severity reason) = Unit
IsApplyCall _ = ⊥

-- The call succeeded, or the kind is not installed.
abbrev pub IsTolerated : Option ApiError → Type 0
IsTolerated none = Unit
IsTolerated (some e) = is_missing_kind e ≡ true

-- The object, in the resource's namespace and with some owners, was applied.
abbrev pub IsInstalled :
    {Conditions : Type 0} → LlmBatchGateway → List (Call Conditions) → Object → Type 0
IsInstalled gw calls object =
    (owners : List OwnerReference) × (answer : Option ApiError) × Memᴰ
      (applied (rendered (record object { namespace = gw.namespace; owners = owners })) answer)
      calls
    × IsTolerated answer

module _ {Conditions : Type 0} (gw : LlmBatchGateway) where
  IsInstalled-later :
      (later calls : List (Call Conditions)) (object : Object)
      → IsInstalled gw calls object
      → IsInstalled gw (later ++ calls) object
  IsInstalled-later later calls object (owners, answer, m, t) =
      (owners, answer, mem-append_right _ later calls m, t)

  pub All-IsInstalled_later :
      (later calls : List (Call Conditions)) (objects : List Object)
      → All (IsInstalled gw calls) objects
      → All (IsInstalled gw (later ++ calls)) objects
  All-IsInstalled_later later calls objects h =
      All-of_mem _ objects (λ o m. IsInstalled-later later calls o (All-mem _ objects h o m))

  pub All-IsInstalled_earlier :
      (calls earlier : List (Call Conditions)) (objects : List Object)
      → All (IsInstalled gw calls) objects
      → All (IsInstalled gw (calls ++ earlier)) objects
  All-IsInstalled_earlier calls earlier objects h = All-of_mem _ objects (λ o m.
      let (w, a, k, u) = All-mem _ objects h o m in (w, a, mem-append_left _ calls earlier k, u))

-- What is known after the loop.
pub record Installed {Conditions : Type 0} (gw : LlmBatchGateway) (objects : List Object)
    (before after : List (Call Conditions)) (error : Option GoError) : Type 0 where
  pub adds : Adds IsApplyCall before after
  pub installed : error ≡ none → All (IsInstalled gw adds.new) objects
  pub plain : (e : GoError) → error ≡ some e → IsPlain e

module _ {Conditions : Type 0} (gw : LlmBatchGateway) (objects : List Object) where
  Installed-failed :
      (before after : List (Call Conditions)) (e : GoError)
      → Adds IsApplyCall before after
      → IsPlain e
      → Installed gw objects before after (some e)
  Installed-failed before after e adds p = record {
    adds = adds;
    installed = λ h. absurd (cc);
    plain = λ x h. IsPlain-of_some e x h p;
  }

  Installed-cons :
      (object : Object) (owners : List OwnerReference) (answer : Option ApiError)
      (before after : List (Call Conditions)) (error : Option GoError)
      → IsTolerated answer
      → Installed gw objects
          (applied (rendered (record object { namespace = gw.namespace; owners = owners })) answer
            ∷ before)
          after
          error
      → Installed gw (object ∷ objects) before after error
  Installed-cons object owners answer before after error t rest =
      let call : Call Conditions =
        applied (rendered (record object { namespace = gw.namespace; owners = owners })) answer in
      record {
        adds = adds_then IsApplyCall (adds_call IsApplyCall call before tt) rest.adds;
        installed = λ h. (
          (owners, answer, mem-append_right call rest.adds.new (call ∷ []) (Memᴰ.head refl), t),
          All-IsInstalled_earlier gw rest.adds.new (call ∷ []) objects (rest.installed h),
        );
        plain = rest.plain;
      }

module _ {W Conditions : Type 0} (cluster : Cluster W Conditions) (api : ConditionApi Conditions)
    (set_owner : SetOwner) (r : Reconciler) (gw : LlmBatchGateway) where
  pub apply_objects-Installed :
      (objects : List Object) (s : State W Conditions)
      → let (error, s') = apply_objects cluster api set_owner r gw objects s in
        Installed gw objects s.calls s'.calls error
  unfolding apply_objects as_reference_not_permitted as_secret_ref_immutable
  apply_objects-Installed [] s = record {
    adds = adds_none IsApplyCall s.calls;
    installed = λ h. tt;
    plain = λ e h. absurd (cc);
  }
  apply_objects-Installed (object ∷ objects) s =
      elim (Result-cases (set_owner gw gw.namespace object.owners)) [
        | inr (e, p) ↦ rw p (
            Installed-failed gw (object ∷ objects) s.calls s.calls
              (owning object.gvk.kind object.name e) (adds_none IsApplyCall s.calls) (refl, refl))
        | inl (owners, p) ↦
            let owned = rendered (record object { namespace = gw.namespace; owners = owners }) in
            let (answer, w) = cluster.apply owned s.world in
            rw p (elim (Option-cases answer) [
              | inl q ↦ rw q (
                  Installed-cons gw objects object owners none s.calls _ _ tt
                    (apply_objects-Installed objects _))
              | inr (e, q) ↦ rw q (elim (Bool-cases (is_missing_kind e)) [
                | inl m ↦ rw m (
                    Installed-cons gw objects object owners (some e) s.calls _ _ m
                      (apply_objects-Installed objects _))
                | inr m ↦ rw m (
                    Installed-failed gw (object ∷ objects) s.calls _
                      (applying object.gvk.kind object.name e)
                      (adds_then IsApplyCall
                        (adds_call IsApplyCall (applied owned (some e)) s.calls tt)
                        (adds_call IsApplyCall (event warning "ApplyFailed") _ tt))
                      (refl, refl))
              ])
            ])
      ]
