-- ===== src/Controller/Reconcile/Runs.antt =====
-- The runs of a reconcile, from its end to its start: each step leaves a trace in which every call is
-- justified.
use mathlib.Core.List.{append_assoc}
use llm_d_batch_gateway_oper.Prelude.{
  String, ◌≡◌, refl, sym, ap, ◌∙◌, subst, not, ◌&&◌, ◌==◌, List, [], ◌∷◌, ◌++◌, Option, none, some,
  Bool-cases, inl, inr,
}
use llm_d_batch_gateway_oper.Api.Status.{LlmBatchGatewayStatus}
use llm_d_batch_gateway_oper.Api.Gateway.{LlmBatchGateway}
use llm_d_batch_gateway_oper.Validate.{ValidationError, validate_spec}
use llm_d_batch_gateway_oper.Controller.Errors.{
  Result, ok, err, GoError, RenderError, OrphanError, resolving_secret, rendering,
  rendering_unpatched, no_async_renderer, updating_status, deleting_orphans,
  as_reference_not_permitted, as_secret_ref_immutable,
}
use llm_d_batch_gateway_oper.Controller.Objects.{Object}
use llm_d_batch_gateway_oper.Controller.Conditions.{
  ConditionApi, validation_failed, all_condition_types,
}
use llm_d_batch_gateway_oper.Controller.Cluster.{Cluster, State, Call}
use llm_d_batch_gateway_oper.Controller.Orphans.{join_errors, delete_orphaned_resources}
use llm_d_batch_gateway_oper.Controller.Orphans.Safety.{delete_orphaned_resources_outcome}
use llm_d_batch_gateway_oper.Controller.Secrets.{SetOwner}
use llm_d_batch_gateway_oper.Controller.Secrets.Safety.{IsSecretCall, resolve_secret-Adds}
use llm_d_batch_gateway_oper.Controller.Status.Calls.{
  IsStatusCall, IsPlain, IsPlain-of_some, Wrote, record_failure-Wrote, update_status-Wrote,
}
use llm_d_batch_gateway_oper.Controller.Reconcile.{
  Render, Reconciler, no_requeue, render_error, permanent_reason, track_secret, reply_of_status,
  after_cleanup, after_applied, deploy, with_async, with_renderer, with_batch, secret_failure,
  with_secret, fail_render, after_validation, reconcile_gateway,
}
use llm_d_batch_gateway_oper.Controller.Reconcile.Applied.{
  IsApplyCall, All-IsInstalled_earlier, apply_objects-Installed,
}
use llm_d_batch_gateway_oper.Controller.Reconcile.Trace.{
  IsRendered, Deployed, Trace, Run, more, IsJustified-status, IsJustified-apply, IsJustified-secret,
  Deployed-later, IsJustified-cleanup,
}

IsPlain-of_err :
    {A : Type 0} (e x : GoError) (reply : Result GoError A)
    → reply ≡ err e
    → reply ≡ err x
    → IsPlain e
    → IsPlain x
IsPlain-of_err e x reply k h p = subst IsPlain (cc (k, h)) p

module _ {Conditions : Type 0} (r : Reconciler) (gw : LlmBatchGateway)
    {before : List (Call Conditions)} where
  -- An error ends the reconcile.
  Run-failed :
      {after : List (Call Conditions)} (e : GoError)
      → Trace r gw before after
      → IsPlain e
      → Run r gw before after (err e)
  Run-failed e t p = record {
    trace = t;
    synced = λ period h. absurd (cc);
    plain = λ x h. IsPlain-of_err e x (err e) refl h p;
  }

  -- A failure was recorded, and nothing is left to do.
  Run-recorded :
      {after : List (Call Conditions)} (error : Option GoError)
      → Trace r gw before after
      → ((e : GoError) → error ≡ some e → IsPlain e)
      → Run r gw before after (no_requeue error)
  Run-recorded none t p = record {
    trace = t;
    synced = λ period h. absurd (cc);
    plain = λ x h. absurd (cc);
  }
  Run-recorded (some e) t p = Run-failed e t (p e refl)

  Run-unrendered :
      {after : List (Call Conditions)} (chart : String) (e : RenderError) (error : Option GoError)
      → Trace r gw before after
      → ((e : GoError) → error ≡ some e → IsPlain e)
      → Run r gw before after (render_error chart e error)
  unfolding as_reference_not_permitted as_secret_ref_immutable
  Run-unrendered chart e none t p = Run-failed (rendering chart e) t (refl, refl)
  Run-unrendered chart e (some f) t p = Run-failed (rendering_unpatched chart e f) t (p f refl)

-- The error of the cleanup.
join_errors-IsPlain :
    (errors : List OrphanError) (e : GoError) → join_errors errors ≡ some e → IsPlain e
unfolding as_reference_not_permitted as_secret_ref_immutable
join_errors-IsPlain [] e h = absurd (cc)
join_errors-IsPlain (x ∷ xs) e h = IsPlain-of_some (deleting_orphans (x ∷ xs)) e h (refl, refl)

-- An error for which the user need not act.
IsPlain-of_reason : (e : GoError) → permanent_reason e ≡ none → IsPlain e
IsPlain-of_reason e h = elim (Bool-cases (as_reference_not_permitted e)) [
  | inl p ↦ let k = rw p at h in absurd (cc k)
  | inr p ↦ elim (Bool-cases (as_secret_ref_immutable e)) [
    | inl q ↦ let k = rw (p, q) at h in absurd (cc k)
    | inr q ↦ (p, q)
  ]
]

track_secret-calls :
    {W Conditions : Type 0} (gw : LlmBatchGateway) (s : State W Conditions)
    → (track_secret gw s).calls ≡ s.calls
track_secret-calls gw s =
    elim (Bool-cases (
      not (gw.spec.secret_ref.namespace == "")
      && not (gw.spec.secret_ref.namespace == gw.namespace))) [
        | inl e ↦ rw e refl
        | inr e ↦ rw e refl
      ]

module _ {W Conditions : Type 0} (cluster : Cluster W Conditions) (api : ConditionApi Conditions)
    (set_owner : SetOwner) (r : Reconciler) (gw : LlmBatchGateway)
    (status : LlmBatchGatewayStatus Conditions) (before : List (Call Conditions)) where
  status-Run :
      (objects : List Object) (error : Option GoError) {middle after : List (Call Conditions)}
      (t : Trace r gw before middle)
      → Deployed r gw objects t.new
      → Wrote middle after error
      → Run r gw before after (reply_of_status cluster api set_owner r error)
  unfolding as_reference_not_permitted as_secret_ref_immutable
  status-Run objects none t d w = record {
    trace = more r gw IsStatusCall (IsJustified-status r gw) t w.adds;
    synced = λ period h.
        let (patch, rest, e) = w.patched refl in
        (
          objects,
          Deployed-later r gw objects w.adds.new t.new d,
          (patch, rest ++ t.new, ap (λ l. l ++ t.new) e),
          cc h,
        );
    plain = λ x h. absurd (cc);
  }
  status-Run objects (some e) t d w =
      Run-failed r gw (updating_status e)
        (more r gw IsStatusCall (IsJustified-status r gw) t w.adds) (w.plain e refl)

  cleanup-Run :
      (objects : List Object) (error : Option GoError) (s : State W Conditions)
      (t : Trace r gw before s.calls)
      → Deployed r gw objects t.new
      → ((e : GoError) → error ≡ some e → IsPlain e)
      → let (reply, s') = after_cleanup cluster api set_owner r gw status error s in
        Run r gw before s'.calls reply
  cleanup-Run objects none s t d p =
      status-Run objects _ t d (update_status-Wrote cluster api gw status s)
  cleanup-Run objects (some e) s t d p = Run-failed r gw e t (p e refl)

  -- The cleanup's own error.
  orphans-IsPlain :
      (objects : List Object) (s : State W Conditions) (e : GoError)
      → (delete_orphaned_resources cluster gw objects s).0 ≡ some e
      → IsPlain e
  unfolding delete_orphaned_resources
  orphans-IsPlain objects s e h = join_errors-IsPlain _ e h

  applied-Run :
      (objects : List Object) (error : Option GoError) (s : State W Conditions)
      (t : Trace r gw before s.calls)
      → (error ≡ none → Deployed r gw objects t.new)
      → ((e : GoError) → error ≡ some e → IsPlain e)
      → let (reply, s') = after_applied cluster api set_owner r gw status objects error s in
        Run r gw before s'.calls reply
  applied-Run objects (some e) s t d p = Run-failed r gw e t (p e refl)
  applied-Run objects none s t d p =
      let (new, extends, only, fine) = delete_orphaned_resources_outcome cluster gw objects s in
      let t' : Trace r gw before (delete_orphaned_resources cluster gw objects s).1.calls = record {
        new = new ++ t.new;
        extends = extends ∙ ap (λ l. new ++ l) t.extends ∙ sym (append_assoc new t.new before);
        guarded = IsJustified-cleanup r gw objects new t.new (d refl) only t.guarded;
      } in
      cleanup-Run objects _ _ t' (Deployed-later r gw objects new t.new (d refl))
        (orphans-IsPlain objects s)

  deploy-Run :
      (objects : List Object) (s : State W Conditions)
      → validate_spec gw ≡ none
      → IsRendered r gw objects
      → Trace r gw before s.calls
      → let (reply, s') = deploy cluster api set_owner r gw status objects s in
        Run r gw before s'.calls reply
  unfolding deploy
  deploy-Run objects s v rendered t =
      let i = apply_objects-Installed cluster api set_owner r gw objects s in
      applied-Run objects _ _ (more r gw IsApplyCall (IsJustified-apply r gw v) t i.adds)
        (λ h. record {
          valid = v;
          is_rendered = rendered;
          all_installed = All-IsInstalled_earlier gw i.adds.new t.new objects (i.installed h);
        })
        i.plain

  async-Run :
      (secret : String) (batch : List Object) (render : Render)
      (answer : Result RenderError (List Object)) (s : State W Conditions)
      → validate_spec gw ≡ none
      → r.render_batch gw secret ≡ ok batch
      → r.render_async ≡ some render
      → render gw secret ≡ answer
      → Trace r gw before s.calls
      → let (reply, s') = with_async cluster api set_owner r gw status batch answer s in
        Run r gw before s'.calls reply
  unfolding fail_render
  async-Run secret batch render (ok async) s v b k a t =
      deploy-Run (batch ++ async) s v (secret, batch, render, async, b, k, a, refl) t
  async-Run secret batch render (err e) s v b k a t =
      let w = record_failure-Wrote cluster api gw status "RenderFailed" _ _ s in
      Run-unrendered r gw "async chart" e _
        (more r gw IsStatusCall (IsJustified-status r gw) t w.adds) w.plain

  renderer-Run :
      (secret : String) (batch : List Object) (render : Option Render) (s : State W Conditions)
      → validate_spec gw ≡ none
      → r.render_batch gw secret ≡ ok batch
      → r.render_async ≡ render
      → Trace r gw before s.calls
      → let (reply, s') = with_renderer cluster api set_owner r gw status secret batch render s in
        Run r gw before s'.calls reply
  unfolding as_reference_not_permitted as_secret_ref_immutable
  renderer-Run secret batch none s v b k t = Run-failed r gw no_async_renderer t (refl, refl)
  renderer-Run secret batch (some render) s v b k t = async-Run secret batch render _ s v b k refl t

  batch-Run :
      (secret : String) (answer : Result RenderError (List Object)) (s : State W Conditions)
      → validate_spec gw ≡ none
      → r.render_batch gw secret ≡ answer
      → Trace r gw before s.calls
      → let (reply, s') = with_batch cluster api set_owner r gw status secret answer s in
        Run r gw before s'.calls reply
  unfolding fail_render
  batch-Run secret (ok batch) s v b t = renderer-Run secret batch _ s v b refl t
  batch-Run secret (err e) s v b t =
      let w = record_failure-Wrote cluster api gw status "RenderFailed" _ _ s in
      Run-unrendered r gw "batch-gateway chart" e _
        (more r gw IsStatusCall (IsJustified-status r gw) t w.adds) w.plain

  failure-Run :
      (e : GoError) (reason : Option String) (s : State W Conditions)
      → permanent_reason e ≡ reason
      → Trace r gw before s.calls
      → let (reply, s') = secret_failure cluster api set_owner r gw status e reason s in
        Run r gw before s'.calls reply
  unfolding as_reference_not_permitted as_secret_ref_immutable
  failure-Run e none s h t = Run-failed r gw (resolving_secret e) t (IsPlain-of_reason e h)
  failure-Run e (some reason) s h t =
      let w = record_failure-Wrote cluster api gw status reason _ _ s in
      Run-recorded r gw _ (more r gw IsStatusCall (IsJustified-status r gw) t w.adds) w.plain

  secret-Run :
      (answer : Result GoError String) (s : State W Conditions)
      → validate_spec gw ≡ none
      → Trace r gw before s.calls
      → let (reply, s') = with_secret cluster api set_owner r gw status answer s in
        Run r gw before s'.calls reply
  unfolding with_secret
  secret-Run (err e) s v t = failure-Run e _ s refl t
  secret-Run (ok secret) s v t =
      batch-Run secret _ (track_secret gw s) v refl
        (subst (Trace r gw before) (sym (track_secret-calls gw s)) t)

module _ {W Conditions : Type 0} (cluster : Cluster W Conditions) (api : ConditionApi Conditions)
    (set_owner : SetOwner) (r : Reconciler) (gw : LlmBatchGateway)
    (status : LlmBatchGatewayStatus Conditions) (s : State W Conditions) where
  Trace-none : Trace {Conditions = Conditions} r gw s.calls s.calls
  Trace-none = record { new = []; extends = refl; guarded = tt }

  validated-Run :
      (error : Option ValidationError)
      → validate_spec gw ≡ error
      → let (reply, s') = after_validation cluster api set_owner r gw status error s in
        Run r gw s.calls s'.calls reply
  validated-Run (some e) p =
      let w =
        record_failure-Wrote cluster api gw status "ValidationFailed" (validation_failed e)
          all_condition_types s in
      Run-recorded r gw _ (more r gw IsStatusCall (IsJustified-status r gw) Trace-none w.adds)
        w.plain
  validated-Run none p = secret-Run cluster api set_owner r gw status s.calls _ _ p (
      more r gw IsSecretCall (IsJustified-secret r gw p) Trace-none
        (resolve_secret-Adds cluster set_owner gw s))

  pub reconcile_gateway-Run :
      let (reply, s') = reconcile_gateway cluster api set_owner r gw status s in
      Run r gw s.calls s'.calls reply
  unfolding reconcile_gateway
  reconcile_gateway-Run = validated-Run _ refl
