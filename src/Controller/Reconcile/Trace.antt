-- ===== src/Controller/Reconcile/Trace.antt =====
-- The trace of a reconcile: what must stand behind each call, and which steps keep it so.
use mathlib.Core.List.{append_assoc}
use llm_d_batch_gateway_oper.Prelude.{
  String, ◌≡◌, sym, ap, ◌∙◌, true, List, [], ◌∷◌, ◌++◌, none, some, All,
}
use llm_d_batch_gateway_oper.Prelude.Int.{ℤ}
use llm_d_batch_gateway_oper.Api.Gateway.{LlmBatchGateway}
use llm_d_batch_gateway_oper.Validate.{validate_spec}
use llm_d_batch_gateway_oper.Controller.Errors.{ok, err, GoError}
use llm_d_batch_gateway_oper.Controller.Objects.{Object}
use llm_d_batch_gateway_oper.Controller.Cluster.{
  Call, got_gateway, rendered, applied, deleted, secret_copy, got_secret, listed_grants, listed,
  event, listed_deployments, listed_stateful_sets, patched_status,
}
use llm_d_batch_gateway_oper.Controller.Orphans.{desired_keys, is_orphan}
use llm_d_batch_gateway_oper.Controller.Orphans.Safety.{IsOrphanCall}
use llm_d_batch_gateway_oper.Controller.Secrets.Safety.{IsSecretCall}
use llm_d_batch_gateway_oper.Controller.Status.Calls.{IsStatusCall, IsPlain, IsPatched}
use llm_d_batch_gateway_oper.Controller.Traces.{Adds, Guarded, Guarded-append}
use llm_d_batch_gateway_oper.Controller.Reconcile.{Render, Reconciler, Reply}
use llm_d_batch_gateway_oper.Controller.Reconcile.Applied.{
  IsApplyCall, IsInstalled, All-IsInstalled_later,
}

-- Both charts were rendered, for the local Secret, and these are their objects.
abbrev pub IsRendered : Reconciler → LlmBatchGateway → List Object → Type 0
IsRendered r gw objects =
    (secret : String) × (batch : List Object) × (render : Render) × (async : List Object)
    × (r.render_batch gw secret ≡ ok batch)
    × (r.render_async ≡ some render)
    × (render gw secret ≡ ok async)
    × (objects ≡ batch ++ async)

module _ {Conditions : Type 0} (r : Reconciler) (gw : LlmBatchGateway) where
  -- The spec is valid, and every rendered object was applied, or is of a kind that is not installed.
  pub record Deployed (objects : List Object) (calls : List (Call Conditions)) : Type 0 where
    pub valid : validate_spec gw ≡ none
    pub is_rendered : IsRendered r gw objects
    pub all_installed : All (IsInstalled gw calls) objects

  -- What must hold when an object is deleted, or applied.
  abbrev pub IsJustified : Call Conditions → List (Call Conditions) → Type 0
  IsJustified (deleted gvk item answer) earlier =
      (objects : List Object) × Deployed objects earlier
      × (is_orphan gw (desired_keys objects) gvk item ≡ true)
  IsJustified (applied what answer) earlier = validate_spec gw ≡ none
  IsJustified _ earlier = Unit

  -- The reply stands for a cluster that is up to date.
  abbrev pub IsSynced : ℤ → List (Call Conditions) → Type 0
  IsSynced period calls =
      (objects : List Object) × Deployed objects calls × IsPatched calls × (period ≡ r.sync_period)

  pub record Trace (before after : List (Call Conditions)) : Type 0 where
    pub new : List (Call Conditions)
    pub extends : after ≡ new ++ before
    pub guarded : Guarded IsJustified new

  pub record Run (before after : List (Call Conditions)) (reply : Reply) : Type 0 where
    pub trace : Trace before after
    pub synced : (period : ℤ) → reply ≡ ok (some period) → IsSynced period trace.new
    pub plain : (e : GoError) → reply ≡ err e → IsPlain e

  -- A step whose calls need no justification.
  abbrev pub more :
      (Q : Call Conditions → Type 0) {before middle after : List (Call Conditions)}
      → ((call : Call Conditions) (calls : List (Call Conditions))
          → Q call
          → IsJustified call calls)
      → Trace before middle
      → Adds Q middle after
      → Trace before after
  more Q {before} h t a = record {
    new = a.new ++ t.new;
    extends = a.extends ∙ ap (λ l. a.new ++ l) t.extends ∙ sym (append_assoc a.new t.new before);
    guarded = Guarded-append IsJustified Q a.new t.new h a.only t.guarded;
  }

  pub IsJustified-status :
      (call : Call Conditions) (calls : List (Call Conditions))
      → IsStatusCall call
      → IsJustified call calls
  IsJustified-status (event severity reason) calls h = tt
  IsJustified-status (listed_deployments namespace name answer) calls h = tt
  IsJustified-status (listed_stateful_sets namespace name answer) calls h = tt
  IsJustified-status (patched_status patch answer) calls h = tt
  IsJustified-status (got_gateway _ _ _) calls h = elim h [ ]
  IsJustified-status (got_secret _ _ _) calls h = elim h [ ]
  IsJustified-status (listed_grants _ _) calls h = elim h [ ]
  IsJustified-status (listed _ _ _) calls h = elim h [ ]
  IsJustified-status (applied _ _) calls h = elim h [ ]
  IsJustified-status (deleted _ _ _) calls h = elim h [ ]

  pub IsJustified-apply :
      validate_spec gw ≡ none
      → (call : Call Conditions) (calls : List (Call Conditions)) → IsApplyCall call
      → IsJustified call calls
  IsJustified-apply v (applied (rendered object) answer) calls h = v
  IsJustified-apply v (event severity reason) calls h = tt
  IsJustified-apply v (got_gateway _ _ _) calls h = elim h [ ]
  IsJustified-apply v (got_secret _ _ _) calls h = elim h [ ]
  IsJustified-apply v (listed_grants _ _) calls h = elim h [ ]
  IsJustified-apply v (listed _ _ _) calls h = elim h [ ]
  IsJustified-apply v (listed_deployments _ _ _) calls h = elim h [ ]
  IsJustified-apply v (listed_stateful_sets _ _ _) calls h = elim h [ ]
  IsJustified-apply v (applied (secret_copy _) _) calls h = elim h [ ]
  IsJustified-apply v (deleted _ _ _) calls h = elim h [ ]
  IsJustified-apply v (patched_status _ _) calls h = elim h [ ]

  pub IsJustified-secret :
      validate_spec gw ≡ none
      → (call : Call Conditions) (calls : List (Call Conditions)) → IsSecretCall call
      → IsJustified call calls
  IsJustified-secret v (got_secret namespace name answer) calls h = tt
  IsJustified-secret v (listed_grants namespace answer) calls h = tt
  IsJustified-secret v (applied (secret_copy secret) answer) calls h = v
  IsJustified-secret v (got_gateway _ _ _) calls h = elim h [ ]
  IsJustified-secret v (listed _ _ _) calls h = elim h [ ]
  IsJustified-secret v (listed_deployments _ _ _) calls h = elim h [ ]
  IsJustified-secret v (listed_stateful_sets _ _ _) calls h = elim h [ ]
  IsJustified-secret v (applied (rendered _) _) calls h = elim h [ ]
  IsJustified-secret v (deleted _ _ _) calls h = elim h [ ]
  IsJustified-secret v (patched_status _ _) calls h = elim h [ ]
  IsJustified-secret v (event _ _) calls h = elim h [ ]

  pub Deployed-later :
      (objects : List Object) (later calls : List (Call Conditions))
      → Deployed objects calls
      → Deployed objects (later ++ calls)
  Deployed-later objects later calls d = record {
    valid = d.valid;
    is_rendered = d.is_rendered;
    all_installed = All-IsInstalled_later gw later calls objects d.all_installed;
  }

  -- The cleanup, after everything is deployed.
  pub IsJustified-cleanup :
      (objects : List Object) (new earlier : List (Call Conditions))
      → Deployed objects earlier
      → All (IsOrphanCall gw (desired_keys objects)) new
      → Guarded IsJustified earlier
      → Guarded IsJustified (new ++ earlier)
  IsJustified-cleanup objects [] earlier d a g = g
  IsJustified-cleanup objects (deleted gvk item answer ∷ new) earlier d a g = (
    (objects, Deployed-later objects new earlier d, a.0),
    IsJustified-cleanup objects new earlier d a.1 g,
  )
  IsJustified-cleanup objects (listed gvk namespace answer ∷ new) earlier d a g =
      (tt, IsJustified-cleanup objects new earlier d a.1 g)
  IsJustified-cleanup objects (got_gateway _ _ _ ∷ new) earlier d a g = elim a.0 [ ]
  IsJustified-cleanup objects (got_secret _ _ _ ∷ new) earlier d a g = elim a.0 [ ]
  IsJustified-cleanup objects (listed_grants _ _ ∷ new) earlier d a g = elim a.0 [ ]
  IsJustified-cleanup objects (listed_deployments _ _ _ ∷ new) earlier d a g = elim a.0 [ ]
  IsJustified-cleanup objects (listed_stateful_sets _ _ _ ∷ new) earlier d a g = elim a.0 [ ]
  IsJustified-cleanup objects (applied _ _ ∷ new) earlier d a g = elim a.0 [ ]
  IsJustified-cleanup objects (patched_status _ _ ∷ new) earlier d a g = elim a.0 [ ]
  IsJustified-cleanup objects (event _ _ ∷ new) earlier d a g = elim a.0 [ ]
