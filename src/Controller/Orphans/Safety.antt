-- ===== src/Controller/Orphans/Safety.antt =====
-- Only orphans are deleted, and the error that is returned says whether a call failed.
use mathlib.Core.List.{append_assoc}
use mathlib.Core.Path.{ap₂}
use llm_d_batch_gateway_oper.Prelude.{
  String, ◌≡◌, ↔-trans, refl, sym, ap, ◌∙◌, ◌↔◌, true, List, [], ◌∷◌, ◌++◌, Option, none, some,
  if◌then◌else◌, All, All-append, All-left, All-right, append-nil_parts, Bool-cases, inl, inr,
}
use llm_d_batch_gateway_oper.Api.Gateway.{LlmBatchGateway}
use llm_d_batch_gateway_oper.Controller.Errors.{
  ApiError, Result, ok, err, OrphanError, listing, is_missing_kind, is_not_found,
}
use llm_d_batch_gateway_oper.Controller.Objects.{Gvk, Object, ResourceKey, managed_gvks}
use llm_d_batch_gateway_oper.Controller.Cluster.{Cluster, State, Call, listed, deleted}
use llm_d_batch_gateway_oper.Controller.Orphans.{
  desired_keys, deletion_errors, is_orphan, delete_items, delete_listed, delete_kinds, join_errors,
  delete_orphaned_resources,
}

module _ {Conditions : Type 0} where
  -- The call did not fail, or failed because the kind or the object is not there.
  abbrev pub IsFine : Call Conditions → Type 0
  IsFine (listed gvk namespace (err e)) = is_missing_kind e ≡ true
  IsFine (deleted gvk item (some e)) = is_not_found e ≡ true
  IsFine _ = Unit

-- A listing of the resource's own namespace, or the deletion of an orphan.
abbrev pub IsOrphanCall :
    {Conditions : Type 0} → LlmBatchGateway → List ResourceKey → Call Conditions → Type 0
IsOrphanCall gw desired (deleted gvk item answer) = is_orphan gw desired gvk item ≡ true
IsOrphanCall gw desired (listed gvk namespace answer) = namespace ≡ gw.namespace
IsOrphanCall gw desired _ = ⊥

-- The calls that were made, what they are, and what the returned errors say of them.
pub record Outcome {Conditions : Type 0} (gw : LlmBatchGateway) (desired : List ResourceKey)
    (before after : List (Call Conditions)) (errors : List OrphanError) : Type 0 where
  pub new : List (Call Conditions)
  pub extends : after ≡ new ++ before
  pub only : All (IsOrphanCall gw desired) new
  pub fine : (errors ≡ []) ↔ All IsFine new

module _ {Conditions : Type 0} (gw : LlmBatchGateway) (desired : List ResourceKey) where
  Outcome-refl : (calls : List (Call Conditions)) → Outcome gw desired calls calls []
  Outcome-refl calls = record {
    new = [];
    extends = refl;
    only = tt;
    fine = ((λ h. tt), (λ h. refl));
  }

  -- One call in front.
  Outcome-call :
      (call : Call Conditions) (calls : List (Call Conditions)) (errors : List OrphanError)
      → IsOrphanCall gw desired call
      → (errors ≡ []) ↔ IsFine call
      → Outcome gw desired calls (call ∷ calls) errors
  Outcome-call call calls errors h k = record {
    new = call ∷ [];
    extends = refl;
    only = (h, tt);
    fine = ((λ e. (k.0 e, tt)), (λ a. k.1 a.0));
  }

  Outcome-trans :
      {a b c : List (Call Conditions)} {e f : List OrphanError}
      → Outcome gw desired a b e
      → Outcome gw desired b c f
      → Outcome gw desired a c (e ++ f)
  Outcome-trans {a} {e = e} {f = f} p q = record {
    new = q.new ++ p.new;
    extends = q.extends ∙ ap (λ l. q.new ++ l) p.extends ∙ sym (append_assoc q.new p.new a);
    only = All-append _ q.new p.new q.only p.only;
    fine = (
      (λ h.
          let (x, y) = append-nil_parts e f h in
          All-append _ q.new p.new (q.fine.0 y) (p.fine.0 x)),
      (λ h. ap₂ ◌++◌ (p.fine.1 (All-right _ q.new p.new h)) (q.fine.1 (All-left _ q.new p.new h))),
    );
  }

module _ (Conditions : Type 0) where
  deletion-IsFine :
      (gvk : Gvk) (item : Object) (answer : Option ApiError)
      → (deletion_errors gvk item answer ≡ [])
        ↔ IsFine {Conditions = Conditions} (deleted gvk item answer)
  deletion-IsFine gvk item none = ((λ h. tt), (λ h. refl))
  deletion-IsFine gvk item (some e) = elim (Bool-cases (is_not_found e)) [
    | inl p ↦ rw p ((λ h. refl), (λ h. refl))
    | inr n ↦ rw n ((λ h. absurd (cc)), (λ h. absurd (cc)))
  ]

  listing-IsFine :
      (gvk : Gvk) (namespace : String) (e : ApiError)
      → ((if is_missing_kind e then [] else listing gvk.kind e ∷ []) ≡ [])
        ↔ IsFine {Conditions = Conditions} (listed gvk namespace (err e))
  listing-IsFine gvk namespace e = elim (Bool-cases (is_missing_kind e)) [
    | inl p ↦ rw p ((λ h. refl), (λ h. refl))
    | inr n ↦ rw n ((λ h. absurd (cc)), (λ h. absurd (cc)))
  ]

module _ {W Conditions : Type 0} (cluster : Cluster W Conditions) (gw : LlmBatchGateway)
    (desired : List ResourceKey) where
  pub delete_items-Outcome :
      (gvk : Gvk) (items : List Object) (s : State W Conditions)
      → let (errors, s') = delete_items cluster gw desired gvk items s in
        Outcome gw desired s.calls s'.calls errors
  unfolding delete_items
  delete_items-Outcome gvk [] s = Outcome-refl gw desired s.calls
  delete_items-Outcome gvk (item ∷ items) s = elim (Bool-cases (is_orphan gw desired gvk item)) [
    | inl e ↦ rw e (
        Outcome-trans gw desired
          (Outcome-call gw desired (deleted gvk item (cluster.delete item s.world).0) s.calls _ e
            (deletion-IsFine Conditions gvk item (cluster.delete item s.world).0))
          (delete_items-Outcome gvk items _))
    | inr e ↦ rw e (delete_items-Outcome gvk items s)
  ]

  -- The listing of a kind, whatever it answers.
  listed-Outcome :
      (gvk : Gvk) (answer : Result ApiError (List Object)) (s : State W Conditions)
      → let (errors, s') =
          delete_listed cluster gw desired gvk answer
            (record s { calls = listed gvk gw.namespace answer ∷ s.calls }) in
        Outcome gw desired s.calls s'.calls errors
  listed-Outcome gvk (ok items) s =
      Outcome-trans gw desired
        (Outcome-call gw desired (listed gvk gw.namespace (ok items)) s.calls [] refl
          ((λ h. tt), (λ h. refl)))
        (delete_items-Outcome gvk items _)
  listed-Outcome gvk (err e) s =
      Outcome-call gw desired (listed gvk gw.namespace (err e)) s.calls _ refl
        (listing-IsFine Conditions gvk gw.namespace e)

  pub delete_kinds-Outcome :
      (gvks : List Gvk) (s : State W Conditions)
      → let (errors, s') = delete_kinds cluster gw desired gvks s in
        Outcome gw desired s.calls s'.calls errors
  unfolding delete_kinds
  delete_kinds-Outcome [] s = Outcome-refl gw desired s.calls
  delete_kinds-Outcome (gvk ∷ gvks) s =
      let (answer, w) = cluster.list gvk gw.namespace s.world in
      Outcome-trans gw desired (listed-Outcome gvk answer (record s { world = w }))
        (delete_kinds-Outcome gvks _)

join_errors_iff : (errors : List OrphanError) → (join_errors errors ≡ none) ↔ (errors ≡ [])
join_errors_iff [] = ((λ h. refl), (λ h. refl))
join_errors_iff (e ∷ errors) = ((λ h. absurd (cc)), (λ h. absurd (cc)))

-- Whatever the API server does, the cleanup only lists objects in the resource's own
-- namespace and deletes objects that the resource owns as their controller and that no rendered
-- object has the key of; and it returns no error exactly if every call succeeded or found the kind,
-- or the object, missing.
pub delete_orphaned_resources_outcome :
    {W Conditions : Type 0} (cluster : Cluster W Conditions) (gw : LlmBatchGateway)
    (rendered : List Object) (s : State W Conditions)
    → let (error, s') = delete_orphaned_resources cluster gw rendered s in
      (new : List (Call Conditions)) × (s'.calls ≡ new ++ s.calls)
      × All (IsOrphanCall gw (desired_keys rendered)) new
      × ((error ≡ none) ↔ All IsFine new)
unfolding delete_orphaned_resources
delete_orphaned_resources_outcome cluster gw rendered s =
    let o = delete_kinds-Outcome cluster gw (desired_keys rendered) managed_gvks s in
    (o.new, o.extends, o.only, ↔-trans (join_errors_iff _) o.fine)
