-- ===== src/Controller/Orphans/Completeness.antt =====
-- Every orphan of every managed kind is deleted, whatever fails on the way.
use mathlib.Core.List.{Memᴰ}
use llm_d_batch_gateway_oper.Prelude.{
  ◌≡◌, refl, sym, ap, subst, true, List, [], ◌∷◌, Option, Bool-cases, inl, inr, mem-append_right,
  mem-cons_cases,
}
use llm_d_batch_gateway_oper.Api.Gateway.{LlmBatchGateway}
use llm_d_batch_gateway_oper.Controller.Errors.{ApiError, OrphanError, Result, ok, err}
use llm_d_batch_gateway_oper.Controller.Objects.{Gvk, Object, ResourceKey, managed_gvks}
use llm_d_batch_gateway_oper.Controller.Cluster.{Cluster, State, Call, listed, deleted}
use llm_d_batch_gateway_oper.Controller.Orphans.{
  desired_keys, is_orphan, delete_items, delete_listed, delete_kinds, delete_orphaned_resources,
}
use llm_d_batch_gateway_oper.Controller.Orphans.Safety.{
  Outcome, delete_items-Outcome, delete_kinds-Outcome,
}

module _ {Conditions : Type 0} where
  -- Each orphan of the listing has been asked to be deleted.
  abbrev pub AllDeleted :
      LlmBatchGateway → List ResourceKey → Gvk → List Object → List (Call Conditions) → Type 0
  AllDeleted gw desired gvk items calls =
      (item : Object)
      → Memᴰ item items
      → is_orphan gw desired gvk item ≡ true
      → (answer : Option ApiError) × Memᴰ (deleted gvk item answer) calls

  -- The kind has been listed, and the orphans of the answer deleted.
  abbrev pub KindDone : LlmBatchGateway → List ResourceKey → Gvk → List (Call Conditions) → Type 0
  KindDone gw desired gvk calls =
      (answer : Result ApiError (List Object)) × Memᴰ (listed gvk gw.namespace answer) calls
      × ((items : List Object) → answer ≡ ok items → AllDeleted gw desired gvk items calls)

module _ {Conditions : Type 0} (gw : LlmBatchGateway) (desired : List ResourceKey) where
  -- Calls that were made stay made.
  mem-later :
      {before after : List (Call Conditions)} {errors : List OrphanError} (call : Call Conditions)
      → Outcome gw desired before after errors
      → Memᴰ call before
      → Memᴰ call after
  mem-later {before} call o m =
      subst (Memᴰ call) (sym o.extends) (mem-append_right call o.new before m)

  KindDone-later :
      {before after : List (Call Conditions)} {errors : List OrphanError} (gvk : Gvk)
      → Outcome gw desired before after errors
      → KindDone gw desired gvk before
      → KindDone gw desired gvk after
  KindDone-later gvk o (answer, m, done) = (
    answer,
    mem-later _ o m,
    λ items e item n orphan. let (a, k) = done items e item n orphan in (a, mem-later _ o k),
  )

module _ {W Conditions : Type 0} (cluster : Cluster W Conditions) (gw : LlmBatchGateway)
    (desired : List ResourceKey) where
  delete_items-AllDeleted :
      (gvk : Gvk) (items : List Object) (s : State W Conditions)
      → AllDeleted gw desired gvk items (delete_items cluster gw desired gvk items s).1.calls
  unfolding delete_items
  delete_items-AllDeleted gvk [] s item m orphan = elim m [ ]
  delete_items-AllDeleted gvk (first ∷ items) s item m orphan =
      elim (Bool-cases (is_orphan gw desired gvk first)) [
        | inl e ↦
            let (answer, w) = cluster.delete first s.world in
            let next = record s { world = w; calls = deleted gvk first answer ∷ s.calls } in
            rw e (elim (mem-cons_cases item first items m) [
              | inl p ↦ (
                answer,
                subst
                    (λ i.
                      Memᴰ (deleted gvk i answer)
                        (delete_items cluster gw desired gvk items next).1.calls)
                    (sym p)
                    (mem-later gw desired (deleted gvk first answer)
                      (delete_items-Outcome cluster gw desired gvk items next) (Memᴰ.head refl)),
              )
              | inr n ↦ delete_items-AllDeleted gvk items next item n orphan
            ])
        | inr e ↦ rw e (elim (mem-cons_cases item first items m) [
          | inl p ↦ absurd (cc (ap (is_orphan gw desired gvk) p, orphan, e))
          | inr n ↦ delete_items-AllDeleted gvk items s item n orphan
        ])
      ]

  delete_listed-KindDone :
      (gvk : Gvk) (answer : Result ApiError (List Object)) (s : State W Conditions)
      → KindDone gw desired gvk
          (delete_listed cluster gw desired gvk answer
            (record s { calls = listed gvk gw.namespace answer ∷ s.calls })).1.calls
  delete_listed-KindDone gvk (ok items) s =
      let next = record s { calls = listed gvk gw.namespace (ok items) ∷ s.calls } in
      (
        ok items,
        mem-later gw desired _ (delete_items-Outcome cluster gw desired gvk items next)
            (Memᴰ.head refl),
        λ others e.
            let same : others ≡ items = cc e in
            subst
              (λ l.
                AllDeleted gw desired gvk l
                  (delete_items cluster gw desired gvk items next).1.calls)
              (sym same) (delete_items-AllDeleted gvk items next),
      )
  delete_listed-KindDone gvk (err e) s = (err e, Memᴰ.head refl, λ items p. absurd (cc))

  delete_kinds-KindDone :
      (gvks : List Gvk) (s : State W Conditions) (gvk : Gvk)
      → Memᴰ gvk gvks
      → KindDone gw desired gvk (delete_kinds cluster gw desired gvks s).1.calls
  unfolding delete_kinds
  delete_kinds-KindDone [] s gvk m = elim m [ ]
  delete_kinds-KindDone (first ∷ gvks) s gvk m =
      let (answer, w) = cluster.list first gw.namespace s.world in
      let here = delete_listed-KindDone first answer (record s { world = w }) in
      elim (mem-cons_cases gvk first gvks m) [
        | inl p ↦
            subst
              (λ g.
                KindDone gw desired g (delete_kinds cluster gw desired (first ∷ gvks) s).1.calls)
              (sym p)
              (KindDone-later gw desired first (delete_kinds-Outcome cluster gw desired gvks _)
                here)
        | inr n ↦ delete_kinds-KindDone gvks _ gvk n
      ]

-- Whatever the API server answers, every managed kind is listed in the resource's namespace, and
-- every orphan in the answer is deleted, also after other listings and deletions have failed.
pub every_orphan_deleted :
    {W Conditions : Type 0} (cluster : Cluster W Conditions) (gw : LlmBatchGateway)
    (rendered : List Object) (s : State W Conditions) (gvk : Gvk)
    → Memᴰ gvk managed_gvks
    → KindDone gw
        (desired_keys rendered)
        gvk
        (delete_orphaned_resources cluster gw rendered s).1.calls
unfolding delete_orphaned_resources
every_orphan_deleted cluster gw rendered s gvk m =
    delete_kinds-KindDone cluster gw (desired_keys rendered) managed_gvks s gvk m
