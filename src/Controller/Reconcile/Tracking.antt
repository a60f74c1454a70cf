-- ===== src/Controller/Reconcile/Tracking.antt =====
-- Rotation of a source Secret: once a reconcile tracks it, its events pass the watch filter and
-- enqueue the resource.
use mathlib.Core.List.{Memᴰ}
use llm_d_batch_gateway_oper.Prelude.{
  String, ◌≡◌, ◌≢◌, ◌↔◌, ◌∙◌, subst, member-cons, eq_refl, and_iff, refl, ap, Bool, true, ◌||◌,
  List, [], ◌∷◌, ◌==◌, member, eq_iff, false_of_ne, Bool-cases, inl, inr, arith, mem-cons_cases,
}
use llm_d_batch_gateway_oper.Api.Gateway.{LlmBatchGateway}
use llm_d_batch_gateway_oper.Controller.Errors.{ok}
use llm_d_batch_gateway_oper.Controller.Cluster.{State}
use llm_d_batch_gateway_oper.Controller.SecretFilter.{watch_key, add, matches}
use llm_d_batch_gateway_oper.Controller.Watch.{
  Request, request_for, requests_where, refers_to_secret, enqueue_for_secret,
}
use llm_d_batch_gateway_oper.Controller.Reconcile.{track_secret}

-- What is let through after a Secret was added.
pub matches-add :
    (namespace name n m : String) (watched : List String)
    → matches n m (add namespace name watched)
      ≡ (watch_key namespace name == watch_key n m || matches n m watched)
unfolding matches add
matches-add namespace name n m watched =
    elim (Bool-cases (member (watch_key namespace name) watched)) [
      | inl e ↦ rw e (elim (Bool-cases (watch_key namespace name == watch_key n m)) [
        | inl p ↦ rw p (subst (λ k. member k watched ≡ true) ((eq_iff _ _).0 p) e)
        | inr p ↦ rw p refl
      ])
      | inr e ↦ rw e (member-cons _ _ watched)
    ]

requests_where_iff :
    (test : LlmBatchGateway → Bool) (gws : List LlmBatchGateway) (req : Request)
    → Memᴰ req (requests_where test gws)
      ↔ ((gw : LlmBatchGateway) × Memᴰ gw gws × (test gw ≡ true) × (req ≡ request_for gw))
unfolding requests_where
requests_where_iff test [] req = ((λ m. elim m [ ]), (λ (gw, m, t, e). elim m [ ]))
requests_where_iff test (first ∷ gws) req = elim (Bool-cases (test first)) [
  | inl p ↦ rw p (
    (λ m. elim (mem-cons_cases req _ _ m) [
      | inl e ↦ (first, Memᴰ.head refl, p, e)
      | inr n ↦ let (gw, k, t, e) = (requests_where_iff test gws req).0 n in (gw, Memᴰ.tail k, t, e)
    ]),
    (λ (gw, m, t, e). elim (mem-cons_cases gw first gws m) [
      | inl q ↦ Memᴰ.head (e ∙ ap request_for q)
      | inr n ↦ Memᴰ.tail ((requests_where_iff test gws req).1 (gw, n, t, e))
    ]),
  )
  | inr p ↦ rw p (
    (λ m. let (gw, k, t, e) = (requests_where_iff test gws req).0 m in (gw, Memᴰ.tail k, t, e)),
    (λ (gw, m, t, e). elim (mem-cons_cases gw first gws m) [
      | inl q ↦ absurd (cc (ap test q, t, p))
      | inr n ↦ (requests_where_iff test gws req).1 (gw, n, t, e)
    ]),
  )
]

-- Who is enqueued for an event on a Secret.
enqueue_for_secret_iff :
    (namespace name : String) (gws : List LlmBatchGateway) (req : Request)
    → Memᴰ req (enqueue_for_secret namespace name (ok gws)) ↔ (
        (gw : LlmBatchGateway) × Memᴰ gw gws
        × (refers_to_secret namespace name gw ≡ true)
        × (req ≡ request_for gw))
unfolding enqueue_for_secret
enqueue_for_secret_iff namespace name gws req = requests_where_iff _ gws req

-- After the Secret of a reference to another namespace is tracked, each event on that Secret passes
-- the watch filter and enqueues the resource, if it is among those listed; and every Secret that
-- passed the filter before still does.
pub tracked_secret_wakes :
    {W Conditions : Type 0} (gw : LlmBatchGateway) (gws : List LlmBatchGateway)
    (s : State W Conditions)
    → gw.spec.secret_ref.namespace ≢ ""
    → gw.spec.secret_ref.namespace ≢ gw.namespace
    → Memᴰ gw gws
    → let watched = (track_secret gw s).watched in
      let ref = gw.spec.secret_ref in
      (matches ref.namespace ref.name watched ≡ true)
      × Memᴰ (request_for gw) (enqueue_for_secret ref.namespace ref.name (ok gws))
      × ((n m : String) → matches n m s.watched ≡ true → matches n m watched ≡ true)
tracked_secret_wakes gw gws s filled foreign m =
    let ref = gw.spec.secret_ref in
    rw (false_of_ne ref.namespace "" filled, false_of_ne ref.namespace gw.namespace foreign)
      (
        (rw (matches-add ref.namespace ref.name ref.namespace ref.name s.watched, eq_refl) refl),
        (enqueue_for_secret_iff ref.namespace ref.name gws _).1
            (gw, m, (and_iff _ _).1 (eq_refl ref.namespace, eq_refl ref.name), refl),
        (λ n k h. rw (matches-add ref.namespace ref.name n k s.watched, h) (ground arith)),
      )
