-- ===== src/Queues/Names.antt =====
-- The names of the derived queues: without repetition, and exactly the published ones.
use mathlib.Core.List.{Memᴰ}
use llm_d_batch_gateway_oper.Prelude.{
  String, ◌≡◌, refl, ap, ◌⊎◌, inl, inr, List, [], ◌∷◌, map, Bool-cases, Distinct, member,
  member→mem, not_mem_of_member, mem-cons_cases,
}
use llm_d_batch_gateway_oper.Prelude.Assoc.{Assoc}
use llm_d_batch_gateway_oper.Prelude.Sorting.{SameMembers}
use llm_d_batch_gateway_oper.Api.Async.{AsyncQueueConfig, AsyncRedisSpec}
use llm_d_batch_gateway_oper.Api.Components.{ModelGatewaySpec}
use llm_d_batch_gateway_oper.Queues.{
  request_queue_name_for, distinct_queues, default_async_queues, queue_names, published_queues,
  with_redis_settings, sorted_model_gateways,
}

-- A name of a derived queue is not among those seen, and is published.
distinct_queues_new :
    (seen : List String) (gs : List ModelGatewaySpec) (a : String)
    → Memᴰ a (queue_names (distinct_queues seen gs))
    → (¬ Memᴰ a seen) × Memᴰ a (map request_queue_name_for gs)
unfolding distinct_queues
distinct_queues_new seen [] a m = elim m [ ]
distinct_queues_new seen (g ∷ gs) a m = elim (Bool-cases (member (request_queue_name_for g) seen)) [
  | inl e ↦ let (n, p) = distinct_queues_new seen gs a (rw e at m) in (n, Memᴰ.tail p)
  | inr e ↦ elim (mem-cons_cases a _ _ (rw e at m)) [
    | inl p ↦ (rw p (not_mem_of_member _ seen e), Memᴰ.head p)
    | inr n ↦
        let (f, p) = distinct_queues_new (request_queue_name_for g ∷ seen) gs a n in
        (λ k. f (Memᴰ.tail k), Memᴰ.tail p)
  ]
]

distinct_queues-Distinct :
    (seen : List String) (gs : List ModelGatewaySpec)
    → Distinct (queue_names (distinct_queues seen gs))
unfolding distinct_queues
distinct_queues-Distinct seen [] = tt
distinct_queues-Distinct seen (g ∷ gs) =
    elim (Bool-cases (member (request_queue_name_for g) seen)) [
      | inl e ↦ rw e (distinct_queues-Distinct seen gs)
      | inr e ↦ rw e (
        (λ m. (distinct_queues_new (request_queue_name_for g ∷ seen) gs _ m).0 (Memᴰ.head refl)),
        distinct_queues-Distinct (request_queue_name_for g ∷ seen) gs,
      )
    ]

-- Every published name is seen or has a queue.
distinct_queues_cover :
    (seen : List String) (gs : List ModelGatewaySpec) (a : String)
    → Memᴰ a (map request_queue_name_for gs)
    → Memᴰ a seen ⊎ Memᴰ a (queue_names (distinct_queues seen gs))
unfolding distinct_queues
distinct_queues_cover seen [] a m = elim m [ ]
distinct_queues_cover seen (g ∷ gs) a m =
    elim (Bool-cases (member (request_queue_name_for g) seen)) [
      | inl e ↦ elim (mem-cons_cases a _ _ m) [
        | inl p ↦ inl (rw p (member→mem _ seen e))
        | inr n ↦ rw e (distinct_queues_cover seen gs a n)
      ]
      | inr e ↦ elim (mem-cons_cases a _ _ m) [
        | inl p ↦ inr (rw e (Memᴰ.head p))
        | inr n ↦ elim (distinct_queues_cover (request_queue_name_for g ∷ seen) gs a n) [
          | inl k ↦ elim (mem-cons_cases a _ seen k) [
            | inl p ↦ inr (rw e (Memᴰ.head p))
            | inr s ↦ inl s
          ]
          | inr k ↦ inr (rw e (Memᴰ.tail k))
        ]
      ]
    ]

-- The derived queues have the published names, each one once.
pub default_async_queues_names :
    (models : Assoc ModelGatewaySpec)
    → Distinct (queue_names (default_async_queues models))
      × SameMembers (queue_names (default_async_queues models)) (published_queues models)
unfolding default_async_queues
default_async_queues_names models =
    let gs = sorted_model_gateways models in
    (
      distinct_queues-Distinct [] gs,
      λ a. (
        (λ m. (distinct_queues_new [] gs a m).1),
        (λ m. elim (distinct_queues_cover [] gs a m) [ inl k ↦ elim k [ ] | inr k ↦ k ]),
      ),
    )

-- The Redis settings leave the names as they are.
pub queue_names_with_settings :
    (redis : AsyncRedisSpec) (queues : List AsyncQueueConfig)
    → queue_names (map (with_redis_settings redis) queues) ≡ queue_names queues
queue_names_with_settings redis [] = refl
queue_names_with_settings redis (q ∷ qs) = ap (λ r. q.name ∷ r) (queue_names_with_settings redis qs)
