-- ===== src/Validate/Parts.antt =====
-- The checks that `validateSpec` combines, each against its rule.
use mathlib.Core.List.{Memᴰ}
use llm_d_batch_gateway_oper.Prelude.{
  String, ↔-trans, ◌≡◌, refl, sym, ap, ◌∙◌, ◌↔◌, inl, inr, Option, none, some, List, [], ◌∷◌, map,
  eq_iff, All, All-mem, All-of_mem, Distinct, String-cases, ne_of_false, subst, mem-map_of_mem,
  mem_of_mem-map,
}
use llm_d_batch_gateway_oper.Prelude.Assoc.{
  Assoc, keys, HasDistinctKeys, mem-keys_of_lookup, lookup_of_mem-keys,
}
use llm_d_batch_gateway_oper.Prelude.Sorting.{
  SameMembers, sorted, sorted-Distinct, mem-sorted_of_mem, mem_of_mem-sorted,
}
use llm_d_batch_gateway_oper.Api.Async.{InferenceGatewaySpec, AsyncQueueConfig, AsyncWorkerPool}
use llm_d_batch_gateway_oper.Api.Components.{ModelGatewaySpec}
use llm_d_batch_gateway_oper.Queues.{
  sorted_model_names, sorted_model_gateways, model_gateway, or_zero, request_queue_name_for,
  queue_names, published_queues,
}
use llm_d_batch_gateway_oper.Validate.{
  ValidationError, validate_async_prometheus_gates, validate_async_queue_gateway_url,
  validate_async_queue_coverage, coverage_if_configured, shared_values, ◌then_check◌, queue_gates,
  pool_gates,
}
use llm_d_batch_gateway_oper.Validate.Rules.{
  HasGatewayUrl, HasPrometheus, Covers, Separates, IsPrometheusGate,
}
use llm_d_batch_gateway_oper.Validate.Loops.{
  both, queue_urls-none, queue_gates-none, pool_gates-none, duplicate_queues-none,
  missing_queues-none, unpublished_queues-none, shared_values-none,
}

pub gateway_url_check :
    (t : String) (qs : List AsyncQueueConfig) (ig : Option InferenceGatewaySpec)
    → (validate_async_queue_gateway_url t qs ig ≡ none) ↔ HasGatewayUrl ig qs
unfolding validate_async_queue_gateway_url
gateway_url_check t qs none = (
  (λ h. inr ((queue_urls-none t qs).0 h)),
  (λ h. elim h [ inl w ↦ absurd (cc (w.1)) | inr k ↦ (queue_urls-none t qs).1 k ]),
)
gateway_url_check t qs (some ig) = elim (String-cases ig.url "") [
  | inl e ↦ rw ((eq_iff ig.url "").1 e) (
    (λ h. inr ((queue_urls-none t qs).0 h)),
    (λ h. elim h [
      | inl w ↦ absurd (w.2 (ap gateway_url (sym w.1) ∙ e))
      | inr k ↦ (queue_urls-none t qs).1 k
    ]),
  )
  | inr n ↦ rw n ((λ h. inl (ig, refl, ne_of_false ig.url "" n)), (λ h. refl))
]
  where
    gateway_url : Option InferenceGatewaySpec → String
    gateway_url none = ""
    gateway_url (some g) = g.url

pub prometheus_check :
    (t : String) (qs : List AsyncQueueConfig) (ps : List AsyncWorkerPool) (url : String)
    → (validate_async_prometheus_gates t qs ps url ≡ none) ↔ HasPrometheus url qs ps
unfolding validate_async_prometheus_gates
prometheus_check t qs ps url =
    let loops : ((queue_gates t qs then_check pool_gates ps) ≡ none) ↔ (
        All (λ q. ¬ IsPrometheusGate q.gate_type) qs
        × All (λ p. ¬ IsPrometheusGate p.gate_type) ps) =
      both (queue_gates-none t qs) (pool_gates-none ps) in
    elim (String-cases url "") [
      | inl e ↦
          rw ((eq_iff url "").1 e)
            ((λ h. inr (loops.0 h)), (λ h. elim h [ inl n ↦ absurd (n e) | inr k ↦ loops.1 k ]))
      | inr n ↦ rw n ((λ h. inl (ne_of_false url "" n)), (λ h. refl))
    ]

map-map {ℓ κ μ} :
    {A : Type ℓ} {B : Type κ} {C : Type μ} (f : A → B) (g : B → C) (xs : List A)
    → map g (map f xs) ≡ map (λ x. g (f x)) xs
map-map f g [] = refl
map-map f g (x ∷ xs) = ap (λ r. g (f x) ∷ r) (map-map f g xs)

-- The published names, as the coverage check builds them.
pub published_queues_lem :
    (models : Assoc ModelGatewaySpec)
    → published_queues models
      ≡ map (λ n. request_queue_name_for (model_gateway models n)) (sorted_model_names models)
unfolding sorted_model_gateways
published_queues_lem models = map-map (model_gateway models) request_queue_name_for _

coverage_check :
    (t : String) (models : Assoc ModelGatewaySpec) (qs : List AsyncQueueConfig)
    → (validate_async_queue_coverage t models qs ≡ none)
      ↔ (Distinct (queue_names qs) × SameMembers (queue_names qs) (published_queues models))
unfolding validate_async_queue_coverage
coverage_check t models qs =
    let request = λ (n : String). request_queue_name_for (model_gateway models n) in
    let names = sorted_model_names models in
    rw published_queues_lem (
      ↔-trans
        (both (duplicate_queues-none t [] qs) (
          both (missing_queues-none t models (queue_names qs) names)
            (unpublished_queues-none t (map request names) qs)))
        (
          (λ h. (
            h.0.0,
            λ a. (
              (λ m. All-mem _ (queue_names qs) h.1.1 a m),
              (λ m.
                  let (n, k, e) = mem_of_mem-map request a names m in
                  subst (λ b. Memᴰ b (queue_names qs)) (sym e) (All-mem _ names h.1.0 n k)),
            ),
          )),
          (λ h. (
            (h.0, All-of_mem _ (queue_names qs) (λ x m k. elim k [ ])),
            (
              All-of_mem _ names (λ n m. (h.1 (request n)).1 (mem-map_of_mem request n names m)),
              All-of_mem _ (queue_names qs) (λ x m. (h.1 x).0 m),
            ),
          )),
        ))

pub coverage_if_configured_check :
    (t : String) (models : Assoc ModelGatewaySpec) (qs : List AsyncQueueConfig)
    → (coverage_if_configured t models qs ≡ none) ↔ Covers models qs
coverage_if_configured_check t models [] = ((λ h. inl refl), (λ h. refl))
coverage_if_configured_check t models (q ∷ qs) = (
  (λ h. inr ((coverage_check t models (q ∷ qs)).0 h)),
  (λ h. elim h [ inl e ↦ absurd (cc) | inr k ↦ (coverage_check t models (q ∷ qs)).1 k ]),
)

-- Distinct values along a list without repetition: the function is injective on the list.
injective_of_Distinct {ℓ} :
    {A : Type ℓ} (f : A → String) (xs : List A)
    → Distinct (map f xs)
    → (a b : A) → Memᴰ a xs
    → Memᴰ b xs
    → f a ≡ f b
    → a ≡ b
injective_of_Distinct f [] d a b m n e = elim m [ ]
injective_of_Distinct f (x ∷ xs) d a b (Memᴰ.head p) (Memᴰ.head q) e = p ∙ sym q
injective_of_Distinct f (x ∷ xs) d a b (Memᴰ.head p) (Memᴰ.tail n) e =
    absurd (d.0 (subst (λ v. Memᴰ v (map f xs)) (sym e ∙ ap f p) (mem-map_of_mem f b xs n)))
injective_of_Distinct f (x ∷ xs) d a b (Memᴰ.tail m) (Memᴰ.head q) e =
    absurd (d.0 (subst (λ v. Memᴰ v (map f xs)) (e ∙ ap f q) (mem-map_of_mem f a xs m)))
injective_of_Distinct f (x ∷ xs) d a b (Memᴰ.tail m) (Memᴰ.tail n) e =
    injective_of_Distinct f xs d.1 a b m n e

Distinct-of_injective {ℓ} :
    {A : Type ℓ} (f : A → String) (xs : List A)
    → Distinct xs
    → ((a b : A) → Memᴰ a xs → Memᴰ b xs → f a ≡ f b → a ≡ b)
    → Distinct (map f xs)
Distinct-of_injective f [] d inj = tt
Distinct-of_injective f (x ∷ xs) d inj = (
  (λ m.
      let (a, n, e) = mem_of_mem-map f (f x) xs m in
      d.0 (subst (λ b. Memᴰ b xs) (sym (inj x a (Memᴰ.head refl) (Memᴰ.tail n) e)) n)),
  Distinct-of_injective f xs d.1 (λ a b m n e. inj a b (Memᴰ.tail m) (Memᴰ.tail n) e),
)

module _ (value : ModelGatewaySpec → String) (error : String → String → String → ValidationError)
    (models : Assoc ModelGatewaySpec) (distinct : HasDistinctKeys models) where
  valued : String → String
  valued n = value (model_gateway models n)

  pub shared_values_check :
      (shared_values value error models [] (sorted_model_names models) ≡ none)
      ↔ Separates value models
  unfolding sorted_model_names valued
  shared_values_check =
      let names = sorted (keys models) in
      ↔-trans (shared_values-none value error models [] names) (
        (λ d a b g h p q e.
            injective_of_Distinct valued names d.0 a b
              (mem-sorted_of_mem a (keys models) (mem-keys_of_lookup a models g p))
              (mem-sorted_of_mem b (keys models) (mem-keys_of_lookup b models h q))
              (ap (λ o. value (or_zero o)) p ∙ e ∙ sym (ap (λ o. value (or_zero o)) q))),
        (λ sep. (
          Distinct-of_injective valued names (sorted-Distinct (keys models) distinct) (λ a b m n e.
              let (g, p) = lookup_of_mem-keys a models (mem_of_mem-sorted a (keys models) m) in
              let (h, q) = lookup_of_mem-keys b models (mem_of_mem-sorted b (keys models) n) in
              sep a b g h p q
                (sym (ap (λ o. value (or_zero o)) p) ∙ e ∙ ap (λ o. value (or_zero o)) q)),
          All-of_mem _ (map valued names) (λ x m k. elim k [ ]),
        )),
      )
