-- ===== src/Helm/QueueUrls.antt =====
-- The queues that the async chart is given for an accepted spec: each one has a gateway URL.
use mathlib.Core.Path.{ap₂}
use llm_d_batch_gateway_oper.Queues.{redis_queues, sql_queues}
use llm_d_batch_gateway_oper.Prelude.{
  String, ◌≡◌, ◌≢◌, sym, refl, ap, ◌∙◌, inl, inr, Option, none, some, List, [], ◌∷◌, All, All-mem,
  All-of_mem, eq_iff, ◌⊎◌, false_of_ne, String-cases, ne_of_false,
}
use llm_d_batch_gateway_oper.Prelude.Assoc.{HasDistinctKeys}
use llm_d_batch_gateway_oper.Api.Async.{InferenceGatewaySpec, AsyncQueueConfig, AsyncProcessorSpec}
use llm_d_batch_gateway_oper.Api.Gateway.{LlmBatchGateway}
use llm_d_batch_gateway_oper.Value.{Value, Fields, Items, nil, cons, str, obj, arr, get, items_of}
use llm_d_batch_gateway_oper.Value.Lookup.{lookups}
use llm_d_batch_gateway_oper.Value.Path.{path, path_from}
use llm_d_batch_gateway_oper.Validate.{validate_spec}
use llm_d_batch_gateway_oper.Validate.Rules.{HasGatewayUrl}
use llm_d_batch_gateway_oper.Validate.Guarantees.{dispatcher_queues}
use llm_d_batch_gateway_oper.Helm.{ComponentImages, Unmarshal}
use llm_d_batch_gateway_oper.Helm.Async.{spec_to_async_helm_values}
use llm_d_batch_gateway_oper.Helm.AsyncTransport.{
  gateway_url_of, queue_gateway_url, async_queue_fields, async_queue_values,
}
use llm_d_batch_gateway_oper.Helm.Transport.{redis_keys, sql_keys}
use llm_d_batch_gateway_oper.Helm.Accepted.{
  accepted_config, path-ap, redis_queues_key, sql_queues_key,
}

-- The map of a queue has its own gateway URL, or the inference gateway's where it has none.
abbrev pub HasUrl : Option InferenceGatewaySpec → AsyncQueueConfig → Fields → Type 0
HasUrl ig q m =
    ((q.igw_base_url ≢ "") × (get "igw_base_url" m ≡ some (str q.igw_base_url)))
    ⊎ ((q.igw_base_url ≡ "")
        × (g : InferenceGatewaySpec) × (ig ≡ some g)
        × (g.url ≢ "")
        × (get "igw_base_url" m ≡ some (str g.url)))

-- One map for each queue, in their order, with its name and a gateway URL.
abbrev pub ListsQueues : Option InferenceGatewaySpec → Items → List AsyncQueueConfig → Type 0
ListsQueues ig nil [] = Unit
ListsQueues ig nil (q ∷ qs) = ⊥
ListsQueues ig (cons v vs) [] = ⊥
ListsQueues ig (cons v vs) (q ∷ qs) =
    ((m : Fields) × (v ≡ obj m) × (get "queue_name" m ≡ some (str q.name)) × HasUrl ig q m)
    × ListsQueues ig vs qs

module _ (shared : String) (q : AsyncQueueConfig) where
  get-queue_name : get "queue_name" (async_queue_fields shared q) ≡ some (str q.name)
  unfolding async_queue_fields
  get-queue_name = simp lookups

  get-igw_base_url :
      queue_gateway_url q shared ≢ ""
      → get "igw_base_url" (async_queue_fields shared q) ≡ some (str (queue_gateway_url q shared))
  unfolding async_queue_fields
  get-igw_base_url ne = simp lookups (rw (false_of_ne (queue_gateway_url q shared) "" ne))

-- A queue that validation accepts: it has a URL of its own, or the inference gateway has one.
abbrev CanHaveUrl : Option InferenceGatewaySpec → AsyncQueueConfig → Type 0
CanHaveUrl ig q =
    ((g : InferenceGatewaySpec) × (ig ≡ some g) × (g.url ≢ "")) ⊎ (q.igw_base_url ≢ "")

async_queue_fields-HasUrl :
    (ig : Option InferenceGatewaySpec) (q : AsyncQueueConfig)
    → CanHaveUrl ig q
    → HasUrl ig q (async_queue_fields (gateway_url_of ig) q)
async_queue_fields-HasUrl ig q h = elim (String-cases q.igw_base_url "") [
  | inr n ↦
      let own : queue_gateway_url q (gateway_url_of ig) ≡ q.igw_base_url = rw n refl in
      let ne = ne_of_false q.igw_base_url "" n in
      inl (
        ne,
        get-igw_base_url (gateway_url_of ig) q (λ k. ne (sym own ∙ k)) ∙ ap (λ u. some (str u)) own,
      )
  | inl p ↦ elim h [
    | inr own ↦ absurd (own p)
    | inl (g, k, ne) ↦
        let url : queue_gateway_url q (gateway_url_of ig) ≡ g.url =
          rw ((eq_iff q.igw_base_url "").1 p) (ap gateway_url_of k) in
        inr (
          p,
          g,
          k,
          ne,
          get-igw_base_url (gateway_url_of ig) q (λ l. ne (sym url ∙ l))
              ∙ ap (λ u. some (str u)) url,
        )
  ]
]

-- The queues as they stand in the chart's values.
queue_items : String → List AsyncQueueConfig → Items
queue_items shared queues = items_of (λ q. obj (async_queue_fields shared q)) queues

items-ListsQueues :
    (ig : Option InferenceGatewaySpec) (queues : List AsyncQueueConfig)
    → All (CanHaveUrl ig) queues
    → ListsQueues ig (queue_items (gateway_url_of ig) queues) queues
unfolding items_of queue_items
items-ListsQueues ig [] h = tt
items-ListsQueues ig (q ∷ qs) h = (
  (_, refl, get-queue_name (gateway_url_of ig) q, async_queue_fields-HasUrl ig q h.0),
  items-ListsQueues ig qs h.1,
)

queues_have_urls :
    (ig : Option InferenceGatewaySpec) (queues : List AsyncQueueConfig)
    → HasGatewayUrl ig queues
    → All (CanHaveUrl ig) queues
queues_have_urls ig queues h = elim h [
  | inl shared ↦ All-of_mem _ queues (λ q m. inl shared)
  | inr own ↦ All-of_mem _ queues (λ q m. inr (All-mem _ queues own q m))
]

-- A value that lists the queues.
abbrev pub QueuesListed :
    Option InferenceGatewaySpec → Option Value → List AsyncQueueConfig → Type 0
QueuesListed ig value queues =
    (items : Items) × (value ≡ some (arr items)) × ListsQueues ig items queues

async_queue_values-QueuesListed :
    (ig : Option InferenceGatewaySpec) (queues : List AsyncQueueConfig)
    → HasGatewayUrl ig queues
    → QueuesListed ig (some (async_queue_values (gateway_url_of ig) queues)) queues
unfolding async_queue_values queue_items
async_queue_values-QueuesListed ig queues h = (
  queue_items (gateway_url_of ig) queues,
  refl,
  items-ListsQueues ig queues (queues_have_urls ig queues h),
)

-- For an accepted spec whose map of model gateways has distinct keys the async chart is given one map
-- for each of the dispatcher's queues, in their order, with the queue's name and a gateway URL that
-- is not empty: its own, or the inference gateway's where it has none.
pub every_queue-HasUrl :
    (unmarshal : Unmarshal) (gw : LlmBatchGateway) (secret : String) (images : ComponentImages)
    (ac : AsyncProcessorSpec)
    → HasDistinctKeys gw.spec.processor.model_gateways
    → gw.spec.processor.async_config ≡ some ac
    → validate_spec gw ≡ none
    → QueuesListed ac.inference_gateway
        (path
          ("ap" ∷ "transportConfig" ∷ "queues" ∷ [])
          (spec_to_async_helm_values unmarshal gw secret images))
        (dispatcher_queues gw.spec.processor.model_gateways ac.redis ac.sql)
every_queue-HasUrl unmarshal gw secret images ac distinct e accepted =
    let models = gw.spec.processor.model_gateways in
    let ig = ac.inference_gateway in
    let here = path-ap unmarshal gw secret images ac e ("transportConfig" ∷ "queues" ∷ []) in
    elim (accepted_config gw ac distinct e accepted).transport [
      | inl (redis, p, n, k) ↦
          let same : dispatcher_queues models ac.redis ac.sql ≡ redis_queues models redis =
            ap (λ o. dispatcher_queues models o ac.sql) p in
          let value =
            here
            ∙ ap (path_from ("queues" ∷ [])) (redis_keys unmarshal gw secret images ac redis p).1
            ∙ redis_queues_key gw secret ac redis in
          rw (value, same) (async_queue_values-QueuesListed ig (redis_queues models redis) k.urls)
      | inr (sql, p, n, a, b, k) ↦
          let same : dispatcher_queues models ac.redis ac.sql ≡ sql_queues models sql =
            ap₂ (dispatcher_queues models) n p in
          let value =
            here
            ∙ ap (path_from ("queues" ∷ [])) (sql_keys unmarshal gw secret images ac sql n p).1
            ∙ sql_queues_key gw secret ac sql in
          rw (value, same) (async_queue_values-QueuesListed ig (sql_queues models sql) k.urls)
    ]
