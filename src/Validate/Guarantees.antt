-- ===== src/Validate/Guarantees.antt =====
-- What an accepted spec guarantees to the rest of the operator.
use llm_d_batch_gateway_oper.Prelude.{
  String, ◌≡◌, ◌≢◌, refl, sym, ap, ◌∙◌, ◌↔◌, inl, inr, Option, none, some, List, [], ◌∷◌, eq_refl,
  Distinct,
}
use llm_d_batch_gateway_oper.Prelude.Assoc.{Assoc, lookup, HasDistinctKeys, SameMap}
use llm_d_batch_gateway_oper.Prelude.Sorting.{SameMembers}
use llm_d_batch_gateway_oper.Api.Async.{
  AsyncQueueConfig, AsyncRedisSpec, AsyncSqlSpec, AsyncProcessorSpec,
}
use llm_d_batch_gateway_oper.Api.Components.{ModelGatewaySpec}
use llm_d_batch_gateway_oper.Api.Gateway.{LlmBatchGateway}
use llm_d_batch_gateway_oper.Queues.{redis_queues, sql_queues, queue_names, published_queues}
use llm_d_batch_gateway_oper.Queues.Models.{
  published_queues_SameMap, redis_queues_SameMap, sql_queues_SameMap,
}
use llm_d_batch_gateway_oper.Validate.{validate_spec}
use llm_d_batch_gateway_oper.Validate.Rules.{Separates, QueueRules, IsAsyncConfigValid, IsSpecValid}
use llm_d_batch_gateway_oper.Validate.Decides.{validate_spec_decides}

-- The queues that the dispatcher polls have the published names, each one once.
abbrev pub Polls : Assoc ModelGatewaySpec → List AsyncQueueConfig → Type 0
Polls models queues =
    Distinct (queue_names queues) × SameMembers (queue_names queues) (published_queues models)

-- The queues of whichever transport the configuration has.
abbrev pub dispatcher_queues :
    Assoc ModelGatewaySpec → Option AsyncRedisSpec → Option AsyncSqlSpec → List AsyncQueueConfig
dispatcher_queues models (some redis) sql = redis_queues models redis
dispatcher_queues models none (some sql) = sql_queues models sql
dispatcher_queues models none none = []

-- The same resource with another listing of its model gateways.
abbrev pub with_models : LlmBatchGateway → Assoc ModelGatewaySpec → LlmBatchGateway
with_models gw models = record gw {
  spec = record gw.spec { processor = record gw.spec.processor { model_gateways = models } };
}

first_entry :
    (models : Assoc ModelGatewaySpec)
    → models ≢ []
    → (k : String) × (g : ModelGatewaySpec) × (lookup k models ≡ some g)
unfolding lookup
first_entry [] h = absurd (h refl)
first_entry ((k, g) ∷ m) h = (k, g, rw eq_refl)

module _ (models others : Assoc ModelGatewaySpec) (d : HasDistinctKeys models)
    (e : HasDistinctKeys others) (same : SameMap models others) where
  not_empty_SameMap : models ≢ [] → others ≢ []
  unfolding lookup
  not_empty_SameMap h empty =
      let (k, g, p) = first_entry models h in cc (p, same k, ap (lookup k) empty)

  QueueRules-SameMap :
      (ac : AsyncProcessorSpec) (configured queues : List AsyncQueueConfig)
      → QueueRules models ac configured queues
      → QueueRules others ac configured queues
  QueueRules-SameMap ac configured queues r = record {
    covers = rw (← published_queues_SameMap models others d e same) r.covers;
    urls = r.urls;
    gates = r.gates;
  }

  Separates-SameMap :
      (value : ModelGatewaySpec → String) → Separates value models → Separates value others
  Separates-SameMap value s a b g h p q = s a b g h (same a ∙ p) (same b ∙ q)

  IsAsyncConfigValid-SameMap :
      (ac : AsyncProcessorSpec) → IsAsyncConfigValid models ac → IsAsyncConfigValid others ac
  IsAsyncConfigValid-SameMap ac v = record {
    transport = elim v.transport [
      | inl (r, p, n, k) ↦ inl (
        r,
        p,
        n,
        rw (← redis_queues_SameMap models others d e same r)
            (QueueRules-SameMap ac r.queues_config (redis_queues models r) k),
      )
      | inr (s, p, n, a, b, k) ↦ inr (
        s,
        p,
        n,
        Separates-SameMap _ a,
        Separates-SameMap _ b,
        rw (← sql_queues_SameMap models others d e same s)
            (QueueRules-SameMap ac s.queues_config (sql_queues models s) k),
      )
    ];
    timeout = v.timeout;
    some_model = not_empty_SameMap v.some_model;
    gateways = λ k g p. v.gateways k g (same k ∙ p);
  }

IsSpecValid-SameMap :
    (gw : LlmBatchGateway) (models others : Assoc ModelGatewaySpec)
    → HasDistinctKeys models
    → HasDistinctKeys others
    → SameMap models others
    → IsSpecValid (with_models gw models)
    → IsSpecValid (with_models gw others)
IsSpecValid-SameMap gw models others d e same v =
    let (ac, p, c) = v.config in
    record {
      backend = v.backend;
      mode = v.mode;
      config = (ac, p, IsAsyncConfigValid-SameMap models others d e same ac c);
    }

-- Whether a spec is accepted does not depend on the order in which Go ranges over the map of
-- model gateways: two listings with distinct keys and the same lookups are accepted alike.
pub validate_spec_order_free :
    (gw : LlmBatchGateway) (models others : Assoc ModelGatewaySpec)
    → HasDistinctKeys models
    → HasDistinctKeys others
    → SameMap models others
    → (validate_spec (with_models gw models) ≡ none)
      ↔ (validate_spec (with_models gw others) ≡ none)
validate_spec_order_free gw models others d e same =
    let here = validate_spec_decides (with_models gw models) d in
    let there = validate_spec_decides (with_models gw others) e in
    (
      (λ h. there.1 (IsSpecValid-SameMap gw models others d e same (here.0 h))),
      (λ h. here.1 (IsSpecValid-SameMap gw others models e d (λ k. sym (same k)) (there.0 h))),
    )
