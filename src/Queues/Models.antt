-- ===== src/Queues/Models.antt =====
-- The sorted view of the model gateways depends on the map alone, and is complete.
use mathlib.Core.List.{Memᴰ}
use mathlib.Core.Path.{subst, fun_ext}
use llm_d_batch_gateway_oper.Prelude.{
  String, ◌≡◌, sym, ap, ◌∙◌, some, map, mem-map_of_mem, mem_of_mem-map,
}
use llm_d_batch_gateway_oper.Prelude.Assoc.{
  Assoc, lookup, keys, SameMap, HasDistinctKeys, lookup_of_mem-keys, mem-keys_of_lookup,
}
use llm_d_batch_gateway_oper.Prelude.Sorting.{
  sorted, sorted_of_SameMembers, mem-sorted_of_mem, mem_of_mem-sorted,
}
use llm_d_batch_gateway_oper.Api.Components.{ModelGatewaySpec}
use llm_d_batch_gateway_oper.Api.Async.{AsyncRedisSpec, AsyncSqlSpec}
use llm_d_batch_gateway_oper.Queues.{
  sorted_model_names, sorted_model_gateways, model_gateway, or_zero, default_async_queues,
  published_queues, redis_queues, sql_queues,
}

module _ (models others : Assoc ModelGatewaySpec) (same : SameMap models others) where
  same_keys : (k : String) → Memᴰ k (keys models) → Memᴰ k (keys others)
  same_keys k m =
      let (g, e) = lookup_of_mem-keys k models m in mem-keys_of_lookup k others g (sym (same k) ∙ e)

pub sorted_model_names-SameMap :
    (models others : Assoc ModelGatewaySpec)
    → HasDistinctKeys models
    → HasDistinctKeys others
    → SameMap models others
    → sorted_model_names models ≡ sorted_model_names others
unfolding sorted_model_names
sorted_model_names-SameMap models others d e same =
    sorted_of_SameMembers (keys models) (keys others) d e
      λ k. (same_keys models others same k, same_keys others models (λ j. sym (same j)) k)

-- The dispatcher's derived queues do not depend on the order in which Go ranges over the map.
pub default_async_queues-SameMap :
    (models others : Assoc ModelGatewaySpec)
    → HasDistinctKeys models
    → HasDistinctKeys others
    → SameMap models others
    → default_async_queues models ≡ default_async_queues others
unfolding default_async_queues sorted_model_gateways
default_async_queues-SameMap models others d e same = rw (
  sorted_model_names-SameMap models others d e same,
  fun_ext {f = model_gateway models} {g = model_gateway others} (λ k. ap or_zero (same k)),
)

-- A gateway stands in the sorted view exactly if some model has it.
pub mem-sorted_model_gateways :
    (models : Assoc ModelGatewaySpec) (k : String) (g : ModelGatewaySpec)
    → lookup k models ≡ some g
    → Memᴰ g (sorted_model_gateways models)
unfolding sorted_model_gateways sorted_model_names
mem-sorted_model_gateways models k g h =
    subst (λ g'. Memᴰ g' (map (model_gateway models) (sorted (keys models)))) (ap or_zero h)
      (mem-map_of_mem (model_gateway models) k (sorted (keys models))
        (mem-sorted_of_mem k (keys models) (mem-keys_of_lookup k models g h)))

pub model_of_mem :
    (models : Assoc ModelGatewaySpec) (g : ModelGatewaySpec)
    → Memᴰ g (sorted_model_gateways models)
    → (k : String) × (lookup k models ≡ some g)
unfolding sorted_model_gateways sorted_model_names
model_of_mem models g m =
    let (k, n, e) = mem_of_mem-map (model_gateway models) g (sorted (keys models)) m in
    let (v, h) = lookup_of_mem-keys k models (mem_of_mem-sorted k (keys models) n) in
    (k, h ∙ ap some (sym (e ∙ ap or_zero h)))

module _ (models others : Assoc ModelGatewaySpec) (d : HasDistinctKeys models)
    (e : HasDistinctKeys others) (same : SameMap models others) where
  pub published_queues_SameMap : published_queues models ≡ published_queues others
  unfolding sorted_model_gateways
  published_queues_SameMap = rw (
    sorted_model_names-SameMap models others d e same,
    fun_ext {f = model_gateway models} {g = model_gateway others} (λ k. ap or_zero (same k)),
  )

  pub redis_queues_SameMap :
      (redis : AsyncRedisSpec) → redis_queues models redis ≡ redis_queues others redis
  unfolding redis_queues
  redis_queues_SameMap redis = rw (default_async_queues-SameMap models others d e same)

  pub sql_queues_SameMap : (sql : AsyncSqlSpec) → sql_queues models sql ≡ sql_queues others sql
  unfolding sql_queues
  sql_queues_SameMap sql = rw (default_async_queues-SameMap models others d e same)
