-- ===== src/Helm/Accepted.antt =====
-- What an accepted spec says of its transport, and where the charts read it.
use llm_d_batch_gateway_oper.Queues.{redis_queues, sql_queues}
use llm_d_batch_gateway_oper.Prelude.{String, ◌≡◌, ◌∙◌, Option, none, some, List, ◌∷◌, subst}
use llm_d_batch_gateway_oper.Prelude.Assoc.{HasDistinctKeys}
use llm_d_batch_gateway_oper.Api.Async.{AsyncRedisSpec, AsyncSqlSpec, AsyncProcessorSpec}
use llm_d_batch_gateway_oper.Api.Gateway.{LlmBatchGateway}
use llm_d_batch_gateway_oper.Value.{get}
use llm_d_batch_gateway_oper.Value.Lookup.{lookups}
use llm_d_batch_gateway_oper.Value.Path.{path}
use llm_d_batch_gateway_oper.Validate.{validate_spec}
use llm_d_batch_gateway_oper.Validate.Rules.{IsAsyncConfigValid}
use llm_d_batch_gateway_oper.Validate.Decides.{validate_spec_decides}
use llm_d_batch_gateway_oper.Helm.{ComponentImages, Unmarshal}
use llm_d_batch_gateway_oper.Helm.Async.{async_processor_values, spec_to_async_helm_values}
use llm_d_batch_gateway_oper.Helm.AsyncTransport.{
  transport_redis, transport_sql, redis_transport_config, sql_transport_config, url_secret,
  gateway_url_of, async_queue_values,
}
use llm_d_batch_gateway_oper.Helm.Batch.Processor.{async_dispatch_values}
use llm_d_batch_gateway_oper.Helm.Batch.Values.{spec_to_batch_helm_values}
use llm_d_batch_gateway_oper.Helm.Transport.{async_dispatch_key, path-processor_config}
use llm_d_batch_gateway_oper.Tls.{ProfileValues}

-- The transport's name, and the key of the credentials Secret with its URL.
abbrev pub transport_name : Option AsyncRedisSpec → String
transport_name none = transport_sql
transport_name (some redis) = transport_redis

abbrev pub url_key : Option AsyncRedisSpec → String
url_key none = "postgresql-url"
url_key (some redis) = "redis-url"

pub accepted_config :
    (gw : LlmBatchGateway) (ac : AsyncProcessorSpec)
    → HasDistinctKeys gw.spec.processor.model_gateways
    → gw.spec.processor.async_config ≡ some ac
    → validate_spec gw ≡ none
    → IsAsyncConfigValid gw.spec.processor.model_gateways ac
accepted_config gw ac distinct e accepted =
    let (ac', e', v) = ((validate_spec_decides gw distinct).0 accepted).config in
    let same : ac' ≡ ac = cc (e, e') in
    subst (IsAsyncConfigValid gw.spec.processor.model_gateways) same v

module _ (unmarshal : Unmarshal) (gw : LlmBatchGateway) (secret : String) (images : ComponentImages)
    (ac : AsyncProcessorSpec) (e : gw.spec.processor.async_config ≡ some ac) where
  pub path-ap :
      (ks : List String)
      → path ("ap" ∷ ks) (spec_to_async_helm_values unmarshal gw secret images)
        ≡ path ks (async_processor_values unmarshal gw secret images ac)
  unfolding spec_to_async_helm_values
  path-ap ks = rw e (simp lookups)

  pub path-async_dispatch :
      (profile : ProfileValues) (ks : List String)
      → path
          ("processor" ∷ "config" ∷ "asyncDispatch" ∷ ks)
          (spec_to_batch_helm_values gw secret images profile)
        ≡ path ks (async_dispatch_values gw.spec.processor.model_gateways ac)
  path-async_dispatch profile ks =
      path-processor_config gw secret images profile ("asyncDispatch" ∷ ks)
      ∙ (rw (async_dispatch_key gw ac e))

-- The transport's configuration of either kind, under its keys.
module _ (gw : LlmBatchGateway) (secret : String) (ac : AsyncProcessorSpec) where
  pub redis_url_secret :
      (redis : AsyncRedisSpec)
      → get "urlSecret" (redis_transport_config gw secret ac redis)
        ≡ some (url_secret secret "redis-url")
  unfolding redis_transport_config
  redis_url_secret redis = simp lookups

  pub sql_url_secret :
      (sql : AsyncSqlSpec)
      → get "urlSecret" (sql_transport_config gw secret ac sql)
        ≡ some (url_secret secret "postgresql-url")
  unfolding sql_transport_config
  sql_url_secret sql = simp lookups

  pub redis_queues_key :
      (redis : AsyncRedisSpec)
      → get "queues" (redis_transport_config gw secret ac redis)
        ≡ some (
            async_queue_values
              (gateway_url_of ac.inference_gateway)
              (redis_queues gw.spec.processor.model_gateways redis))
  unfolding redis_transport_config
  redis_queues_key redis = simp lookups

  pub sql_queues_key :
      (sql : AsyncSqlSpec)
      → get "queues" (sql_transport_config gw secret ac sql)
        ≡ some (
            async_queue_values
              (gateway_url_of ac.inference_gateway)
              (sql_queues gw.spec.processor.model_gateways sql))
  unfolding sql_transport_config
  sql_queues_key sql = simp lookups
