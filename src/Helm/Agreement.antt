-- ===== src/Helm/Agreement.antt =====
-- What the two charts are told for an accepted spec: one transport and one credentials Secret.
use llm_d_batch_gateway_oper.Prelude.{String, ◌≡◌, sym, ap, ◌∙◌, inl, inr, none, some, [], ◌∷◌}
use llm_d_batch_gateway_oper.Prelude.Assoc.{HasDistinctKeys}
use llm_d_batch_gateway_oper.Api.Async.{AsyncRedisSpec, AsyncSqlSpec, AsyncProcessorSpec}
use llm_d_batch_gateway_oper.Api.Gateway.{LlmBatchGateway}
use llm_d_batch_gateway_oper.Value.{str, obj, get}
use llm_d_batch_gateway_oper.Value.Lookup.{lookups}
use llm_d_batch_gateway_oper.Value.Path.{path, path_from}
use llm_d_batch_gateway_oper.Validate.{validate_spec}
use llm_d_batch_gateway_oper.Helm.{ComponentImages, Unmarshal}
use llm_d_batch_gateway_oper.Helm.Async.{spec_to_async_helm_values}
use llm_d_batch_gateway_oper.Helm.AsyncTransport.{transport_redis, transport_sql, url_secret}
use llm_d_batch_gateway_oper.Helm.Batch.Global.{global_values}
use llm_d_batch_gateway_oper.Helm.Batch.Processor.{async_dispatch_values, put_dispatch_transport}
use llm_d_batch_gateway_oper.Helm.Batch.Values.{spec_to_batch_helm_values}
use llm_d_batch_gateway_oper.Helm.Transport.{
  dispatch_mode_key, path-processor_config, redis_keys, sql_keys,
}
use llm_d_batch_gateway_oper.Tls.{ProfileValues}
use llm_d_batch_gateway_oper.Helm.Accepted.{
  accepted_config, path-ap, path-async_dispatch, redis_url_secret, sql_url_secret, transport_name,
  url_key,
}

dispatch_redis :
    (gw : LlmBatchGateway) (ac : AsyncProcessorSpec) (redis : AsyncRedisSpec)
    → ac.sql ≡ none
    → ac.redis ≡ some redis
    → get "transport" (async_dispatch_values gw.spec.processor.model_gateways ac)
      ≡ some (str transport_redis)
unfolding async_dispatch_values put_dispatch_transport
dispatch_redis gw ac redis n p = rw (n, p) (simp lookups)

dispatch_sql :
    (gw : LlmBatchGateway) (ac : AsyncProcessorSpec) (sql : AsyncSqlSpec)
    → ac.sql ≡ some sql
    → get "transport" (async_dispatch_values gw.spec.processor.model_gateways ac)
      ≡ some (str transport_sql)
unfolding async_dispatch_values put_dispatch_transport
dispatch_sql gw ac sql p = rw p (simp lookups)

-- For an accepted spec whose map of model gateways has distinct keys both charts are told the same
-- transport: the batch processor publishes over
-- the one that the dispatcher polls, which is Redis exactly if the spec has a Redis block.
pub transports_agree :
    (unmarshal : Unmarshal) (gw : LlmBatchGateway) (secret : String) (images : ComponentImages)
    (profile : ProfileValues) (ac : AsyncProcessorSpec)
    → HasDistinctKeys gw.spec.processor.model_gateways
    → gw.spec.processor.async_config ≡ some ac
    → validate_spec gw ≡ none
    → (path
          ("processor" ∷ "config" ∷ "asyncDispatch" ∷ "transport" ∷ [])
          (spec_to_batch_helm_values gw secret images profile)
        ≡ some (str (transport_name ac.redis)))
      × (path ("ap" ∷ "transport" ∷ []) (spec_to_async_helm_values unmarshal gw secret images)
          ≡ some (str (transport_name ac.redis)))
transports_agree unmarshal gw secret images profile ac distinct e accepted =
    elim (accepted_config gw ac distinct e accepted).transport [
      | inl (redis, p, n, k) ↦ rw p (
        path-async_dispatch unmarshal gw secret images ac e profile ("transport" ∷ [])
            ∙ dispatch_redis gw ac redis n p,
        path-ap unmarshal gw secret images ac e ("transport" ∷ [])
            ∙ (redis_keys unmarshal gw secret images ac redis p).0,
      )
      | inr (sql, p, n, a, b, k) ↦ rw n (
        path-async_dispatch unmarshal gw secret images ac e profile ("transport" ∷ [])
            ∙ dispatch_sql gw ac sql p,
        path-ap unmarshal gw secret images ac e ("transport" ∷ [])
            ∙ (sql_keys unmarshal gw secret images ac sql n p).0,
      )
    ]

-- Whatever the spec's own settings are, the batch chart is told to dispatch asynchronously.
pub always_async :
    (gw : LlmBatchGateway) (secret : String) (images : ComponentImages) (profile : ProfileValues)
    → path
        ("processor" ∷ "config" ∷ "dispatchMode" ∷ [])
        (spec_to_batch_helm_values gw secret images profile)
      ≡ some (str "async")
always_async gw secret images profile =
    path-processor_config gw secret images profile ("dispatchMode" ∷ []) ∙ dispatch_mode_key gw

get-global :
    (gw : LlmBatchGateway) (secret : String) (images : ComponentImages) (profile : ProfileValues)
    → get "global" (spec_to_batch_helm_values gw secret images profile)
      ≡ some (obj (global_values gw secret))
unfolding spec_to_batch_helm_values
get-global gw secret images profile = simp lookups

get-secret_name :
    (gw : LlmBatchGateway) (secret : String)
    → get "secretName" (global_values gw secret) ≡ some (str secret)
unfolding global_values
get-secret_name gw secret = simp lookups

get-url_secret :
    (secret key : String)
    → (path_from ("name" ∷ []) (some (url_secret secret key)) ≡ some (str secret))
      × (path_from ("key" ∷ []) (some (url_secret secret key)) ≡ some (str key))
unfolding url_secret
get-url_secret secret key = ((simp lookups), simp lookups)

-- The reference to the Secret, under the transport's configuration of either kind.
async_url_secret :
    (unmarshal : Unmarshal) (gw : LlmBatchGateway) (secret : String) (images : ComponentImages)
    (ac : AsyncProcessorSpec)
    → HasDistinctKeys gw.spec.processor.model_gateways
    → gw.spec.processor.async_config ≡ some ac
    → validate_spec gw ≡ none
    → path
        ("ap" ∷ "transportConfig" ∷ "urlSecret" ∷ [])
        (spec_to_async_helm_values unmarshal gw secret images)
      ≡ some (url_secret secret (url_key ac.redis))
async_url_secret unmarshal gw secret images ac distinct e accepted =
    path-ap unmarshal gw secret images ac e ("transportConfig" ∷ "urlSecret" ∷ [])
    ∙ elim (accepted_config gw ac distinct e accepted).transport [
      | inl (redis, p, n, k) ↦
          ap (path_from ("urlSecret" ∷ [])) (redis_keys unmarshal gw secret images ac redis p).1
          ∙ redis_url_secret gw secret ac redis
          ∙ ap (λ o. some (url_secret secret (url_key o))) (sym p)
      | inr (sql, p, n, a, b, k) ↦
          ap (path_from ("urlSecret" ∷ [])) (sql_keys unmarshal gw secret images ac sql n p).1
          ∙ sql_url_secret gw secret ac sql
          ∙ ap (λ o. some (url_secret secret (url_key o))) (sym n)
    ]

-- For an accepted spec whose map of model gateways has distinct keys both charts are given the name of
-- the Secret that was resolved, and the async chart the key of its transport's URL: "redis-url" if
-- the spec has a Redis block, and else "postgresql-url".
pub credentials_agree :
    (unmarshal : Unmarshal) (gw : LlmBatchGateway) (secret : String) (images : ComponentImages)
    (profile : ProfileValues) (ac : AsyncProcessorSpec)
    → HasDistinctKeys gw.spec.processor.model_gateways
    → gw.spec.processor.async_config ≡ some ac
    → validate_spec gw ≡ none
    → let async = spec_to_async_helm_values unmarshal gw secret images in
      (path ("global" ∷ "secretName" ∷ []) (spec_to_batch_helm_values gw secret images profile)
        ≡ some (str secret))
      × (path ("ap" ∷ "transportConfig" ∷ "urlSecret" ∷ "name" ∷ []) async ≡ some (str secret))
      × (path ("ap" ∷ "transportConfig" ∷ "urlSecret" ∷ "key" ∷ []) async
          ≡ some (str (url_key ac.redis)))
credentials_agree unmarshal gw secret images profile ac distinct e accepted =
    let here = async_url_secret unmarshal gw secret images ac distinct e accepted in
    let (name, key) = get-url_secret secret (url_key ac.redis) in
    (
      ap (path_from ("secretName" ∷ [])) (get-global gw secret images profile)
          ∙ get-secret_name gw secret,
      ap (path_from ("name" ∷ [])) here ∙ name,
      ap (path_from ("key" ∷ [])) here ∙ key,
    )
