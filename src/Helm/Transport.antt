-- ===== src/Helm/Transport.antt =====
-- The two charts agree: one transport, one credentials Secret, asynchronous dispatch.
use llm_d_batch_gateway_oper.Prelude.{
  String, ◌≡◌, refl, ◌∙◌, Option, none, some, true, false, ◌==◌, List, ◌∷◌,
}
use llm_d_batch_gateway_oper.Api.Async.{
  AsyncRedisSpec, AsyncSqlSpec, AsyncProcessorSpec, AsyncTransformConfig,
}
use llm_d_batch_gateway_oper.Api.Components.{
  ProcessorConfigSpec, ConcurrencyConfig, ResumableConfigSpec,
}
use llm_d_batch_gateway_oper.Api.Gateway.{LlmBatchGateway}
use llm_d_batch_gateway_oper.Value.{Value, str, obj, Fields, end, field, get, has_fields}
use llm_d_batch_gateway_oper.Value.Lookup.{lookups, get-put_fields, get-put_if}
use llm_d_batch_gateway_oper.Value.Path.{path}
use llm_d_batch_gateway_oper.Helm.{ComponentImages, Unmarshal}
use llm_d_batch_gateway_oper.Helm.Async.{
  put_transforms, async_feature_values, async_processor_values,
}
use llm_d_batch_gateway_oper.Helm.AsyncTransport.{
  transport_redis, transport_sql, put_transport, redis_transport_config, sql_transport_config,
}
use llm_d_batch_gateway_oper.Helm.Batch.ProcessorConfig.{
  merge_processor_config, put_concurrency, put_resumable,
}
use llm_d_batch_gateway_oper.Helm.Batch.Processor.{
  processor_values, processor_config_values, put_processor_config, async_dispatch_values,
}
use llm_d_batch_gateway_oper.Helm.Batch.Values.{spec_to_batch_helm_values}
use llm_d_batch_gateway_oper.Tls.{ProfileValues}

-- The blocks for concurrency and resumption write their own key only.
get-put_concurrency :
    (j : String) (c : Option ConcurrencyConfig) (m : Fields)
    → ("concurrency" == j) ≡ false
    → get j (put_concurrency c m) ≡ get j m
unfolding put_concurrency
get-put_concurrency j none m ne = refl
get-put_concurrency j (some c) m ne = simp (get-put_fields, ne)

get-put_resumable :
    (j : String) (r : Option ResumableConfigSpec) (m : Fields)
    → ("resumable" == j) ≡ false
    → get j (put_resumable r m) ≡ get j m
unfolding put_resumable
get-put_resumable j none m ne = refl
get-put_resumable j (some r) m ne = simp (get-put_fields, ne)

-- The user's tuning of the processor cannot touch these two keys.
merge_keeps :
    (cfg : ProcessorConfigSpec) (m : Fields)
    → (get "dispatchMode" (merge_processor_config cfg m) ≡ get "dispatchMode" m)
      × (get "asyncDispatch" (merge_processor_config cfg m) ≡ get "asyncDispatch" m)
unfolding merge_processor_config
merge_keeps cfg m = (
  (simp lookups
      (rw (get-put_resumable "dispatchMode", get-put_concurrency "dispatchMode") (simp lookups))),
  (simp lookups
      (rw (get-put_resumable "asyncDispatch", get-put_concurrency "asyncDispatch") (simp lookups))),
)

put_config_keeps :
    (cfg : Option ProcessorConfigSpec) (m : Fields)
    → (get "dispatchMode" (put_processor_config cfg m) ≡ get "dispatchMode" m)
      × (get "asyncDispatch" (put_processor_config cfg m) ≡ get "asyncDispatch" m)
put_config_keeps none m = (refl, refl)
put_config_keeps (some cfg) m = merge_keeps cfg m

pub dispatch_mode_key :
    (gw : LlmBatchGateway) → get "dispatchMode" (processor_config_values gw) ≡ some (str "async")
unfolding processor_config_values
dispatch_mode_key gw = (put_config_keeps gw.spec.processor.config _).0 ∙ (simp lookups)

-- The dispatch block, where the spec has an async configuration.
pub async_dispatch_key :
    (gw : LlmBatchGateway) (ac : AsyncProcessorSpec)
    → gw.spec.processor.async_config ≡ some ac
    → get "asyncDispatch" (processor_config_values gw)
      ≡ some (obj (async_dispatch_values gw.spec.processor.model_gateways ac))
unfolding processor_config_values
async_dispatch_key gw ac e = rw e ((put_config_keeps gw.spec.processor.config _).1 ∙ (simp lookups))

pub has_fields_of_get :
    (k : String) (v : Value) (m : Fields) → get k m ≡ some v → has_fields m ≡ true
unfolding get
has_fields_of_get k v end h = absurd (cc)
has_fields_of_get k v (field j w m) h = refl

-- The chart's processor configuration is always there.
config-processor_values :
    (gw : LlmBatchGateway) (images : ComponentImages)
    → get "config" (processor_values gw images) ≡ some (obj (processor_config_values gw))
unfolding processor_values
config-processor_values gw images =
    simp lookups (rw (has_fields_of_get "dispatchMode" (str "async") _ (dispatch_mode_key gw)))

-- A path through the configuration of the processor.
pub path-processor_config :
    (gw : LlmBatchGateway) (secret : String) (images : ComponentImages) (profile : ProfileValues)
    (ks : List String)
    → path ("processor" ∷ "config" ∷ ks) (spec_to_batch_helm_values gw secret images profile)
      ≡ path ks (processor_config_values gw)
unfolding spec_to_batch_helm_values
path-processor_config gw secret images profile ks =
    simp lookups (rw (config-processor_values gw images))

-- The transforms write their own key only.
pub get-put_transforms :
    (j : String) (unmarshal : Unmarshal) (t : Option AsyncTransformConfig) (m : Fields)
    → ("transformConfig" == j) ≡ false
    → get j (put_transforms unmarshal t m) ≡ get j m
unfolding put_transforms
get-put_transforms j unmarshal none m ne = refl
get-put_transforms j unmarshal (some t) m ne = simp (get-put_if, ne)

-- The transport's keys survive the features that follow it.
module _ (unmarshal : Unmarshal) (gw : LlmBatchGateway) (secret : String) (images : ComponentImages)
    (ac : AsyncProcessorSpec) where
  features_keep :
      (m : Fields)
      → (get "transport" (async_feature_values unmarshal gw secret images ac m) ≡ get "transport" m)
        × (get "transportConfig" (async_feature_values unmarshal gw secret images ac m)
            ≡ get "transportConfig" m)
  unfolding async_feature_values
  features_keep m = (
    (simp lookups (rw (get-put_transforms "transport") (simp lookups))),
    (simp lookups (rw (get-put_transforms "transportConfig") (simp lookups))),
  )

  -- The map `ap` holds the transport and its configuration.
  pub redis_keys :
      (redis : AsyncRedisSpec)
      → ac.redis ≡ some redis
      → (get "transport" (async_processor_values unmarshal gw secret images ac)
          ≡ some (str transport_redis))
        × (get "transportConfig" (async_processor_values unmarshal gw secret images ac)
            ≡ some (obj (redis_transport_config gw secret ac redis)))
  unfolding async_processor_values put_transport
  redis_keys redis e =
      ((features_keep _).0 ∙ (rw e (simp lookups)), (features_keep _).1 ∙ (rw e (simp lookups)))

  pub sql_keys :
      (sql : AsyncSqlSpec)
      → ac.redis ≡ none
      → ac.sql ≡ some sql
      → (get "transport" (async_processor_values unmarshal gw secret images ac)
          ≡ some (str transport_sql))
        × (get "transportConfig" (async_processor_values unmarshal gw secret images ac)
            ≡ some (obj (sql_transport_config gw secret ac sql)))
  unfolding async_processor_values put_transport
  sql_keys sql n e = (
    (features_keep _).0 ∙ (rw (n, e) (simp lookups)),
    (features_keep _).1 ∙ (rw (n, e) (simp lookups)),
  )
