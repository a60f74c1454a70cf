-- ===== src/Helm/Pinned.antt =====
-- The images and the TLS settings that the charts are given.
use llm_d_batch_gateway_oper.Prelude.{
  String, ◌≡◌, ◌≢◌, refl, ap, ◌∙◌, inl, inr, Option-cases, Bool-cases, false_of_ne, Option, none,
  some, Bool, true, false, not, [], ◌∷◌, ◌==◌, if◌then◌else◌,
}
use llm_d_batch_gateway_oper.Api.Features.{TlsSpec}
use llm_d_batch_gateway_oper.Api.Components.{ApiServerConfigSpec, GcConfigSpec, ProcessorConfigSpec}
use llm_d_batch_gateway_oper.Api.Shared.{LoggingConfig}
use llm_d_batch_gateway_oper.Api.Async.{AsyncProcessorSpec}
use llm_d_batch_gateway_oper.Api.Gateway.{LlmBatchGateway}
use llm_d_batch_gateway_oper.Value.{Value, str, obj, bool, Fields, get}
use llm_d_batch_gateway_oper.Value.Lookup.{lookups}
use llm_d_batch_gateway_oper.Value.Path.{path, path_from}
use llm_d_batch_gateway_oper.Helm.{ComponentImages, Unmarshal}
use llm_d_batch_gateway_oper.Helm.Images.{split_image}
use llm_d_batch_gateway_oper.Helm.Async.{
  when_enabled, image_values, async_base_values, async_feature_values, async_processor_values,
  spec_to_async_helm_values, async_values_of,
}
use llm_d_batch_gateway_oper.Helm.AsyncTransport.{put_transport, put_chosen_transport}
use llm_d_batch_gateway_oper.Helm.Batch.ApiServer.{
  component_image, component_base, put_logging, enabled_tls_values, tls_values,
  put_api_server_config, api_server_values,
}
use llm_d_batch_gateway_oper.Helm.Batch.Processor.{put_processor_logging, processor_values}
use llm_d_batch_gateway_oper.Helm.Batch.Gc.{put_gc_logging, gc_values}
use llm_d_batch_gateway_oper.Helm.Batch.Values.{spec_to_batch_helm_values}
use llm_d_batch_gateway_oper.Helm.Transport.{get-put_transforms, has_fields_of_get}
use llm_d_batch_gateway_oper.Tls.{ProfileValues}

-- The blocks for logging and configuration leave other keys.
get-put_logging :
    (j : String) (l : Option LoggingConfig) (m : Fields)
    → ("logging" == j) ≡ false
    → get j (put_logging l m) ≡ get j m
get-put_logging j none m n = refl
get-put_logging j (some l) m n = simp (lookups, n)

get-put_api_server_config :
    (j : String) (c : Option ApiServerConfigSpec) (m : Fields)
    → ("logging" == j) ≡ false
    → ("config" == j) ≡ false
    → get j (put_api_server_config c m) ≡ get j m
get-put_api_server_config j none m n k = refl
get-put_api_server_config j (some c) m n k = get-put_logging j c.logging _ n ∙ (simp (lookups, k))

get-put_processor_logging :
    (j : String) (c : Option ProcessorConfigSpec) (m : Fields)
    → ("logging" == j) ≡ false
    → get j (put_processor_logging c m) ≡ get j m
get-put_processor_logging j none m n = refl
get-put_processor_logging j (some c) m n = get-put_logging j c.logging m n

get-put_gc_logging :
    (j : String) (c : Option GcConfigSpec) (m : Fields)
    → ("logging" == j) ≡ false
    → get j (put_gc_logging c m) ≡ get j m
get-put_gc_logging j none m n = refl
get-put_gc_logging j (some c) m n = get-put_logging j c.logging m n

get-component_base :
    (image policy : String)
    → get "image" (component_base image policy) ≡ some (component_image image policy)
unfolding component_base
get-component_base image policy = simp lookups

api_server_image :
    (gw : LlmBatchGateway) (images : ComponentImages) (profile : ProfileValues)
    → get "image" (api_server_values gw images profile)
      ≡ some (component_image images.api_server gw.spec.api_server.image_pull_policy)
unfolding api_server_values
api_server_image gw images profile = simp (lookups, get-put_api_server_config, get-component_base)

processor_image :
    (gw : LlmBatchGateway) (images : ComponentImages)
    → get "image" (processor_values gw images)
      ≡ some (component_image images.processor gw.spec.processor.image_pull_policy)
unfolding processor_values
processor_image gw images = simp (lookups, get-put_processor_logging, get-component_base)

gc_image :
    (gw : LlmBatchGateway) (images : ComponentImages)
    → get "image" (gc_values gw images)
      ≡ some (component_image images.gc gw.spec.gc.image_pull_policy)
unfolding gc_values
gc_image gw images = simp (lookups, get-put_gc_logging, get-component_base)

-- The section's image is this reference, taken apart.
abbrev pub HasImage : Fields → String → String → Type 0
HasImage m section image =
    (path (section ∷ "image" ∷ "repository" ∷ []) m ≡ some (str (split_image image).0))
    × (path (section ∷ "image" ∷ "tag" ∷ []) m ≡ some (str (split_image image).1))

component_image_keys :
    (image policy : String) (v : Option Value)
    → v ≡ some (component_image image policy)
    → (path_from ("repository" ∷ []) v ≡ some (str (split_image image).0))
      × (path_from ("tag" ∷ []) v ≡ some (str (split_image image).1))
unfolding component_image
component_image_keys image policy v e = (rw e (simp lookups), rw e (simp lookups))

image_values_keys :
    (image : String) (v : Option Value)
    → v ≡ some (image_values image)
    → (path_from ("repository" ∷ []) v ≡ some (str (split_image image).0))
      × (path_from ("tag" ∷ []) v ≡ some (str (split_image image).1))
unfolding image_values
image_values_keys image v e = (rw e (simp lookups), rw e (simp lookups))

section_keys :
    (gw : LlmBatchGateway) (secret : String) (images : ComponentImages) (profile : ProfileValues)
    → let m = spec_to_batch_helm_values gw secret images profile in
      (get "apiserver" m ≡ some (obj (api_server_values gw images profile)))
      × (get "processor" m ≡ some (obj (processor_values gw images)))
      × (get "gc" m ≡ some (obj (gc_values gw images)))
unfolding spec_to_batch_helm_values
section_keys gw secret images profile = (simp lookups, simp lookups, simp lookups)

-- The image stands in a section of the values.
HasImage-section :
    (m fields : Fields) (section image : String)
    → get section m ≡ some (obj fields)
    → (path_from ("repository" ∷ []) (get "image" fields) ≡ some (str (split_image image).0))
      × (path_from ("tag" ∷ []) (get "image" fields) ≡ some (str (split_image image).1))
    → HasImage m section image
HasImage-section m fields section image e h = (
  ap (path_from ("image" ∷ "repository" ∷ [])) e ∙ h.0,
  ap (path_from ("image" ∷ "tag" ∷ [])) e ∙ h.1,
)

-- The three components of the batch chart.
pub batch_images :
    (gw : LlmBatchGateway) (secret : String) (images : ComponentImages) (profile : ProfileValues)
    → let m = spec_to_batch_helm_values gw secret images profile in
      HasImage m "apiserver" images.api_server
      × HasImage m "processor" images.processor
      × HasImage m "gc" images.gc
batch_images gw secret images profile =
    let (a, p, g) = section_keys gw secret images profile in
    (
      HasImage-section _ _ "apiserver" images.api_server a
          (component_image_keys _ _ _ (api_server_image gw images profile)),
      HasImage-section _ _ "processor" images.processor p
          (component_image_keys _ _ _ (processor_image gw images)),
      HasImage-section _ _ "gc" images.gc g (component_image_keys _ _ _ (gc_image gw images)),
    )

module _ (unmarshal : Unmarshal) (gw : LlmBatchGateway) (secret : String)
    (images : ComponentImages) where
  image-put_transport :
      (ac : AsyncProcessorSpec) (m : Fields)
      → get "image" (put_transport gw secret ac m) ≡ get "image" m
  unfolding put_transport put_chosen_transport
  image-put_transport ac m = elim (Option-cases ac.redis) [
    | inl e ↦ elim (Option-cases ac.sql) [
      | inl n ↦ rw (e, n) refl
      | inr (sql, k) ↦ rw (e, k) (simp lookups)
    ]
    | inr (redis, e) ↦ rw e (simp lookups)
  ]

  async_image :
      (ac : AsyncProcessorSpec)
      → get "image" (async_processor_values unmarshal gw secret images ac)
        ≡ some (image_values images.async)
  unfolding async_processor_values async_feature_values async_base_values
  async_image ac = simp (lookups, get-put_transforms, image-put_transport)

  ap_key :
      (ac : AsyncProcessorSpec)
      → gw.spec.processor.async_config ≡ some ac
      → get "ap" (spec_to_async_helm_values unmarshal gw secret images)
        ≡ some (obj (async_processor_values unmarshal gw secret images ac))
  unfolding spec_to_async_helm_values async_values_of
  ap_key ac e = rw e (simp lookups)

  -- The dispatcher of the async chart.
  pub async_chart_image :
      (ac : AsyncProcessorSpec)
      → gw.spec.processor.async_config ≡ some ac
      → HasImage (spec_to_async_helm_values unmarshal gw secret images) "ap" images.async
  async_chart_image ac e =
      HasImage-section _ _ "ap" images.async (ap_key ac e)
        (image_values_keys images.async _ (async_image ac))

-- A setting is written unless it is empty.
abbrev pub unless_empty : String → Option Value
unless_empty s = if s == "" then none else some (str s)

unless_not : (b : Bool) (v : Option Value) → (if not b then v else none) ≡ (if b then none else v)
unless_not true v = refl
unless_not false v = refl

-- `spec.tls` is there and enabled.
abbrev pub tls_enabled : Option TlsSpec → Option Value
tls_enabled none = none
tls_enabled (some spec) = if spec.enabled then some (bool true) else none

enabled_tls_keys :
    (tls : Option TlsSpec)
    → let m = enabled_tls_values (when_enabled (λ t. t.enabled) tls) in
      (get "enabled" m ≡ tls_enabled tls)
      × (get "minVersion" m ≡ none)
      × (get "cipherSuites" m ≡ none)
enabled_tls_keys none = (simp lookups, simp lookups, simp lookups)
enabled_tls_keys (some spec) = elim (Bool-cases spec.enabled) [
  | inl e ↦ rw e (simp lookups, simp lookups, simp lookups)
  | inr e ↦ rw e (simp lookups, simp lookups, simp lookups)
]

-- The keys of `tls`, for a profile with protocols.
tls_values_keys :
    (tls : Option TlsSpec) (profile : ProfileValues)
    → profile.next_protos ≢ ""
    → let m = tls_values tls profile in
      (get "minVersion" m ≡ unless_empty profile.min_version)
      × (get "cipherSuites" m ≡ unless_empty profile.cipher_suites)
      × (get "nextProtos" m ≡ some (str profile.next_protos))
      × (get "enabled" m ≡ tls_enabled tls)
unfolding tls_values
tls_values_keys tls profile n =
    let (e, v, c) = enabled_tls_keys tls in
    (
      simp (lookups, v, unless_not),
      simp (lookups, c, unless_not),
      simp (lookups, false_of_ne profile.next_protos "" n),
      simp (lookups, e),
    )

module _ (gw : LlmBatchGateway) (secret : String) (images : ComponentImages)
    (profile : ProfileValues) where
  tls_key :
      profile.next_protos ≢ ""
      → get "tls" (api_server_values gw images profile)
        ≡ some (obj (tls_values gw.spec.tls profile))
  unfolding api_server_values
  tls_key n = simp (
    lookups,
    has_fields_of_get "nextProtos" (str profile.next_protos) _
        (tls_values_keys gw.spec.tls profile n).2,
  )

  tls_path :
      (k : String) (v : Option Value)
      → profile.next_protos ≢ ""
      → get k (tls_values gw.spec.tls profile) ≡ v
      → path ("apiserver" ∷ "tls" ∷ k ∷ []) (spec_to_batch_helm_values gw secret images profile) ≡ v
  tls_path k v n h =
      ap (path_from ("tls" ∷ k ∷ [])) (section_keys gw secret images profile).0
      ∙ ap (path_from (k ∷ [])) (tls_key n)
      ∙ h

  -- The values that the API server's TLS settings are rendered from.
  pub tls_settings :
      profile.next_protos ≢ ""
      → let m = spec_to_batch_helm_values gw secret images profile in
        (path ("apiserver" ∷ "tls" ∷ "minVersion" ∷ []) m ≡ unless_empty profile.min_version)
        × (path ("apiserver" ∷ "tls" ∷ "cipherSuites" ∷ []) m ≡ unless_empty profile.cipher_suites)
        × (path ("apiserver" ∷ "tls" ∷ "nextProtos" ∷ []) m ≡ some (str profile.next_protos))
        × (path ("apiserver" ∷ "tls" ∷ "enabled" ∷ []) m ≡ tls_enabled gw.spec.tls)
  tls_settings n =
      let (v, c, p, e) = tls_values_keys gw.spec.tls profile n in
      (tls_path _ _ n v, tls_path _ _ n c, tls_path _ _ n p, tls_path _ _ n e)
