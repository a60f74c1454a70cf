-- ===== src/Startup/Rendering.antt =====
-- What the environment and the cluster's TLS profile come to in the values of both charts.
use llm_d_batch_gateway_oper.Prelude.{String, ◌≡◌, refl, inl, inr, none, some, [], ◌∷◌, ne_of_false}
use llm_d_batch_gateway_oper.Prelude.Joining.{join}
use llm_d_batch_gateway_oper.Api.Async.{AsyncProcessorSpec}
use llm_d_batch_gateway_oper.Api.Gateway.{LlmBatchGateway}
use llm_d_batch_gateway_oper.Value.{str}
use llm_d_batch_gateway_oper.Value.Path.{path}
use llm_d_batch_gateway_oper.Controller.Errors.{ok}
use llm_d_batch_gateway_oper.Helm.{ComponentImages, Unmarshal}
use llm_d_batch_gateway_oper.Helm.Async.{spec_to_async_helm_values}
use llm_d_batch_gateway_oper.Helm.Batch.Values.{spec_to_batch_helm_values}
use llm_d_batch_gateway_oper.Helm.Pinned.{
  HasImage, batch_images, async_chart_image, unless_empty, tls_enabled, tls_settings,
}
use llm_d_batch_gateway_oper.Tls.{ProfileValues, TlsProfileSpec, TlsLibrary}
use llm_d_batch_gateway_oper.Tls.Conversion.{profile_values_from_spec}
use llm_d_batch_gateway_oper.Tls.Usable.{found_names}
use llm_d_batch_gateway_oper.Tls.Outcome.{accepted_profile_values}
use llm_d_batch_gateway_oper.Startup.{
  Getenv, env_image_api_server, env_image_processor, env_image_gc, env_image_async, images_from,
  component_images_from_env,
}
use llm_d_batch_gateway_oper.Startup.Environment.{images_from_env_outcome}

pinned_images :
    (getenv : Getenv) (images : ComponentImages)
    → component_images_from_env getenv ≡ ok images
    → images ≡ images_from getenv
pinned_images getenv images h = elim (images_from_env_outcome getenv) [
  | inl k ↦ cc (k.0, h)
  | inr (missing, e, n, which) ↦ absurd (cc (e, h))
]

-- If the images of the environment are accepted, both charts are given, for every resource, the
-- references of the four variables, each taken apart into repository and tag: the batch chart those
-- of the API server, the processor and the garbage collector, and the async chart, where the resource
-- has an async configuration, that of the dispatcher.
pub charts_use_pinned_images :
    (getenv : Getenv) (images : ComponentImages) (unmarshal : Unmarshal) (gw : LlmBatchGateway)
    (secret : String) (profile : ProfileValues) (ac : AsyncProcessorSpec)
    → component_images_from_env getenv ≡ ok images
    → gw.spec.processor.async_config ≡ some ac
    → let batch = spec_to_batch_helm_values gw secret images profile in
      let async = spec_to_async_helm_values unmarshal gw secret images in
      HasImage batch "apiserver" (getenv env_image_api_server)
      × HasImage batch "processor" (getenv env_image_processor)
      × HasImage batch "gc" (getenv env_image_gc)
      × HasImage async "ap" (getenv env_image_async)
charts_use_pinned_images getenv images unmarshal gw secret profile ac h e =
    rw (pinned_images getenv images h) (
      let (a, p, g) = batch_images gw secret (images_from getenv) profile in
      (a, p, g, async_chart_image unmarshal gw secret (images_from getenv) ac e))

-- For an accepted TLS profile the API server's chart values carry, for every resource, the profile's
-- minimum version and the names found for its ciphers, joined by commas, each unless it is empty, and
-- the protocols "h2,http/1.1", whether or not the resource enables TLS; TLS is enabled exactly if
-- the resource says so.
pub chart_follows_profile :
    (lib : TlsLibrary) (spec : TlsProfileSpec) (gw : LlmBatchGateway) (secret : String)
    (images : ComponentImages)
    → (profile_values_from_spec lib spec).error ≡ none
    → let m =
        spec_to_batch_helm_values gw secret images (profile_values_from_spec lib spec).values in
      (path ("apiserver" ∷ "tls" ∷ "minVersion" ∷ []) m ≡ unless_empty spec.min_tls_version)
      × (path ("apiserver" ∷ "tls" ∷ "cipherSuites" ∷ []) m
          ≡ unless_empty (join "," (found_names lib spec)))
      × (path ("apiserver" ∷ "tls" ∷ "nextProtos" ∷ []) m ≡ some (str "h2,http/1.1"))
      × (path ("apiserver" ∷ "tls" ∷ "enabled" ∷ []) m ≡ tls_enabled gw.spec.tls)
chart_follows_profile lib spec gw secret images h =
    rw (accepted_profile_values lib spec h).0
      (tls_settings gw secret images _ (ne_of_false "h2,http/1.1" "" refl))
