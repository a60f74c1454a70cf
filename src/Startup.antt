-- ===== src/Startup.antt =====
-- The start of the operator (cmd/main.go, cmd/metrics.go): its environment, its flags, and the
-- options of the metrics server. The flag package and filepath are parameters.
pub mod Environment
pub mod Server
pub mod Main
pub mod Plan
pub mod Order
pub mod Readiness
pub mod Refinement
pub mod Rendering
use llm_d_batch_gateway_oper.Prelude.{
  String, Bool, true, false, List, [], ◌∷◌, ◌++◌, Option, none, some, if◌then◌else◌, ◌==◌,
}
use llm_d_batch_gateway_oper.Prelude.Int.{ℤ}
use llm_d_batch_gateway_oper.Controller.Errors.{Result, ok, err}
use llm_d_batch_gateway_oper.Helm.{ComponentImages}
use llm_d_batch_gateway_oper.Tls.{TlsConfig, TlsOption}

abbrev pub env_image_api_server : String
env_image_api_server = "LLM_D_BATCH_GATEWAY_APISERVER_IMAGE"

abbrev pub env_image_processor : String
env_image_processor = "LLM_D_BATCH_GATEWAY_PROCESSOR_IMAGE"

abbrev pub env_image_gc : String
env_image_gc = "LLM_D_BATCH_GATEWAY_GC_IMAGE"

abbrev pub env_image_async : String
env_image_async = "LLM_D_ASYNC_IMAGE"

-- `os.Getenv`, the empty text for an unset variable.
abbrev pub Getenv : Type 0
Getenv = String → String

-- `required`
abbrev pub required_images : List String
required_images = env_image_api_server ∷ env_image_processor ∷ env_image_gc ∷ env_image_async ∷ []

-- The loop of `componentImagesFromEnv`.
unfoldable pub missing_images : Getenv → List String → List String
missing_images getenv [] = []
missing_images getenv (e ∷ es) =
    let rest = missing_images getenv es in if getenv e == "" then e ∷ rest else rest

abbrev pub images_from : Getenv → ComponentImages
images_from getenv = record {
  api_server = getenv env_image_api_server;
  processor = getenv env_image_processor;
  gc = getenv env_image_gc;
  async = getenv env_image_async;
}

abbrev pub images_unless : Getenv → List String → Result (List String) ComponentImages
images_unless getenv [] = ok (images_from getenv)
images_unless getenv (e ∷ es) = err (e ∷ es)

-- `componentImagesFromEnv`; its error lists the variables that are not set.
unfoldable pub component_images_from_env : Getenv → Result (List String) ComponentImages
unfolding missing_images
component_images_from_env getenv = images_unless getenv (missing_images getenv required_images)

-- The parsed flags that the start uses.
pub record Flags : Type 0 where
  pub batch_gateway_chart_path : String
  pub async_chart_path : String
  pub metrics_addr : String
  pub metrics_secure : Bool
  pub metrics_cert_path : String
  pub probe_addr : String
  pub enable_leader_election : Bool
  pub sync_period : ℤ
  pub reconcile_timeout : ℤ

-- filters.WithAuthenticationAndAuthorization
pub data FilterProvider : Type 0 where
  authentication_and_authorization : FilterProvider

-- metricsserver.Options
pub record MetricsOptions : Type 0 where
  pub bind_address : String
  pub secure_serving : Bool
  pub filter_provider : Option FilterProvider
  pub cert_dir : String
  pub tls_opts : List TlsOption

-- `loadMetricsCertificate`; `join_path` is filepath.Join.
unfoldable pub load_metrics_certificate : (String → String → String) → String → TlsOption
load_metrics_certificate join_path cert_dir c = record c {
  certificate_files = some (join_path cert_dir "tls.crt", join_path cert_dir "tls.key");
}

abbrev pub with_filter : Bool → MetricsOptions → MetricsOptions
with_filter secure opts =
    if secure then record opts { filter_provider = some authentication_and_authorization } else opts

abbrev pub with_certificate : (String → String → String) → String → MetricsOptions → MetricsOptions
with_certificate join_path cert_dir opts = if cert_dir == "" then opts else record opts {
  cert_dir = cert_dir;
  tls_opts = opts.tls_opts ++ (load_metrics_certificate join_path cert_dir ∷ []);
}

unfoldable pub metrics_server_options :
    (String → String → String) → String → Bool → String → List TlsOption → MetricsOptions
metrics_server_options join_path bind_address secure cert_dir tls_opts =
    with_certificate join_path cert_dir (
      with_filter secure (record {
        bind_address = bind_address;
        secure_serving = secure;
        filter_provider = none;
        cert_dir = "";
        tls_opts = tls_opts;
      }))
