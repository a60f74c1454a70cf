-- ===== src/Examples/Startup.antt =====
-- The theorems on the start of the operator, used on a machine where every call succeeds.
use llm_d_batch_gateway_oper.Prelude.{String, ◌≡◌, ◌≢◌, refl, ◌⊎◌, true, false, [], ◌∷◌, none, some}
use llm_d_batch_gateway_oper.Prelude.Int.{pos}
use llm_d_batch_gateway_oper.Prelude.Joining.{join}
use llm_d_batch_gateway_oper.Controller.Errors.{ok, err}
use llm_d_batch_gateway_oper.Value.{str}
use llm_d_batch_gateway_oper.Value.Path.{path}
use llm_d_batch_gateway_oper.Helm.{Unmarshal}
use llm_d_batch_gateway_oper.Helm.Async.{spec_to_async_helm_values}
use llm_d_batch_gateway_oper.Helm.Batch.Values.{spec_to_batch_helm_values}
use llm_d_batch_gateway_oper.Helm.Pinned.{HasImage, unless_empty, tls_enabled}
use llm_d_batch_gateway_oper.Helm.Render.{Chart, document, empty_document}
use llm_d_batch_gateway_oper.Tls.{ProfileValues}
use llm_d_batch_gateway_oper.Tls.Conversion.{profile_values_from_spec}
use llm_d_batch_gateway_oper.Tls.Usable.{found_names}
use llm_d_batch_gateway_oper.Utils.{RestMapper}
use llm_d_batch_gateway_oper.Startup.{
  Getenv, Flags, images_from, missing_images, component_images_from_env,
}
use llm_d_batch_gateway_oper.Startup.Main.{Machine, main, manager_options}
use llm_d_batch_gateway_oper.Startup.Plan.{Phase, finished, Reaches}
use llm_d_batch_gateway_oper.Startup.Refinement.{main_follows_plan}
use llm_d_batch_gateway_oper.Startup.Rendering.{charts_use_pinned_images, chart_follows_profile}
use llm_d_batch_gateway_oper.Examples.{sample_gateway, sample_config, sample_object}
use llm_d_batch_gateway_oper.Examples.Profile.{
  sample_spec, sample_library, sample_tls_cluster, sample_profile_accepted,
}

-- Every variable names the same image.
abbrev sample_env : Getenv
sample_env variable = "registry/image:v1"

abbrev sample_flags : Flags
sample_flags = record {
  batch_gateway_chart_path = "/charts/batch-gateway";
  async_chart_path = "/charts/llm-d-async";
  metrics_addr = ":8443";
  metrics_secure = true;
  metrics_cert_path = "/certs";
  probe_addr = ":8081";
  enable_leader_election = false;
  sync_period = pos 300;
  reconcile_timeout = pos 30;
}

-- A chart with one template of two documents.
abbrev pub sample_chart : Chart (Unit {0})
sample_chart = record {
  to_render_values = λ values name namespace. ok tt;
  render = λ values. ok (("chart/templates/deployment.yaml", "kind: Deployment") ∷ []);
  decode = λ content. empty_document ∷ document (sample_object "gw-async") ∷ [];
}

abbrev sample_mapper : RestMapper
sample_mapper = record { object_kinds = λ object. err "no kind"; rest_mapping = λ gvk. none }

abbrev sample_machine : Machine (Unit {0}) (Unit {0})
sample_machine = record {
  new_client = λ w. (none, w);
  tls_cluster = sample_tls_cluster;
  new_manager = λ options w. (none, w);
  load_chart = λ path w. (ok sample_chart, w);
  rest_mapper = λ w. sample_mapper;
  complete_gateway = λ r sources w. (none, w);
  add_healthz = λ w. (none, w);
  add_readyz = λ w. (none, w);
  complete_metrics = λ namespace sources w. (none, w);
  register_watcher = λ watcher w. (none, w);
  start = λ w. (none, w);
  cancel = λ w. w;
}

abbrev sample_join : String → String → String
sample_join dir file = file

abbrev pub sample_unmarshal : Unmarshal
sample_unmarshal text = none

main_follows_plan_example :
    let (result, s) =
      main sample_machine sample_library sample_join sample_unmarshal sample_env sample_flags
        (record { world = tt; calls = [] }) in
    (phase : Phase (Unit {0})) × Reaches sample_library sample_unmarshal sample_env sample_flags
      (manager_options sample_machine sample_library sample_join sample_unmarshal sample_env
        sample_flags)
      s.calls
      phase
    × (((result ≡ none) × (phase ≡ finished)) ⊎ ((result ≢ none) × (phase ≢ finished)))
main_follows_plan_example =
    main_follows_plan sample_machine sample_library sample_join sample_unmarshal sample_env
      sample_flags tt

sample_images : component_images_from_env sample_env ≡ ok (images_from sample_env)
unfolding missing_images component_images_from_env
sample_images = refl

abbrev sample_values : ProfileValues
sample_values = (profile_values_from_spec sample_library sample_spec).values

charts_use_pinned_images_example :
    let images = images_from sample_env in
    let batch = spec_to_batch_helm_values sample_gateway "creds" images sample_values in
    let async = spec_to_async_helm_values sample_unmarshal sample_gateway "creds" images in
    HasImage batch "apiserver" "registry/image:v1"
    × HasImage batch "processor" "registry/image:v1"
    × HasImage batch "gc" "registry/image:v1"
    × HasImage async "ap" "registry/image:v1"
charts_use_pinned_images_example =
    charts_use_pinned_images sample_env (images_from sample_env) sample_unmarshal sample_gateway
      "creds" sample_values sample_config sample_images refl

chart_follows_profile_example :
    let m =
      spec_to_batch_helm_values sample_gateway "creds" (images_from sample_env) sample_values in
    (path ("apiserver" ∷ "tls" ∷ "minVersion" ∷ []) m ≡ unless_empty "VersionTLS12")
    × (path ("apiserver" ∷ "tls" ∷ "cipherSuites" ∷ []) m
        ≡ unless_empty (join "," (found_names sample_library sample_spec)))
    × (path ("apiserver" ∷ "tls" ∷ "nextProtos" ∷ []) m ≡ some (str "h2,http/1.1"))
    × (path ("apiserver" ∷ "tls" ∷ "enabled" ∷ []) m ≡ tls_enabled none)
chart_follows_profile_example =
    chart_follows_profile sample_library sample_spec sample_gateway "creds" (images_from sample_env)
      sample_profile_accepted
