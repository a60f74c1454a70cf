-- ===== src/Startup/Main.antt =====
-- `main` (cmd/main.go): the steps of the start, each recorded with its answer, up to the exit. The
-- manager, the client, the loader of charts and the cluster are a record of arbitrary functions on a
-- state `W`; the callbacks of the watcher act on that state.
use llm_d_batch_gateway_oper.Prelude.{
  String, Bool, List, ◌∷◌, Option, none, some, if◌then◌else◌, ◌==◌,
}
use llm_d_batch_gateway_oper.Prelude.Int.{ℤ}
use llm_d_batch_gateway_oper.Controller.Errors.{Result, ok, err}
use llm_d_batch_gateway_oper.Controller.Cluster.{Act, pure, ◌>>=◌, ◌>>◌}
use llm_d_batch_gateway_oper.Controller.Reconcile.{Reconciler}
use llm_d_batch_gateway_oper.Controller.Registration.{EventHandler, gateway_sources}
use llm_d_batch_gateway_oper.Helm.{ComponentImages, Unmarshal}
use llm_d_batch_gateway_oper.Helm.Render.{
  Chart, HelmRenderer, render_batch_chart, render_async_chart,
}
use llm_d_batch_gateway_oper.Monitoring.Registration.{MetricsHandler, metrics_sources}
use llm_d_batch_gateway_oper.Tls.{ProfileValues, TlsLibrary}
use llm_d_batch_gateway_oper.Tls.Conversion.{ProfileError, profile_values_from_spec}
use llm_d_batch_gateway_oper.Tls.Resolve.{TlsCluster, TlsResult, ResolveError, resolve}
use llm_d_batch_gateway_oper.Tls.Watcher.{SecurityProfileWatcher, WatcherError, setup_watcher}
use llm_d_batch_gateway_oper.Utils.{RestMapper, Source, leader_election_id}
use llm_d_batch_gateway_oper.Startup.{
  Getenv, Flags, MetricsOptions, component_images_from_env, metrics_server_options,
}

-- ctrl.Options
pub record ManagerOptions : Type 0 where
  pub metrics : MetricsOptions
  pub health_probe_bind_address : String
  pub leader_election : Bool
  pub leader_election_id : String

-- What the start calls.
pub record Machine (W RenderValues : Type 0) : Type 0 where
  pub new_client : Act W (Option String)
  pub tls_cluster : TlsCluster W
  pub new_manager : ManagerOptions → Act W (Option String)
  pub load_chart : String → Act W (Result String (Chart RenderValues))
  pub rest_mapper : W → RestMapper
  pub complete_gateway : Reconciler → List (Source EventHandler) → Act W (Option String)
  pub add_healthz : Act W (Option String)
  pub add_readyz : Act W (Option String)
  -- the operator's namespace and the sources
  pub complete_metrics : String → List (Source MetricsHandler) → Act W (Option String)
  pub register_watcher : SecurityProfileWatcher W → Act W (Option String)
  pub start : Act W (Option String)
  pub cancel : W → W

pub data StartCall (RenderValues : Type 0) : Type 0 where
  client_created : Option String → StartCall RenderValues
  tls_resolved : Result ResolveError TlsResult → StartCall RenderValues
  manager_created : ManagerOptions → Option String → StartCall RenderValues
  chart_loaded : String → Result String (Chart RenderValues) → StartCall RenderValues
  gateway_completed : Reconciler → Option String → StartCall RenderValues
  healthz_added : Option String → StartCall RenderValues
  readyz_added : Option String → StartCall RenderValues
  metrics_completed : String → Option String → StartCall RenderValues
  watcher_set_up : TlsResult → Option WatcherError → StartCall RenderValues
  started : Option String → StartCall RenderValues
  cancelled : StartCall RenderValues

pub record StartState (W RenderValues : Type 0) : Type 0 where
  pub world : W
  pub calls : List (StartCall RenderValues)

-- Why the process exits with status 1.
pub data StartError : Type 0 where
  creating_client creating_manager creating_controller : String → StartError
  resolving_tls : ResolveError → StartError
  resolving_images : List String → StartError
  converting_profile : ProfileError → StartError
  -- path and error
  creating_renderer : String → String → StartError
  adding_healthz adding_readyz creating_metrics running : String → StartError
  watching : WatcherError → StartError

-- `NewLLMBatchGatewayReconciler`
abbrev pub new_reconciler :
    {RenderValues : Type 0}
    → Unmarshal
    → HelmRenderer RenderValues
    → HelmRenderer RenderValues
    → ℤ
    → Reconciler
new_reconciler unmarshal batch async sync_period = record {
  render_batch = render_batch_chart batch;
  render_async = some (render_async_chart async unmarshal);
  sync_period = sync_period;
}

abbrev pub failure : {E : Type 0} → (E → StartError) → Option E → Option StartError
failure wrap none = none
failure wrap (some e) = some (wrap e)

abbrev pub env_namespace : String
env_namespace = "POD_NAMESPACE"

-- `HelmRenderer` of a loaded chart.
abbrev pub renderer_of :
    {RenderValues : Type 0}
    → Chart RenderValues
    → ComponentImages
    → ProfileValues
    → HelmRenderer RenderValues
renderer_of chart images profile = record { chart = chart; images = images; tls_profile = profile }

module _ {W RenderValues : Type 0} where
  abbrev pub attempt :
      {A : Type 0} → Act W A → (A → StartCall RenderValues) → Act (StartState W RenderValues) A
  attempt action call s =
      let (a, w) = action s.world in (a, record { world = w; calls = call a ∷ s.calls })

  -- `if err != nil { os.Exit(1) }`
  abbrev pub unless_exit :
      Option StartError
      → Act (StartState W RenderValues) (Option StartError)
      → Act (StartState W RenderValues) (Option StartError)
  unless_exit none next = next
  unless_exit (some e) next = pure (some e)

  abbrev pub try :
      {E : Type 0}
      → Act W (Option E)
      → (Option E → StartCall RenderValues)
      → (E → StartError)
      → Act (StartState W RenderValues) (Option StartError)
      → Act (StartState W RenderValues) (Option StartError)
  try action call wrap next = do e ← attempt action call; unless_exit (failure wrap e) next

module _ {W RenderValues : Type 0} (machine : Machine W RenderValues) (lib : TlsLibrary)
    (join_path : String → String → String) (unmarshal : Unmarshal) (getenv : Getenv)
    (flags : Flags) where
  abbrev pub manager_options : TlsResult → ManagerOptions
  manager_options result = record {
    metrics =
        metrics_server_options join_path flags.metrics_addr flags.metrics_secure
          flags.metrics_cert_path result.tls_opts;
    health_probe_bind_address = flags.probe_addr;
    leader_election = flags.enable_leader_election;
    leader_election_id = leader_election_id;
  }

  abbrev pub cancel_context : Act (StartState W RenderValues) (Unit {0})
  cancel_context s = (tt, record { world = machine.cancel s.world; calls = cancelled ∷ s.calls })

  -- The end of `main`: `mgr.Start`, and the cancellation on both paths.
  unfoldable pub run_manager : Act (StartState W RenderValues) (Option StartError)
  run_manager = do e ← attempt machine.start started; cancel_context; pure (failure running e)

  abbrev pub after_watcher :
      Option WatcherError → Act (StartState W RenderValues) (Option StartError)
  after_watcher none = run_manager
  after_watcher (some e) = cancel_context >> pure (some (watching e))

  unfoldable pub watch_profile : TlsResult → Act (StartState W RenderValues) (Option StartError)
  watch_profile result = do
    e ←
        attempt (setup_watcher machine.register_watcher result machine.cancel)
          (watcher_set_up result)
    after_watcher e

  -- The metrics controller, if the operator knows its namespace.
  unfoldable pub set_up_metrics :
      Act (StartState W RenderValues) (Option StartError)
      → Act (StartState W RenderValues) (Option StartError)
  set_up_metrics next =
      if getenv env_namespace == ""
      then next
      else try
          (λ w.
            machine.complete_metrics (getenv env_namespace)
              (metrics_sources (machine.rest_mapper w) (getenv env_namespace)) w)
          (metrics_completed (getenv env_namespace)) creating_metrics next

  unfoldable pub set_up_controllers :
      TlsResult → Reconciler → Act (StartState W RenderValues) (Option StartError)
  set_up_controllers result r =
      try (λ w. machine.complete_gateway r (gateway_sources (machine.rest_mapper w)) w)
        (gateway_completed r) creating_controller
        (try machine.add_healthz healthz_added adding_healthz (
          try machine.add_readyz readyz_added adding_readyz
            (set_up_metrics (watch_profile result))))

  -- The second `NewHelmRenderer`.
  abbrev pub with_async_chart :
      TlsResult
      → ComponentImages
      → ProfileValues
      → Chart RenderValues
      → Result String (Chart RenderValues)
      → Act (StartState W RenderValues) (Option StartError)
  with_async_chart result images values batch (err e) =
      pure (some (creating_renderer flags.async_chart_path e))
  with_async_chart result images values batch (ok async) = set_up_controllers result (
      new_reconciler unmarshal (renderer_of batch images values) (renderer_of async images values)
        flags.sync_period)

  -- The first `NewHelmRenderer`.
  abbrev pub with_batch_chart :
      TlsResult
      → ComponentImages
      → ProfileValues
      → Result String (Chart RenderValues)
      → Act (StartState W RenderValues) (Option StartError)
  with_batch_chart result images values (err e) =
      pure (some (creating_renderer flags.batch_gateway_chart_path e))
  with_batch_chart result images values (ok batch) = do
    answer ←
        attempt (machine.load_chart flags.async_chart_path) (chart_loaded flags.async_chart_path)
    with_async_chart result images values batch answer

  abbrev pub with_values :
      TlsResult
      → ComponentImages
      → ProfileValues
      → Option ProfileError
      → Act (StartState W RenderValues) (Option StartError)
  with_values result images values (some e) = pure (some (converting_profile e))
  with_values result images values none = do
    answer ←
        attempt (machine.load_chart flags.batch_gateway_chart_path)
          (chart_loaded flags.batch_gateway_chart_path)
    with_batch_chart result images values answer

  abbrev pub with_images :
      TlsResult
      → Result (List String) ComponentImages
      → Act (StartState W RenderValues) (Option StartError)
  with_images result (err missing) = pure (some (resolving_images missing))
  with_images result (ok images) =
      let c = profile_values_from_spec lib result.profile in
      with_values result images c.values c.error

  abbrev pub with_tls :
      Result ResolveError TlsResult → Act (StartState W RenderValues) (Option StartError)
  with_tls (err e) = pure (some (resolving_tls e))
  with_tls (ok result) =
      try (machine.new_manager (manager_options result)) (manager_created (manager_options result))
        creating_manager (with_images result (component_images_from_env getenv))

  -- `none` is the exit with status 0.
  unfoldable pub main : Act (StartState W RenderValues) (Option StartError)
  main =
      try machine.new_client client_created creating_client
        (do answer ← attempt (resolve lib machine.tls_cluster) tls_resolved; with_tls answer)
