-- ===== src/Startup/Plan.antt =====
-- The plan of the start: its phases, the calls that lead from one to the next, and what has been done
-- in each phase.
use llm_d_batch_gateway_oper.Prelude.{String, ◌≡◌, ◌≢◌, List, [], ◌∷◌, none, some}
use llm_d_batch_gateway_oper.Controller.Errors.{ok, err}
use llm_d_batch_gateway_oper.Controller.Reconcile.{Reconciler}
use llm_d_batch_gateway_oper.Helm.{ComponentImages, Unmarshal}
use llm_d_batch_gateway_oper.Helm.Render.{Chart}
use llm_d_batch_gateway_oper.Tls.{TlsLibrary}
use llm_d_batch_gateway_oper.Tls.Conversion.{profile_values_from_spec}
use llm_d_batch_gateway_oper.Tls.Resolve.{TlsResult, ResolveError}
use llm_d_batch_gateway_oper.Tls.Watcher.{WatcherError}
use llm_d_batch_gateway_oper.Startup.{Getenv, Flags, component_images_from_env}
use llm_d_batch_gateway_oper.Startup.Main.{
  ManagerOptions, StartCall, client_created, tls_resolved, manager_created, chart_loaded,
  gateway_completed, healthz_added, readyz_added, metrics_completed, watcher_set_up, started,
  cancelled, new_reconciler, renderer_of, env_namespace,
}

pub data Phase (RenderValues : Type 0) : Type 0 where
  fresh connected : Phase RenderValues
  resolved managed : TlsResult → Phase RenderValues
  half_loaded : TlsResult → ComponentImages → Chart RenderValues → Phase RenderValues
  loaded :
      TlsResult → ComponentImages → Chart RenderValues → Chart RenderValues → Phase RenderValues
  controlled live ready complete : TlsResult → Phase RenderValues
  guarded unguarded stopped finished : Phase RenderValues
  -- stopped by an error, before or after the context is cancelled
  broken failed : Phase RenderValues

module _ {RenderValues : Type 0} (lib : TlsLibrary) (unmarshal : Unmarshal) (getenv : Getenv)
    (flags : Flags) (options : TlsResult → ManagerOptions) where
  -- The reconciler that is built from the charts, the pinned images and the TLS profile.
  abbrev pub reconciler_of :
      TlsResult → ComponentImages → Chart RenderValues → Chart RenderValues → Reconciler
  reconciler_of r images batch async =
      let values = (profile_values_from_spec lib r.profile).values in
      new_reconciler unmarshal (renderer_of batch images values) (renderer_of async images values)
        flags.sync_period

  -- One call, and the phase it leads to.
  pub data Step : Phase RenderValues → StartCall RenderValues → Phase RenderValues → Type 0 where
    connects : Step fresh (client_created none) connected
    connects_not : (e : String) → Step fresh (client_created (some e)) failed
    resolves : (r : TlsResult) → Step connected (tls_resolved (ok r)) (resolved r)
    resolves_not : (e : ResolveError) → Step connected (tls_resolved (err e)) failed
    manages : (r : TlsResult) → Step (resolved r) (manager_created (options r) none) (managed r)
    manages_not :
        (r : TlsResult) (e : String)
        → Step (resolved r) (manager_created (options r) (some e)) failed
    -- a chart is loaded only with all images and an accepted profile
    loads_batch :
        (r : TlsResult) (images : ComponentImages) (chart : Chart RenderValues)
        → component_images_from_env getenv ≡ ok images
        → (profile_values_from_spec lib r.profile).error ≡ none
        → Step
            (managed r)
            (chart_loaded flags.batch_gateway_chart_path (ok chart))
            (half_loaded r images chart)
    loads_batch_not :
        (r : TlsResult) (e : String)
        → Step (managed r) (chart_loaded flags.batch_gateway_chart_path (err e)) failed
    loads_async :
        (r : TlsResult) (images : ComponentImages) (batch async : Chart RenderValues)
        → Step
            (half_loaded r images batch)
            (chart_loaded flags.async_chart_path (ok async))
            (loaded r images batch async)
    loads_async_not :
        (r : TlsResult) (images : ComponentImages) (batch : Chart RenderValues) (e : String)
        → Step (half_loaded r images batch) (chart_loaded flags.async_chart_path (err e)) failed
    controls :
        (r : TlsResult) (images : ComponentImages) (batch async : Chart RenderValues)
        → Step
            (loaded r images batch async)
            (gateway_completed (reconciler_of r images batch async) none)
            (controlled r)
    controls_not :
        (r : TlsResult) (images : ComponentImages) (batch async : Chart RenderValues) (e : String)
        → Step
            (loaded r images batch async)
            (gateway_completed (reconciler_of r images batch async) (some e))
            failed
    lives : (r : TlsResult) → Step (controlled r) (healthz_added none) (live r)
    lives_not : (r : TlsResult) (e : String) → Step (controlled r) (healthz_added (some e)) failed
    readies : (r : TlsResult) → Step (live r) (readyz_added none) (ready r)
    readies_not : (r : TlsResult) (e : String) → Step (live r) (readyz_added (some e)) failed
    -- the metrics controller is set up exactly if the operator knows its namespace
    monitors :
        (r : TlsResult)
        → getenv env_namespace ≢ ""
        → Step (ready r) (metrics_completed (getenv env_namespace) none) (complete r)
    monitors_not :
        (r : TlsResult) (e : String)
        → getenv env_namespace ≢ ""
        → Step (ready r) (metrics_completed (getenv env_namespace) (some e)) failed
    watches_alone :
        (r : TlsResult) → getenv env_namespace ≡ "" → Step (ready r) (watcher_set_up r none) guarded
    watches_alone_not :
        (r : TlsResult) (e : WatcherError)
        → getenv env_namespace ≡ ""
        → Step (ready r) (watcher_set_up r (some e)) unguarded
    watches : (r : TlsResult) → Step (complete r) (watcher_set_up r none) guarded
    watches_not :
        (r : TlsResult) (e : WatcherError) → Step (complete r) (watcher_set_up r (some e)) unguarded
    gives_up : Step unguarded cancelled failed
    runs : Step guarded (started none) stopped
    runs_not : (e : String) → Step guarded (started (some e)) broken
    ends : Step stopped cancelled finished
    ends_broken : Step broken cancelled failed

  -- The calls, the latest first, that lead from the start to a phase.
  pub data Reaches : List (StartCall RenderValues) → Phase RenderValues → Type 0 where
    begin : Reaches [] fresh
    then :
        {calls : List (StartCall RenderValues)} {phase next : Phase RenderValues}
        {call : StartCall RenderValues}
        → Reaches calls phase
        → Step phase call next
        → Reaches (call ∷ calls) next
