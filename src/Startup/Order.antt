-- ===== src/Startup/Order.antt =====
-- The steps of `main` from the controllers on follow the plan; a call that may fail ends the start or
-- leads to the next phase.
use llm_d_batch_gateway_oper.Prelude.{
  String, ◌≡◌, ◌≢◌, refl, ◌⊎◌, inl, inr, List, ◌∷◌, Option, none, some, eq_iff, String-cases,
  ne_of_false,
}
use llm_d_batch_gateway_oper.Controller.Cluster.{Act}
use llm_d_batch_gateway_oper.Controller.Registration.{gateway_sources}
use llm_d_batch_gateway_oper.Monitoring.Registration.{metrics_sources}
use llm_d_batch_gateway_oper.Helm.{ComponentImages, Unmarshal}
use llm_d_batch_gateway_oper.Helm.Render.{Chart}
use llm_d_batch_gateway_oper.Tls.{TlsLibrary}
use llm_d_batch_gateway_oper.Tls.Resolve.{TlsResult}
use llm_d_batch_gateway_oper.Tls.Watcher.{WatcherError, setup_watcher}
use llm_d_batch_gateway_oper.Startup.{Getenv, Flags}
use llm_d_batch_gateway_oper.Startup.Main.{
  Machine, ManagerOptions, StartCall, StartState, StartError, failure, unless_exit, try,
  manager_options, cancel_context, run_manager, after_watcher, watch_profile, set_up_metrics,
  set_up_controllers, started, watcher_set_up, metrics_completed, gateway_completed, healthz_added,
  readyz_added, running, creating_metrics, creating_controller, adding_healthz, adding_readyz,
  env_namespace,
}
use llm_d_batch_gateway_oper.Startup.Plan as Plan
use llm_d_batch_gateway_oper.Startup.Plan.{Phase, Step, Reaches, reconciler_of}

module _ {W RenderValues : Type 0} (machine : Machine W RenderValues) (lib : TlsLibrary)
    (join_path : String → String → String) (unmarshal : Unmarshal) (getenv : Getenv)
    (flags : Flags) where
  abbrev pub options : TlsResult → ManagerOptions
  options = manager_options machine lib join_path unmarshal getenv flags

  -- The plan of this start.
  abbrev pub Takes : Phase RenderValues → StartCall RenderValues → Phase RenderValues → Type 0
  Takes = Step lib unmarshal getenv flags options

  abbrev pub Got : List (StartCall RenderValues) → Phase RenderValues → Type 0
  Got = Reaches lib unmarshal getenv flags options

  -- The calls lead to a phase of the plan, which is the last one exactly if there is no error.
  abbrev pub Ends : Option StartError → List (StartCall RenderValues) → Type 0
  Ends result calls =
      (phase : Phase RenderValues) × Got calls phase
      × (((result ≡ none) × (phase ≡ Plan.finished)) ⊎ ((result ≢ none) × (phase ≢ Plan.finished)))

  abbrev pub Follows :
      Phase RenderValues → Act (StartState W RenderValues) (Option StartError) → Type 0
  Follows phase m = (s : StartState W RenderValues) → Got s.calls phase → Ends (m s).0 (m s).1.calls

  -- A failing call ends the start.
  abbrev pub Fails : Phase RenderValues → StartCall RenderValues → Type 0
  Fails phase call = (final : Phase RenderValues) × Takes phase call final × (final ≢ Plan.finished)

  after_try :
      {E : Type 0} (call : Option E → StartCall RenderValues) (wrap : E → StartError)
      {phase next : Phase RenderValues} (m : Act (StartState W RenderValues) (Option StartError))
      → Takes phase (call none) next
      → ((e : E) → Fails phase (call (some e)))
      → Follows next m
      → (e : Option E) (w : W) (calls : List (StartCall RenderValues)) → Got calls phase
      → let r = unless_exit (failure wrap e) m (record { world = w; calls = call e ∷ calls }) in
        Ends r.0 r.1.calls
  after_try call wrap m good fails follows none w calls h = follows _ (Plan.then h good)
  after_try call wrap m good fails follows (some e) w calls h =
      let (final, step, n) = fails e in (final, Plan.then h step, inr ((λ k. absurd (cc)), n))

  pub try-Follows :
      {E : Type 0} (action : Act W (Option E)) (call : Option E → StartCall RenderValues)
      (wrap : E → StartError) {phase next : Phase RenderValues}
      (m : Act (StartState W RenderValues) (Option StartError))
      → Takes phase (call none) next
      → ((e : E) → Fails phase (call (some e)))
      → Follows next m
      → Follows phase (try action call wrap m)
  try-Follows action call wrap m good fails follows s h =
      let (e, w) = action s.world in after_try call wrap m good fails follows e w s.calls h

  run_manager-Follows :
      Follows Plan.guarded (run_manager machine lib join_path unmarshal getenv flags)
  unfolding run_manager
  run_manager-Follows s h = ended (machine.start s.world).0 (machine.start s.world).1
    where
      ended :
          (e : Option String) (w : W)
          → let r =
              cancel_context machine lib join_path unmarshal getenv flags
                (record { world = w; calls = started e ∷ s.calls }) in
            Ends (failure running e) r.1.calls
      ended none w = (Plan.finished, Plan.then (Plan.then h Plan.runs) Plan.ends, inl (refl, refl))
      ended (some e) w = (
        Plan.failed,
        Plan.then (Plan.then h (Plan.runs_not e)) Plan.ends_broken,
        inr ((λ k. absurd (cc)), λ k. absurd (cc)),
      )

  watch_profile-Follows :
      (result : TlsResult) (phase : Phase RenderValues)
      → Takes phase (watcher_set_up result none) Plan.guarded
      → ((e : WatcherError) → Takes phase (watcher_set_up result (some e)) Plan.unguarded)
      → Follows phase (watch_profile machine lib join_path unmarshal getenv flags result)
  unfolding watch_profile
  watch_profile-Follows result phase good bad s h =
      let (e, w) = setup_watcher machine.register_watcher result machine.cancel s.world in
      watched e w
    where
      watched :
          (e : Option WatcherError) (w : W)
          → let r =
              after_watcher machine lib join_path unmarshal getenv flags e
                (record { world = w; calls = watcher_set_up result e ∷ s.calls }) in
            Ends r.0 r.1.calls
      watched none w = run_manager-Follows _ (Plan.then h good)
      watched (some e) w = (
        Plan.failed,
        Plan.then (Plan.then h (bad e)) Plan.gives_up,
        inr ((λ k. absurd (cc)), λ k. absurd (cc)),
      )

  set_up_metrics-Follows :
      (result : TlsResult)
      → Follows (Plan.ready result) (
          set_up_metrics machine lib join_path unmarshal getenv flags
            (watch_profile machine lib join_path unmarshal getenv flags result))
  unfolding set_up_metrics
  set_up_metrics-Follows result s h = elim (String-cases (getenv env_namespace) "") [
    | inl e ↦ rw ((eq_iff (getenv env_namespace) "").1 e) (
        watch_profile-Follows result (Plan.ready result) (Plan.watches_alone result e)
          (λ f. Plan.watches_alone_not result f e) s h)
    | inr n ↦
        let known = ne_of_false _ _ n in
        rw n (
          try-Follows
            (λ w.
              machine.complete_metrics (getenv env_namespace)
                (metrics_sources (machine.rest_mapper w) (getenv env_namespace)) w)
            (metrics_completed (getenv env_namespace)) creating_metrics _
            (Plan.monitors result known)
            (λ e. (Plan.failed, Plan.monitors_not result e known, λ k. absurd (cc)))
            (watch_profile-Follows result (Plan.complete result) (Plan.watches result)
              (λ f. Plan.watches_not result f))
            s h)
  ]

  pub set_up_controllers-Follows :
      (result : TlsResult) (images : ComponentImages) (batch async : Chart RenderValues)
      → Follows (Plan.loaded result images batch async) (
          set_up_controllers machine lib join_path unmarshal getenv flags result
            (reconciler_of lib unmarshal getenv flags options result images batch async))
  unfolding set_up_controllers
  set_up_controllers-Follows result images batch async =
      let r = reconciler_of lib unmarshal getenv flags options result images batch async in
      let with_metrics =
        set_up_metrics machine lib join_path unmarshal getenv flags
          (watch_profile machine lib join_path unmarshal getenv flags result) in
      let with_readyz = try machine.add_readyz readyz_added adding_readyz with_metrics in
      let with_healthz = try machine.add_healthz healthz_added adding_healthz with_readyz in
      try-Follows (λ w. machine.complete_gateway r (gateway_sources (machine.rest_mapper w)) w)
        (gateway_completed r) creating_controller with_healthz
        (Plan.controls result images batch async)
        (λ e. (Plan.failed, Plan.controls_not result images batch async e, λ k. absurd (cc)))
        (try-Follows machine.add_healthz healthz_added adding_healthz with_readyz
          (Plan.lives result) (λ e. (Plan.failed, Plan.lives_not result e, λ k. absurd (cc)))
          (try-Follows machine.add_readyz readyz_added adding_readyz with_metrics
            (Plan.readies result) (λ e. (Plan.failed, Plan.readies_not result e, λ k. absurd (cc)))
            (set_up_metrics-Follows result)))
