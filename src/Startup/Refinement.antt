-- ===== src/Startup/Refinement.antt =====
-- `main` follows the plan, and starts the manager only when all is prepared.
use llm_d_batch_gateway_oper.Prelude.{
  String, ◌≡◌, ◌≢◌, refl, ◌⊎◌, inr, List, [], ◌∷◌, Option, none, some,
}
use llm_d_batch_gateway_oper.Controller.Errors.{Result, ok, err}
use llm_d_batch_gateway_oper.Helm.{ComponentImages, Unmarshal}
use llm_d_batch_gateway_oper.Helm.Render.{Chart}
use llm_d_batch_gateway_oper.Tls.{TlsLibrary}
use llm_d_batch_gateway_oper.Tls.Conversion.{ProfileError, profile_values_from_spec}
use llm_d_batch_gateway_oper.Tls.Resolve.{TlsResult, ResolveError, resolve}
use llm_d_batch_gateway_oper.Startup.{Getenv, Flags, component_images_from_env}
use llm_d_batch_gateway_oper.Startup.Main.{
  Machine, ManagerOptions, StartCall, StartError, with_async_chart, with_batch_chart, with_values,
  with_images, with_tls, main, chart_loaded, tls_resolved, manager_created, client_created,
  creating_manager, creating_client, manager_options,
}
use llm_d_batch_gateway_oper.Startup.Plan as Plan
use llm_d_batch_gateway_oper.Startup.Plan.{Phase, Reaches}
use llm_d_batch_gateway_oper.Startup.Order as Order

module _ {W RenderValues : Type 0} (machine : Machine W RenderValues) (lib : TlsLibrary)
    (join_path : String → String → String) (unmarshal : Unmarshal) (getenv : Getenv)
    (flags : Flags) where
  abbrev options : TlsResult → ManagerOptions
  options = manager_options machine lib join_path unmarshal getenv flags

  abbrev Got : List (StartCall RenderValues) → Phase RenderValues → Type 0
  Got = Reaches lib unmarshal getenv flags options

  abbrev Ends : Option StartError → List (StartCall RenderValues) → Type 0
  Ends = Order.Ends machine lib join_path unmarshal getenv flags

  with_batch_chart-Follows :
      (result : TlsResult) (images : ComponentImages)
      → component_images_from_env getenv ≡ ok images
      → (profile_values_from_spec lib result.profile).error ≡ none
      → (answer : Result String (Chart RenderValues)) (w : W)
        (calls : List (StartCall RenderValues))
      → Got calls (Plan.managed result)
      → let r =
          with_batch_chart machine lib join_path unmarshal getenv flags result images
            (profile_values_from_spec lib result.profile).values
            answer
            (record {
              world = w;
              calls = chart_loaded flags.batch_gateway_chart_path answer ∷ calls;
            }) in
        Ends r.0 r.1.calls
  with_batch_chart-Follows result images i p (err e) w calls h = (
    Plan.failed,
    Plan.then h (Plan.loads_batch_not result e),
    inr ((λ k. absurd (cc)), λ k. absurd (cc)),
  )
  with_batch_chart-Follows result images i p (ok batch) w calls h =
      let (answer, w') = machine.load_chart flags.async_chart_path w in second answer w'
    where
      second :
          (answer : Result String (Chart RenderValues)) (w' : W)
          → let r =
              with_async_chart machine lib join_path unmarshal getenv flags result images
                (profile_values_from_spec lib result.profile).values
                batch
                answer
                (record {
                  world = w';
                  calls =
                      chart_loaded flags.async_chart_path answer
                      ∷ chart_loaded flags.batch_gateway_chart_path (ok batch)
                      ∷ calls;
                }) in
            Ends r.0 r.1.calls
      second (err e) w' = (
        Plan.failed,
        Plan.then (Plan.then h (Plan.loads_batch result images batch i p))
            (Plan.loads_async_not result images batch e),
        inr ((λ k. absurd (cc)), λ k. absurd (cc)),
      )
      second (ok async) w' =
          Order.set_up_controllers-Follows machine lib join_path unmarshal getenv flags result
            images batch async _
            (Plan.then (Plan.then h (Plan.loads_batch result images batch i p))
              (Plan.loads_async result images batch async))

  with_values-Follows :
      (result : TlsResult) (images : ComponentImages)
      → component_images_from_env getenv ≡ ok images
      → (e : Option ProfileError) → (profile_values_from_spec lib result.profile).error ≡ e
      → Order.Follows machine lib join_path unmarshal getenv flags (Plan.managed result) (
          with_values machine lib join_path unmarshal getenv flags result images
            (profile_values_from_spec lib result.profile).values
            e)
  with_values-Follows result images i (some e) p s h =
      (Plan.managed result, h, inr ((λ k. absurd (cc)), λ k. absurd (cc)))
  with_values-Follows result images i none p s h =
      let (answer, w) = machine.load_chart flags.batch_gateway_chart_path s.world in
      with_batch_chart-Follows result images i p answer w s.calls h

  with_images-Follows :
      (result : TlsResult) (answer : Result (List String) ComponentImages)
      → component_images_from_env getenv ≡ answer
      → Order.Follows machine lib join_path unmarshal getenv flags
          (Plan.managed result)
          (with_images machine lib join_path unmarshal getenv flags result answer)
  with_images-Follows result (err missing) i s h =
      (Plan.managed result, h, inr ((λ k. absurd (cc)), λ k. absurd (cc)))
  with_images-Follows result (ok images) i s h = with_values-Follows result images i _ refl s h

  with_tls-Follows :
      (answer : Result ResolveError TlsResult) (w : W) (calls : List (StartCall RenderValues))
      → Got calls Plan.connected
      → let r =
          with_tls machine lib join_path unmarshal getenv flags answer
            (record { world = w; calls = tls_resolved answer ∷ calls }) in
        Ends r.0 r.1.calls
  with_tls-Follows (err e) w calls h =
      (Plan.failed, Plan.then h (Plan.resolves_not e), inr ((λ k. absurd (cc)), λ k. absurd (cc)))
  with_tls-Follows (ok result) w calls h =
      Order.try-Follows machine lib join_path unmarshal getenv flags
        (machine.new_manager (options result)) (manager_created (options result)) creating_manager
        (with_images machine lib join_path unmarshal getenv flags result
          (component_images_from_env getenv))
        (Plan.manages result) (λ e. (Plan.failed, Plan.manages_not result e, λ k. absurd (cc)))
        (with_images-Follows result (component_images_from_env getenv) refl)
        (record { world = w; calls = tls_resolved (ok result) ∷ calls })
        (Plan.then h (Plan.resolves result))

  -- Whatever the cluster, the manager and the loader of charts answer, the calls of `main` follow the
  -- plan: the client, the TLS profile, the manager, the charts, the controller of the resources, the
  -- checks, the metrics controller exactly if the operator's namespace is known, the watcher of the
  -- profile, the manager's run and the cancellation, each only after the one before it succeeded, and
  -- a chart only with all four images and an accepted profile; and `main` exits without an error
  -- exactly if the plan was followed to its end.
  pub main_follows_plan :
      (w : W)
      → let (result, s) =
          main machine lib join_path unmarshal getenv flags (record { world = w; calls = [] }) in
        (phase : Phase RenderValues) × Reaches lib unmarshal getenv flags options s.calls phase
        × (((result ≡ none) × (phase ≡ Plan.finished))
            ⊎ ((result ≢ none) × (phase ≢ Plan.finished)))
  unfolding main
  main_follows_plan w =
      Order.try-Follows machine lib join_path unmarshal getenv flags machine.new_client
        client_created creating_client
        (λ s.
          let (answer, w') = resolve lib machine.tls_cluster s.world in
          with_tls machine lib join_path unmarshal getenv flags answer
            (record { world = w'; calls = tls_resolved answer ∷ s.calls }))
        Plan.connects (λ e. (Plan.failed, Plan.connects_not e, λ k. absurd (cc)))
        (λ s h.
          let (answer, w') = resolve lib machine.tls_cluster s.world in
          with_tls-Follows answer w' s.calls h)
        (record { world = w; calls = [] }) Plan.begin
