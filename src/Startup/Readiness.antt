-- ===== src/Startup/Readiness.antt =====
-- What has been done when the manager is started, in every sequence of calls of the plan.
use mathlib.Core.List.{Memᴰ}
use llm_d_batch_gateway_oper.Prelude.{
  String, ◌≡◌, refl, ◌⊎◌, inl, inr, List, ◌∷◌, Option, none, mem-cons_cases, subst,
}
use llm_d_batch_gateway_oper.Controller.Errors.{ok}
use llm_d_batch_gateway_oper.Helm.{ComponentImages, Unmarshal}
use llm_d_batch_gateway_oper.Helm.Render.{Chart}
use llm_d_batch_gateway_oper.Tls.{TlsLibrary}
use llm_d_batch_gateway_oper.Tls.Conversion.{profile_values_from_spec}
use llm_d_batch_gateway_oper.Tls.Resolve.{TlsResult}
use llm_d_batch_gateway_oper.Startup.{Getenv, Flags, component_images_from_env}
use llm_d_batch_gateway_oper.Startup.Main.{
  ManagerOptions, StartCall, client_created, tls_resolved, manager_created, chart_loaded,
  gateway_completed, healthz_added, readyz_added, metrics_completed, watcher_set_up, started,
  cancelled, env_namespace,
}
use llm_d_batch_gateway_oper.Startup.Plan.{
  Phase, fresh, connected, resolved, managed, half_loaded, loaded, controlled, live, ready,
  complete, guarded, unguarded, stopped, finished, broken, failed, reconciler_of, Step, Reaches,
  begin, then, connects, connects_not, resolves, resolves_not, manages, manages_not, loads_batch,
  loads_batch_not, loads_async, loads_async_not, controls, controls_not, lives, lives_not, readies,
  readies_not, monitors, monitors_not, watches_alone, watches_alone_not, watches, watches_not,
  gives_up, runs, runs_not, ends, ends_broken,
}

abbrev Calls : Type 0 → Type 0
Calls RenderValues = List (StartCall RenderValues)

module _ {RenderValues : Type 0} (lib : TlsLibrary) (unmarshal : Unmarshal) (getenv : Getenv)
    (flags : Flags) (options : TlsResult → ManagerOptions) where
  -- The manager was created for the TLS profile that was resolved.
  abbrev IsManaged : TlsResult → Calls RenderValues → Type 0
  IsManaged r calls =
      Memᴰ (tls_resolved (ok r)) calls × Memᴰ (manager_created (options r) none) calls

  -- All images are there, the profile is accepted, and the batch chart was loaded.
  abbrev IsEquipped : TlsResult → ComponentImages → Chart RenderValues → Calls RenderValues → Type 0
  IsEquipped r images batch calls =
      (component_images_from_env getenv ≡ ok images)
      × ((profile_values_from_spec lib r.profile).error ≡ none)
      × Memᴰ (chart_loaded flags.batch_gateway_chart_path (ok batch)) calls
      × IsManaged r calls

  -- Both charts were loaded.
  abbrev IsLoaded :
      TlsResult
      → ComponentImages
      → Chart RenderValues
      → Chart RenderValues
      → Calls RenderValues
      → Type 0
  IsLoaded r images batch async calls =
      IsEquipped r images batch calls × Memᴰ (chart_loaded flags.async_chart_path (ok async)) calls

  -- The controller of the resources was set up with the charts, the pinned images and the profile.
  abbrev HasController : TlsResult → Calls RenderValues → Type 0
  HasController r calls =
      (images : ComponentImages) × (batch : Chart RenderValues) × (async : Chart RenderValues)
      × IsLoaded r images batch async calls
      × Memᴰ
          (gateway_completed (reconciler_of lib unmarshal getenv flags options r images batch async)
            none)
          calls

  abbrev HasChecks : TlsResult → Calls RenderValues → Type 0
  HasChecks r calls =
      HasController r calls × Memᴰ (healthz_added none) calls × Memᴰ (readyz_added none) calls

  -- The metrics controller was set up, unless the operator does not know its namespace.
  abbrev IsMonitored : Calls RenderValues → Type 0
  IsMonitored calls =
      (getenv env_namespace ≡ "") ⊎ Memᴰ (metrics_completed (getenv env_namespace) none) calls

  -- Everything before the start of the manager has succeeded.
  abbrev pub IsPrepared : Calls RenderValues → Type 0
  IsPrepared calls =
      (r : TlsResult) × HasChecks r calls × IsMonitored calls × Memᴰ (watcher_set_up r none) calls

  -- What has been done in each phase.
  abbrev Done : Phase RenderValues → Calls RenderValues → Type 0
  Done fresh calls = Unit
  Done connected calls = Unit
  Done (resolved r) calls = Memᴰ (tls_resolved (ok r)) calls
  Done (managed r) calls = IsManaged r calls
  Done (half_loaded r images batch) calls = IsEquipped r images batch calls
  Done (loaded r images batch async) calls = IsLoaded r images batch async calls
  Done (controlled r) calls = HasController r calls
  Done (live r) calls = HasController r calls × Memᴰ (healthz_added none) calls
  Done (ready r) calls = HasChecks r calls
  Done (complete r) calls = HasChecks r calls × IsMonitored calls
  Done guarded calls = IsPrepared calls
  Done unguarded calls = Unit
  Done stopped calls = Unit
  Done finished calls = Unit
  Done broken calls = Unit
  Done failed calls = Unit

  module _ (call : StartCall RenderValues) (calls : Calls RenderValues) where
    IsEquipped-later :
        (r : TlsResult) (images : ComponentImages) (batch : Chart RenderValues)
        → IsEquipped r images batch calls
        → IsEquipped r images batch (call ∷ calls)
    IsEquipped-later r images batch (i, p, b, (t, m)) =
        (i, p, Memᴰ.tail b, (Memᴰ.tail t, Memᴰ.tail m))

    HasController-later : (r : TlsResult) → HasController r calls → HasController r (call ∷ calls)
    HasController-later r (images, batch, async, (e, a), m) =
        (images, batch, async, (IsEquipped-later r images batch e, Memᴰ.tail a), Memᴰ.tail m)

    HasChecks-later : (r : TlsResult) → HasChecks r calls → HasChecks r (call ∷ calls)
    HasChecks-later r (c, h, k) = (HasController-later r c, Memᴰ.tail h, Memᴰ.tail k)

    IsMonitored-later : IsMonitored calls → IsMonitored (call ∷ calls)
    IsMonitored-later (inl e) = inl e
    IsMonitored-later (inr m) = inr (Memᴰ.tail m)

    IsPrepared-later : IsPrepared calls → IsPrepared (call ∷ calls)
    IsPrepared-later (r, c, m, w) = (r, HasChecks-later r c, IsMonitored-later m, Memᴰ.tail w)

  -- The call starts the manager.
  abbrev IsStart : StartCall RenderValues → Type 0
  IsStart (started e) = Unit
  IsStart (client_created _) = ⊥
  IsStart (tls_resolved _) = ⊥
  IsStart (manager_created _ _) = ⊥
  IsStart (chart_loaded _ _) = ⊥
  IsStart (gateway_completed _ _) = ⊥
  IsStart (healthz_added _) = ⊥
  IsStart (readyz_added _) = ⊥
  IsStart (metrics_completed _ _) = ⊥
  IsStart (watcher_set_up _ _) = ⊥
  IsStart cancelled = ⊥

  abbrev Makes : Phase RenderValues → StartCall RenderValues → Phase RenderValues → Type 0
  Makes = Step lib unmarshal getenv flags options

  Done-step :
      {phase next : Phase RenderValues} {call : StartCall RenderValues} (calls : Calls RenderValues)
      → Makes phase call next
      → Done phase calls
      → Done next (call ∷ calls)
  Done-step calls connects d = tt
  Done-step calls (connects_not e) d = tt
  Done-step calls (resolves r) d = Memᴰ.head refl
  Done-step calls (resolves_not e) d = tt
  Done-step calls (manages r) d = (Memᴰ.tail d, Memᴰ.head refl)
  Done-step calls (manages_not r e) d = tt
  Done-step calls (loads_batch r images chart i p) d =
      (i, p, Memᴰ.head refl, (Memᴰ.tail d.0, Memᴰ.tail d.1))
  Done-step calls (loads_batch_not r e) d = tt
  Done-step calls (loads_async r images batch async) d =
      (IsEquipped-later _ calls r images batch d, Memᴰ.head refl)
  Done-step calls (loads_async_not r images batch e) d = tt
  Done-step calls (controls r images batch async) d = (
    images,
    batch,
    async,
    (IsEquipped-later _ calls r images batch d.0, Memᴰ.tail d.1),
    Memᴰ.head refl,
  )
  Done-step calls (controls_not r images batch async e) d = tt
  Done-step calls (lives r) d = (HasController-later _ calls r d, Memᴰ.head refl)
  Done-step calls (lives_not r e) d = tt
  Done-step calls (readies r) d = (HasController-later _ calls r d.0, Memᴰ.tail d.1, Memᴰ.head refl)
  Done-step calls (readies_not r e) d = tt
  Done-step calls (monitors r n) d = (HasChecks-later _ calls r d, inr (Memᴰ.head refl))
  Done-step calls (monitors_not r e n) d = tt
  Done-step calls (watches_alone r e) d = (r, HasChecks-later _ calls r d, inl e, Memᴰ.head refl)
  Done-step calls (watches_alone_not r e n) d = tt
  Done-step calls (watches r) d =
      (r, HasChecks-later _ calls r d.0, IsMonitored-later _ calls d.1, Memᴰ.head refl)
  Done-step calls (watches_not r e) d = tt
  Done-step calls gives_up d = tt
  Done-step calls runs d = tt
  Done-step calls (runs_not e) d = tt
  Done-step calls ends d = tt
  Done-step calls ends_broken d = tt

  -- Only the phase in which everything is prepared leads to the start.
  start-IsPrepared :
      {phase next : Phase RenderValues} {call : StartCall RenderValues} (calls : Calls RenderValues)
      → Makes phase call next
      → IsStart call
      → Done phase calls
      → IsPrepared calls
  start-IsPrepared calls runs k d = d
  start-IsPrepared calls (runs_not e) k d = d
  start-IsPrepared calls connects k d = elim k [ ]
  start-IsPrepared calls (connects_not e) k d = elim k [ ]
  start-IsPrepared calls (resolves r) k d = elim k [ ]
  start-IsPrepared calls (resolves_not e) k d = elim k [ ]
  start-IsPrepared calls (manages r) k d = elim k [ ]
  start-IsPrepared calls (manages_not r e) k d = elim k [ ]
  start-IsPrepared calls (loads_batch r images chart i p) k d = elim k [ ]
  start-IsPrepared calls (loads_batch_not r e) k d = elim k [ ]
  start-IsPrepared calls (loads_async r images batch async) k d = elim k [ ]
  start-IsPrepared calls (loads_async_not r images batch e) k d = elim k [ ]
  start-IsPrepared calls (controls r images batch async) k d = elim k [ ]
  start-IsPrepared calls (controls_not r images batch async e) k d = elim k [ ]
  start-IsPrepared calls (lives r) k d = elim k [ ]
  start-IsPrepared calls (lives_not r e) k d = elim k [ ]
  start-IsPrepared calls (readies r) k d = elim k [ ]
  start-IsPrepared calls (readies_not r e) k d = elim k [ ]
  start-IsPrepared calls (monitors r n) k d = elim k [ ]
  start-IsPrepared calls (monitors_not r e n) k d = elim k [ ]
  start-IsPrepared calls (watches_alone r e) k d = elim k [ ]
  start-IsPrepared calls (watches_alone_not r e n) k d = elim k [ ]
  start-IsPrepared calls (watches r) k d = elim k [ ]
  start-IsPrepared calls (watches_not r e) k d = elim k [ ]
  start-IsPrepared calls gives_up k d = elim k [ ]
  start-IsPrepared calls ends k d = elim k [ ]
  start-IsPrepared calls ends_broken k d = elim k [ ]

  all-Done :
      {calls : Calls RenderValues} {phase : Phase RenderValues}
      → Reaches lib unmarshal getenv flags options calls phase
      → Done phase calls
  all-Done begin = tt
  all-Done (then {calls} h step) = Done-step calls step (all-Done h)

  -- In every sequence of calls of the plan, the manager is started only after the TLS profile was
  -- resolved, the manager was created for it, both charts were loaded, the controller of the
  -- resources was set up with these charts, the four images and the values of the accepted profile,
  -- and both checks, the metrics controller unless the operator does not know its namespace, and the
  -- watcher of that profile were set up, each without an error.
  pub reached_start-IsPrepared :
      (e : Option String) (calls : Calls RenderValues) (phase : Phase RenderValues)
      → Reaches lib unmarshal getenv flags options calls phase
      → Memᴰ (started e) calls
      → IsPrepared calls
  reached_start-IsPrepared e calls phase begin m = elim m [ ]
  reached_start-IsPrepared e calls phase (then {calls = earlier} {call} h step) m =
      elim (mem-cons_cases (started e) call earlier m) [
        | inl same ↦
            IsPrepared-later call earlier
              (start-IsPrepared earlier step (subst IsStart same tt) (all-Done h))
        | inr n ↦ IsPrepared-later call earlier (reached_start-IsPrepared e earlier _ h n)
      ]
