-- ===== src/Controller/Status/Ready.antt =====
-- What the patched conditions say: Ready is True exactly if every component is available.
use llm_d_batch_gateway_oper.Prelude.{
  String, ◌≡◌, refl, ◌∙◌, Bool, true, false, ◌&&◌, [], ◌∷◌, Option, some, ◌==◌, if◌then◌else◌,
  Bool-cases, inl, inr, ne_of_false,
}
use llm_d_batch_gateway_oper.Api.Status.{ComponentStatus, LlmBatchGatewayStatus}
use llm_d_batch_gateway_oper.Api.Gateway.{LlmBatchGateway}
use llm_d_batch_gateway_oper.Controller.Errors.{ApiError}
use llm_d_batch_gateway_oper.Controller.Rollout.{is_available}
use llm_d_batch_gateway_oper.Controller.Conditions.{
  Condition, ConditionApi, ConditionLaws, condition_ready, api_server_condition,
  processor_condition, gc_condition, async_processor_condition, condition_status,
}
use llm_d_batch_gateway_oper.Controller.Cluster.{
  Cluster, State, Call, conditions, component_status, observed_generation, normal, warning, event,
  patched_status,
}
use llm_d_batch_gateway_oper.Controller.Status.{
  counts, ready_event, has_status, component_condition, ready_condition,
  set_component_available_condition, set_component_conditions, apply_patch, write_status,
}

abbrev pub all_available : ComponentStatus → Bool
all_available components =
    is_available (counts components.api_server)
    && is_available (counts components.processor)
    && is_available (counts components.gc)
    && is_available (counts components.async_processor)

-- The event of a change of the Ready condition.
abbrev pub ready_call : {Conditions : Type 0} → Bool → Call Conditions
ready_call ready =
    if ready then event normal "AllComponentsReady" else event warning "ComponentsNotReady"

module _ {Conditions : Type 0} (api : ConditionApi Conditions) (gw : LlmBatchGateway) where
  -- The conditions have one of the type, of this generation, that is True or False as told.
  abbrev pub IsReported : Conditions → String → Bool → Type 0
  IsReported cs type holds =
      (c : Condition) × (api.find type cs ≡ some c)
      × (c.status ≡ condition_status holds)
      × (c.observed_generation ≡ gw.generation)

  -- Each component's condition.
  abbrev pub AllReported : Conditions → ComponentStatus → Type 0
  AllReported cs components =
      IsReported cs api_server_condition.condition_type
        (is_available (counts components.api_server))
      × IsReported cs processor_condition.condition_type
          (is_available (counts components.processor))
      × IsReported cs gc_condition.condition_type (is_available (counts components.gc))
      × IsReported cs async_processor_condition.condition_type
          (is_available (counts components.async_processor))

  module _ (laws : ConditionLaws api) where
    IsReported-set :
        (c : Condition) (cs : Conditions) (holds : Bool)
        → c.status ≡ condition_status holds
        → c.observed_generation ≡ gw.generation
        → IsReported (api.set c cs) c.type holds
    IsReported-set c cs holds s g = (c, laws.find-set c cs, s, g)

    -- A condition of another type leaves it.
    IsReported-keep :
        (c : Condition) (cs : Conditions) (type : String) (holds : Bool)
        → (type == c.type) ≡ false
        → IsReported cs type holds
        → IsReported (api.set c cs) type holds
    IsReported-keep c cs type holds n (d, f, s, g) =
        (d, laws.find-set_ne type c cs (ne_of_false type c.type n) ∙ f, s, g)

    set_component_conditions-AllReported :
        (components : ComponentStatus) (cs : Conditions)
        → let (ready, cs') = set_component_conditions api gw components cs in
          (ready ≡ all_available components)
          × AllReported cs' components
          × (api.find condition_ready cs' ≡ api.find condition_ready cs)
    unfolding set_component_conditions set_component_available_condition
    set_component_conditions-AllReported components cs =
        let c1 = component_condition gw api_server_condition components.api_server in
        let c2 = component_condition gw processor_condition components.processor in
        let c3 = component_condition gw gc_condition components.gc in
        let c4 = component_condition gw async_processor_condition components.async_processor in
        let s1 = api.set c1 cs in
        let s2 = api.set c2 s1 in
        let s3 = api.set c3 s2 in
        let keep = λ (c : Condition) (l : Conditions) (n : (condition_ready == c.type) ≡ false).
          laws.find-set_ne condition_ready c l (ne_of_false condition_ready c.type n) in
        (
          refl,
          (
            IsReported-keep c4 s3 _ _ refl (
                IsReported-keep c3 s2 _ _ refl
                  (IsReported-keep c2 s1 _ _ refl (IsReported-set c1 cs _ refl refl))),
            IsReported-keep c4 s3 _ _ refl
                (IsReported-keep c3 s2 _ _ refl (IsReported-set c2 s1 _ refl refl)),
            IsReported-keep c4 s3 _ _ refl (IsReported-set c3 s2 _ refl refl),
            IsReported-set c4 s3 _ refl refl,
          ),
          keep c4 s3 refl ∙ keep c3 s2 refl ∙ keep c2 s1 refl ∙ keep c1 cs refl,
        )

ready_event_call :
    {W Conditions : Type 0} (ready : Bool) (s : State W Conditions)
    → (ready_event ready s).1.calls ≡ ready_call ready ∷ s.calls
ready_event_call true s = refl
ready_event_call false s = refl

-- For any implementation of the conditions that keeps its documented laws, writing the status patches
-- conditions that report Ready exactly as all of the four components are available, and each
-- component as it is available, together with the counts and the generation and at the resource
-- version that was read; before it, an event is emitted exactly if the earlier conditions did not
-- report Ready in the same way.
pub write_status_reports :
    {W Conditions : Type 0} (cluster : Cluster W Conditions) (api : ConditionApi Conditions)
    (laws : ConditionLaws api) (gw : LlmBatchGateway) (status : LlmBatchGatewayStatus Conditions)
    (components : ComponentStatus) (s : State W Conditions)
    → let ready = all_available components in
      (cs : Conditions) × (answer : Option ApiError) × ((write_status cluster api gw status
          components s).1.calls
        ≡ patched_status
            (record {
              resource_version = gw.resource_version;
              fields =
                  conditions cs
                  ∷ component_status (some components)
                  ∷ observed_generation gw.generation
                  ∷ [];
            })
            answer
          ∷ (if has_status (api.find condition_ready status.conditions) (condition_status ready)
              then s.calls
              else ready_call ready ∷ s.calls))
      × IsReported api gw cs condition_ready ready
      × AllReported api gw cs components
unfolding write_status apply_patch
write_status_reports cluster api laws gw status components s =
    let (r, reported, same) =
      set_component_conditions-AllReported api gw laws components status.conditions in
    let cs = (set_component_conditions api gw components status.conditions).1 in
    let ready = all_available components in
    let c = ready_condition gw ready in
    let last = IsReported-set api gw laws c cs ready refl refl in
    let (a, b, d, e) = reported in
    let kept : AllReported api gw (api.set c cs) components = (
      IsReported-keep api gw laws c cs _ _ refl a,
      IsReported-keep api gw laws c cs _ _ refl b,
      IsReported-keep api gw laws c cs _ _ refl d,
      IsReported-keep api gw laws c cs _ _ refl e,
    ) in
    elim (Bool-cases
      (has_status (api.find condition_ready status.conditions) (condition_status ready))) [
        | inl h ↦ rw (r, same, h) (api.set c cs, _, refl, last, kept)
        | inr h ↦ rw (r, same, h, ready_event_call ready s) (api.set c cs, _, refl, last, kept)
      ]
