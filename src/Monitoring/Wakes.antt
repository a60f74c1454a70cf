-- ===== src/Monitoring/Wakes.antt =====
-- Which events lead to a reconcile of the monitoring resources.
use mathlib.Core.List.{Memᴰ}
use llm_d_batch_gateway_oper.Prelude.{
  String, ◌≡◌, ◌≢◌, refl, sym, subst, ◌↔◌, ◌⊎◌, inl, inr, Bool, true, false, ◌&&◌, ◌==◌, eq_iff,
  List, [], ◌∷◌, if◌then◌else◌, ↔-trans, and_both, mem-append_cases, mem-append_left,
  mem-append_right,
}
use llm_d_batch_gateway_oper.Utils.{
  ObjectType, service, service_monitor, prometheus_rule, RestMapper, is_crd_installed, Source,
  watches, at_startup,
}
use llm_d_batch_gateway_oper.Utils.Installed.{mem-if_installed_iff}
use llm_d_batch_gateway_oper.Monitoring.Resources as Own
use llm_d_batch_gateway_oper.Monitoring.Resources.{
  Resource, meta_of, service_for, service_monitor_for, prometheus_rule_for, own_name,
}
use llm_d_batch_gateway_oper.Monitoring.Registration.{
  MetricsHandler, empty_request, name_filter, enqueue_own, bootstrap, metrics_sources,
}

-- The Go type of a resource.
abbrev type_of : Resource → ObjectType
type_of (Own.metrics_service meta spec) = service
type_of (Own.service_monitor meta spec) = service_monitor
type_of (Own.prometheus_rule meta groups) = prometheus_rule

-- What the controller applies in the namespace.
abbrev own_resources : String → List Resource
own_resources namespace =
    service_for namespace ∷ service_monitor_for namespace ∷ prometheus_rule_for namespace ∷ []

-- The handler lets an event through exactly if it is about this resource.
abbrev Wakes : MetricsHandler → Resource → Type 0
Wakes handler resource =
    (namespace name : String)
    → (handler namespace name ≡ empty_request ∷ [])
      ↔ ((namespace ≡ (meta_of resource).namespace) × (name ≡ (meta_of resource).name))

enqueue_own_iff :
    (own suffix namespace name : String)
    → (enqueue_own own suffix namespace name ≡ empty_request ∷ [])
      ↔ ((namespace ≡ own) × (name ≡ own_name suffix))
unfolding enqueue_own name_filter
enqueue_own_iff own suffix namespace name =
    ↔-trans (once (namespace == own && name == own_name suffix))
      (and_both _ _ (eq_iff namespace own) (eq_iff name (own_name suffix)))
  where
    once : (b : Bool) → ((if b then empty_request ∷ [] else []) ≡ empty_request ∷ []) ↔ (b ≡ true)
    once true = ((λ h. refl), λ h. refl)
    once false = ((λ h. absurd (cc)), λ h. absurd (cc))

-- The watches, one by one.
metrics_sources_cases :
    (mapper : RestMapper) (namespace : String) (s : Source MetricsHandler)
    → Memᴰ s (metrics_sources mapper namespace)
    → (s ≡ at_startup bootstrap)
      ⊎ ((s ≡ watches service (enqueue_own namespace "-metrics"))
          ⊎ (((is_crd_installed mapper service_monitor ≡ true)
                × (s ≡ watches service_monitor (enqueue_own namespace "-metrics")))
              ⊎ ((is_crd_installed mapper prometheus_rule ≡ true)
                  × (s ≡ watches prometheus_rule (enqueue_own namespace "-alerts")))))
unfolding metrics_sources
metrics_sources_cases mapper namespace s (Memᴰ.head e) = inl e
metrics_sources_cases mapper namespace s (Memᴰ.tail (Memᴰ.head e)) = inr (inl e)
metrics_sources_cases mapper namespace s (Memᴰ.tail (Memᴰ.tail m)) =
    elim (mem-append_cases s _ _ m) [
      | inl n ↦ inr (inr (inl ((mem-if_installed_iff mapper service_monitor _ s).0 n)))
      | inr n ↦ inr (inr (inr ((mem-if_installed_iff mapper prometheus_rule _ s).0 n)))
    ]

service_monitor-mem :
    (mapper : RestMapper) (namespace : String)
    → is_crd_installed mapper service_monitor ≡ true
    → Memᴰ
        (watches service_monitor (enqueue_own namespace "-metrics"))
        (metrics_sources mapper namespace)
unfolding metrics_sources
service_monitor-mem mapper namespace e = Memᴰ.tail (
    Memᴰ.tail
      (mem-append_left _ _ _ ((mem-if_installed_iff mapper service_monitor _ _).1 (e, refl))))

prometheus_rule-mem :
    (mapper : RestMapper) (namespace : String)
    → is_crd_installed mapper prometheus_rule ≡ true
    → Memᴰ
        (watches prometheus_rule (enqueue_own namespace "-alerts"))
        (metrics_sources mapper namespace)
unfolding metrics_sources
prometheus_rule-mem mapper namespace e = Memᴰ.tail (
    Memᴰ.tail
      (mem-append_right _ _ _ ((mem-if_installed_iff mapper prometheus_rule _ _).1 (e, refl))))

service-mem :
    (mapper : RestMapper) (namespace : String)
    → Memᴰ (watches service (enqueue_own namespace "-metrics")) (metrics_sources mapper namespace)
unfolding metrics_sources
service-mem mapper namespace = Memᴰ.tail (Memᴰ.head refl)

-- The kind of the resource can be watched: it is a Service, or its CRD is installed.
abbrev CanWatch : RestMapper → Resource → Type 0
CanWatch mapper resource =
    (type_of resource ≡ service) ⊎ (is_crd_installed mapper (type_of resource) ≡ true)

-- A watch on the resource's kind that lets exactly its events through.
abbrev HasWatch : RestMapper → String → Resource → Type 0
HasWatch mapper namespace resource =
    CanWatch mapper resource
    → (handler : MetricsHandler) × Memᴰ (watches (type_of resource) handler)
        (metrics_sources mapper namespace)
      × Wakes handler resource

-- The watch is one for a resource of the controller.
abbrev IsOwn : String → ObjectType → MetricsHandler → Type 0
IsOwn namespace object handler =
    (resource : Resource) × Memᴰ resource (own_resources namespace)
    × (object ≡ type_of resource)
    × Wakes handler resource

if_not_service :
    {object : ObjectType} (mapper : RestMapper)
    → object ≢ service
    → (object ≡ service) ⊎ (is_crd_installed mapper object ≡ true)
    → is_crd_installed mapper object ≡ true
if_not_service mapper n c = elim c [ inl e ↦ absurd (n e) | inr e ↦ e ]

service-HasWatch :
    (mapper : RestMapper) (namespace : String) → HasWatch mapper namespace (service_for namespace)
unfolding service_for
service-HasWatch mapper namespace c =
    (_, service-mem mapper namespace, enqueue_own_iff namespace "-metrics")

service_monitor-HasWatch :
    (mapper : RestMapper) (namespace : String)
    → HasWatch mapper namespace (service_monitor_for namespace)
unfolding service_monitor_for
service_monitor-HasWatch mapper namespace c = (
  _,
  service_monitor-mem mapper namespace (if_not_service mapper (λ e. absurd (cc)) c),
  enqueue_own_iff namespace "-metrics",
)

prometheus_rule-HasWatch :
    (mapper : RestMapper) (namespace : String)
    → HasWatch mapper namespace (prometheus_rule_for namespace)
unfolding prometheus_rule_for
prometheus_rule-HasWatch mapper namespace c = (
  _,
  prometheus_rule-mem mapper namespace (if_not_service mapper (λ e. absurd (cc)) c),
  enqueue_own_iff namespace "-alerts",
)

resource-HasWatch :
    (mapper : RestMapper) (namespace : String) (resource : Resource)
    → Memᴰ resource (own_resources namespace)
    → HasWatch mapper namespace resource
resource-HasWatch mapper namespace resource (Memᴰ.head e) =
    subst (HasWatch mapper namespace) (sym e) (service-HasWatch mapper namespace)
resource-HasWatch mapper namespace resource (Memᴰ.tail (Memᴰ.head e)) =
    subst (HasWatch mapper namespace) (sym e) (service_monitor-HasWatch mapper namespace)
resource-HasWatch mapper namespace resource (Memᴰ.tail (Memᴰ.tail (Memᴰ.head e))) =
    subst (HasWatch mapper namespace) (sym e) (prometheus_rule-HasWatch mapper namespace)
resource-HasWatch mapper namespace resource (Memᴰ.tail (Memᴰ.tail (Memᴰ.tail n))) = elim n [ ]

watch-IsOwn :
    (mapper : RestMapper) (namespace : String) (object : ObjectType) (handler : MetricsHandler)
    → Memᴰ (watches object handler) (metrics_sources mapper namespace)
    → IsOwn namespace object handler
unfolding service_for service_monitor_for prometheus_rule_for
watch-IsOwn mapper namespace object handler m =
    elim (metrics_sources_cases mapper namespace (watches object handler) m) [
      | inl e ↦ absurd (cc)
      | inr (inl e) ↦
          let o : object ≡ service = cc e in
          let h : handler ≡ enqueue_own namespace "-metrics" = cc e in
          (service_for namespace, Memᴰ.head refl, o, (rw h (enqueue_own_iff namespace "-metrics")))
      | inr (inr (inl (i, e))) ↦
          let o : object ≡ service_monitor = cc e in
          let h : handler ≡ enqueue_own namespace "-metrics" = cc e in
          (
            service_monitor_for namespace,
            Memᴰ.tail (Memᴰ.head refl),
            o,
            (rw h (enqueue_own_iff namespace "-metrics")),
          )
      | inr (inr (inr (i, e))) ↦
          let o : object ≡ prometheus_rule = cc e in
          let h : handler ≡ enqueue_own namespace "-alerts" = cc e in
          (
            prometheus_rule_for namespace,
            Memᴰ.tail (Memᴰ.tail (Memᴰ.head refl)),
            o,
            (rw h (enqueue_own_iff namespace "-alerts")),
          )
    ]

-- Each of the three resources that the controller applies, if it is the Service or its CRD is
-- installed, has a watch on its kind that enqueues the controller's request exactly for the events
-- on an object with that resource's namespace and name.
pub own_events_wake :
    (mapper : RestMapper) (namespace : String) (resource : Resource)
    → Memᴰ resource (own_resources namespace)
    → (type_of resource ≡ service) ⊎ (is_crd_installed mapper (type_of resource) ≡ true)
    → (handler : MetricsHandler) × Memᴰ
        (watches (type_of resource) handler)
        (metrics_sources mapper namespace)
      × Wakes handler resource
own_events_wake mapper namespace resource m c = resource-HasWatch mapper namespace resource m c

-- Each watch of the controller is on the kind of one of its three resources, and enqueues the
-- controller's request exactly for the events on an object with that resource's namespace and name.
pub watch-Wakes :
    (mapper : RestMapper) (namespace : String) (object : ObjectType) (handler : MetricsHandler)
    → Memᴰ (watches object handler) (metrics_sources mapper namespace)
    → (resource : Resource) × Memᴰ resource (own_resources namespace)
      × (object ≡ type_of resource)
      × Wakes handler resource
watch-Wakes mapper namespace object handler m = watch-IsOwn mapper namespace object handler m
