-- ===== src/Controller/Ownership.antt =====
-- Which kinds are watched as owned.
use mathlib.Core.List.{Memᴰ}
use llm_d_batch_gateway_oper.Prelude.{
  String, ◌≡◌, refl, sym, ap, ◌∙◌, subst, ◌↔◌, ◌⊎◌, inl, inr, true, List, [], ◌∷◌, ◌++◌, map, All,
  All-mem, mem-append_cases, mem-append_left, mem-append_right, mem-cons_cases, mem-map_of_mem,
  mem_of_mem-map, member, member→mem,
}
use llm_d_batch_gateway_oper.Controller.Objects.{Gvk, managed_gvks}
use llm_d_batch_gateway_oper.Utils.{
  ObjectType, llm_batch_gateway, deployment, stateful_set, service, config_map, service_account,
  role, role_binding, secret, http_route, certificate, service_monitor, pod_monitor,
  prometheus_rule, reference_grant, RestMapper, is_crd_installed, Source, owns, watches,
}
use llm_d_batch_gateway_oper.Utils.Installed.{mem-if_installed_iff}
use llm_d_batch_gateway_oper.Controller.Registration.{
  EventHandler, on_secret, built_in_kinds, optional_owns, own_installed, gateway_sources,
}

-- The name of the Go type, which is the kind of its objects.
abbrev pub kind_name : ObjectType → String
kind_name llm_batch_gateway = "LLMBatchGateway"
kind_name deployment = "Deployment"
kind_name stateful_set = "StatefulSet"
kind_name service = "Service"
kind_name config_map = "ConfigMap"
kind_name service_account = "ServiceAccount"
kind_name role = "Role"
kind_name role_binding = "RoleBinding"
kind_name secret = "Secret"
kind_name http_route = "HTTPRoute"
kind_name certificate = "Certificate"
kind_name service_monitor = "ServiceMonitor"
kind_name pod_monitor = "PodMonitor"
kind_name prometheus_rule = "PrometheusRule"
kind_name reference_grant = "ReferenceGrant"

own_installed_iff :
    (mapper : RestMapper) (objects : List ObjectType) (s : Source EventHandler)
    → Memᴰ s (own_installed mapper objects) ↔ (
        (object : ObjectType) × Memᴰ object objects
        × (is_crd_installed mapper object ≡ true)
        × (s ≡ owns object))
unfolding own_installed
own_installed_iff mapper [] s = ((λ m. elim m [ ]), λ h. elim h.1 [ ])
own_installed_iff mapper (first ∷ objects) s = (
  (λ m. elim (mem-append_cases s _ _ m) [
    | inl n ↦
        let (i, e) = (mem-if_installed_iff mapper first (owns first) s).0 n in
        (first, Memᴰ.head refl, i, e)
    | inr n ↦
        let (object, k, i, e) = (own_installed_iff mapper objects s).0 n in
        (object, Memᴰ.tail k, i, e)
  ]),
  (λ (object, m, i, e). elim (mem-cons_cases object first objects m) [
    | inl p ↦ mem-append_left s _ _ (
        (mem-if_installed_iff mapper first (owns first) s).1
          (cc (ap (is_crd_installed mapper) p, i), e ∙ ap owns p))
    | inr n ↦ mem-append_right s _ _ ((own_installed_iff mapper objects s).1 (object, n, i, e))
  ]),
)

-- Owned objects are watched exactly for the built-in kinds and the installed optional ones.
owns_iff :
    (mapper : RestMapper) (object : ObjectType)
    → Memᴰ (owns object) (gateway_sources mapper) ↔ (
        Memᴰ object built_in_kinds
        ⊎ (Memᴰ object optional_owns × (is_crd_installed mapper object ≡ true)))
unfolding gateway_sources
owns_iff mapper object = (there, back)
  where
    built : List (Source EventHandler)
    built = map owns built_in_kinds

    middle : List (Source EventHandler)
    middle = watches secret on_secret ∷ own_installed mapper optional_owns

    later :
        Memᴰ (owns object) middle
        → Memᴰ object optional_owns × (is_crd_installed mapper object ≡ true)
    later (Memᴰ.head e) = absurd (cc)
    later (Memᴰ.tail m) =
        let (o, k, i, e) = (own_installed_iff mapper optional_owns (owns object)).0 m in
        let same : object ≡ o = cc e in
        (subst (λ x. Memᴰ x optional_owns) (sym same) k, cc (ap (is_crd_installed mapper) same, i))

    there :
        Memᴰ (owns object) (gateway_sources mapper)
        → Memᴰ object built_in_kinds
          ⊎ (Memᴰ object optional_owns × (is_crd_installed mapper object ≡ true))
    there (Memᴰ.head e) = absurd (cc)
    there (Memᴰ.tail m) = elim (mem-append_cases (owns object) built _ m) [
      | inl n ↦
          let (o, k, e) = mem_of_mem-map owns (owns object) built_in_kinds n in
          let same : object ≡ o = cc e in inl (subst (λ x. Memᴰ x built_in_kinds) (sym same) k)
      | inr n ↦ elim (mem-append_cases (owns object) middle _ n) [
        | inl k ↦ inr (later k)
        | inr k ↦ absurd (cc ((mem-if_installed_iff mapper reference_grant _ (owns object)).0 k).1)
      ]
    ]

    back :
        Memᴰ object built_in_kinds
          ⊎ (Memᴰ object optional_owns × (is_crd_installed mapper object ≡ true))
        → Memᴰ (owns object) (gateway_sources mapper)
    back (inl m) =
        Memᴰ.tail (mem-append_left (owns object) built _ (mem-map_of_mem owns object _ m))
    back (inr (m, i)) = Memᴰ.tail (
        mem-append_right (owns object) built _ (
          mem-append_left (owns object) middle _
            (Memᴰ.tail ((own_installed_iff mapper optional_owns _).1 (object, m, i, refl)))))

abbrev owned_kinds : List String
owned_kinds = map kind_name (built_in_kinds ++ optional_owns)

abbrev managed_kinds : List String
managed_kinds = map (λ (gvk : Gvk). gvk.kind) managed_gvks

all_found :
    (xs ys : List String) → All (λ x. member x ys ≡ true) xs → (x : String) → Memᴰ x xs → Memᴰ x ys
all_found xs ys h x m = member→mem x ys (All-mem _ xs h x m)

managed_in_owned : All (λ k. member k owned_kinds ≡ true) managed_kinds
unfolding member
managed_in_owned = (
  refl,
  (refl, (refl, (refl, (refl, (refl, (refl, (refl, (refl, (refl, (refl, (refl, tt))))))))))),
)

-- Every kind that the cleanup lists for orphans has a Go type, and the objects of that type that a
-- resource owns are watched exactly if the type is built in or its CRD is installed.
pub managed_kind_watched :
    (mapper : RestMapper) (gvk : Gvk)
    → Memᴰ gvk managed_gvks
    → (object : ObjectType) × (kind_name object ≡ gvk.kind)
      × (Memᴰ (owns object) (gateway_sources mapper)
          ↔ (Memᴰ object built_in_kinds ⊎ (is_crd_installed mapper object ≡ true)))
managed_kind_watched mapper gvk m =
    let n =
      all_found managed_kinds owned_kinds managed_in_owned gvk.kind
        (mem-map_of_mem (λ (g : Gvk). g.kind) gvk managed_gvks m) in
    let (object, k, e) = mem_of_mem-map kind_name gvk.kind (built_in_kinds ++ optional_owns) n in
    let (there, back) = owns_iff mapper object in
    (
      object,
      sym e,
      (
        (λ h. elim (there h) [ inl b ↦ inl b | inr o ↦ inr o.1 ]),
        λ h. back (elim (mem-append_cases object built_in_kinds optional_owns k) [
          | inl b ↦ inl b
          | inr o ↦ elim h [ inl b ↦ inl b | inr i ↦ inr (o, i) ]
        ]),
      ),
    )
