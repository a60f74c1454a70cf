-- ===== src/Controller/Objects.antt =====
-- Rendered and listed objects, the kinds that the operator manages, and ownership.
use llm_d_batch_gateway_oper.Prelude.{
  String, Bool, true, false, ◌&&◌, ◌==◌, if◌then◌else◌, List, [], ◌∷◌, Option, none, some,
}
use llm_d_batch_gateway_oper.Prelude.Assoc.{Assoc}
use llm_d_batch_gateway_oper.Api.Gateway.{LlmBatchGateway}

pub record OwnerReference : Type 0 where
  pub uid : String
  pub kind : String
  pub api_version : String
  pub controller : Option Bool

-- schema.GroupVersionKind
pub record Gvk : Type 0 where
  pub group : String
  pub version : String
  pub kind : String

-- unstructured.Unstructured, as far as the operator reads and writes it; `content` is the rest.
pub record Object : Type 0 where
  pub gvk : Gvk
  pub name : String
  pub namespace : String
  pub labels : Assoc String
  pub owners : List OwnerReference
  pub content : String

abbrev pub gvk_of : String → String → String → Gvk
gvk_of g v k = record { group = g; version = v; kind = k }

abbrev pub managed_gvks : List Gvk
managed_gvks =
    gvk_of "apps" "v1" "Deployment"
    ∷ gvk_of "apps" "v1" "StatefulSet"
    ∷ gvk_of "" "v1" "Service"
    ∷ gvk_of "" "v1" "ConfigMap"
    ∷ gvk_of "" "v1" "ServiceAccount"
    ∷ gvk_of "rbac.authorization.k8s.io" "v1" "Role"
    ∷ gvk_of "rbac.authorization.k8s.io" "v1" "RoleBinding"
    ∷ gvk_of "cert-manager.io" "v1" "Certificate"
    ∷ gvk_of "gateway.networking.k8s.io" "v1" "HTTPRoute"
    ∷ gvk_of "monitoring.coreos.com" "v1" "ServiceMonitor"
    ∷ gvk_of "monitoring.coreos.com" "v1" "PodMonitor"
    ∷ gvk_of "monitoring.coreos.com" "v1" "PrometheusRule"
    ∷ []

pub record ResourceKey : Type 0 where
  pub group : String
  pub kind : String
  pub name : String

abbrev pub same_key : ResourceKey → ResourceKey → Bool
same_key a b = a.group == b.group && a.kind == b.kind && a.name == b.name

-- `batchv1alpha1.GroupVersion`
abbrev pub group_name : String
group_name = "batch.llm-d.ai"

abbrev pub group_version : String
group_version = "batch.llm-d.ai/v1alpha1"

abbrev pub is_true : Option Bool → Bool
is_true none = false
is_true (some b) = b

abbrev pub is_controller_reference : LlmBatchGateway → OwnerReference → Bool
is_controller_reference owner ref =
    ref.uid == owner.uid
    && ref.kind == "LLMBatchGateway"
    && ref.api_version == group_version
    && is_true ref.controller

unfoldable pub any_reference : (OwnerReference → Bool) → List OwnerReference → Bool
any_reference test [] = false
any_reference test (ref ∷ refs) =
    let rest = any_reference test refs in if test ref then true else rest

unfoldable pub is_controller_owned_by : List OwnerReference → LlmBatchGateway → Bool
is_controller_owned_by owners owner = any_reference (is_controller_reference owner) owners

unfoldable pub is_owned_by : List OwnerReference → LlmBatchGateway → Bool
is_owned_by owners owner = any_reference (λ ref. ref.uid == owner.uid) owners
