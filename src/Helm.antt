-- ===== src/Helm.antt =====
-- Shared parts of the Helm values (internal/controller/helm.go): image references, the monitoring
-- labels, and parameters that may hold JSON.
pub mod Images
pub mod AsyncTransport
pub mod Async
pub mod Batch
pub mod Render
pub mod Transport
pub mod Accepted
pub mod Agreement
pub mod QueueUrls
pub mod Pinned
pub mod Rendered
use llm_d_batch_gateway_oper.Prelude.{String, Option, none, some, Bool, List, [], ◌∷◌}
use llm_d_batch_gateway_oper.Prelude.Assoc.{Assoc}
use llm_d_batch_gateway_oper.Value.{
  Value, str, bool, obj, Fields, end, put, put_some, ◌▹◌, to_string_interface_map, is_nonempty,
  put_if,
}
use llm_d_batch_gateway_oper.Api.Shared.{ResourceRequirements, ResourceList}
use llm_d_batch_gateway_oper.Prelude.Assoc.{lookup}

pub record ComponentImages : Type 0 where
  pub api_server : String
  pub processor : String
  pub gc : String
  pub async : String

-- What `json.Unmarshal` into an `any` yields; `none` if the text is no JSON.
abbrev pub Unmarshal : Type 0
Unmarshal = String → Option Value

-- The parsed value, unless there is none or it is a string.
unfoldable pub json_aware : Option Value → String → Value
json_aware none v = str v
json_aware (some (str parsed)) v = str v
json_aware (some parsed) v = parsed

unfoldable pub json_aware_fields : Unmarshal → Assoc String → Fields
unfolding json_aware
json_aware_fields unmarshal [] = end
json_aware_fields unmarshal ((k, v) ∷ m) =
    put k (json_aware (unmarshal v) v) (json_aware_fields unmarshal m)

-- `toJSONAwareMap`
unfoldable pub to_json_aware_map : Unmarshal → Assoc String → Value
unfolding json_aware_fields
to_json_aware_map unmarshal m = obj (json_aware_fields unmarshal m)

-- The labels of a ServiceMonitor or PodMonitor that OpenDataHub's monitoring selects.
unfoldable pub scrape_monitor : Value
scrape_monitor = obj (
    end
    ▹ put "enabled" (bool Bool.true)
    ▹ put "labels" (obj (end ▹ put "monitoring.opendatahub.io/scrape" (str "true"))))

-- The cpu and memory of one resource list.
unfoldable pub resource_list_fields : ResourceList → Value
resource_list_fields rl =
    obj (end ▹ put_some str "cpu" (lookup "cpu" rl) ▹ put_some str "memory" (lookup "memory" rl))

unfoldable pub resource_requirements_to_map : ResourceRequirements → Value
unfolding resource_list_fields
resource_requirements_to_map r = obj (
    end
    ▹ put_some resource_list_fields "limits" r.limits
    ▹ put_some resource_list_fields "requests" r.requests)

-- `{"name": s.Name}` for an image pull secret
unfoldable pub named : String → Value
named name = obj (end ▹ put "name" (str name))
