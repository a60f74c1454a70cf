-- ===== src/Examples/Values.antt =====
-- The theorems on validation, queues, Helm values and replica counts, used on the sample resource.
use Prim.Native.String
use llm_d_batch_gateway_oper.Prelude.{String, ◌≡◌, refl, true, [], ◌∷◌, member, Option, none, some}
use llm_d_batch_gateway_oper.Prelude.Assoc.{HasDistinctKeys, lookup}
use llm_d_batch_gateway_oper.Prelude.Sorting.{sorted}
use llm_d_batch_gateway_oper.Validate.{
  validate_spec, validate_async_config, model_gateway_rules, validate_transport,
  validate_async_redis_config, validate_async_queue_gateway_url, validate_async_prometheus_gates,
  queue_gates, is_prometheus_gate, pool_gates,
}
use llm_d_batch_gateway_oper.Queues.{
  redis_queues, default_async_queues, distinct_queues, sorted_model_gateways, sorted_model_names,
}
use mathlib.Core.List.{Memᴰ}
use llm_d_batch_gateway_oper.Prelude.{◌↔◌, ◌⊎◌, eq_iff, arith, Distinct, ne_of_false}
use llm_d_batch_gateway_oper.Prelude.Assoc.{Assoc, SameMap}
use llm_d_batch_gateway_oper.Prelude.Int.{pos, ◌≤ℤ◌}
use llm_d_batch_gateway_oper.Prelude.Sorting.{SameMembers}
use llm_d_batch_gateway_oper.Api.Components.{ModelGatewaySpec}
use llm_d_batch_gateway_oper.Queues.{queue_names, published_queues}
use llm_d_batch_gateway_oper.Queues.Names.{default_async_queues_names}
use llm_d_batch_gateway_oper.Validate.Rules.{IsSpecValid}
use llm_d_batch_gateway_oper.Validate.Decides.{validate_spec_decides}
use llm_d_batch_gateway_oper.Validate.Guarantees.{
  dispatcher_queues, with_models, validate_spec_order_free,
}
use llm_d_batch_gateway_oper.Value.{Value, str}
use llm_d_batch_gateway_oper.Value.Path.{path}
use llm_d_batch_gateway_oper.Tls.{ProfileValues}
use llm_d_batch_gateway_oper.Helm.{ComponentImages}
use llm_d_batch_gateway_oper.Helm.Async.{spec_to_async_helm_values}
use llm_d_batch_gateway_oper.Helm.Batch.Values.{spec_to_batch_helm_values}
use llm_d_batch_gateway_oper.Helm.Images.{
  split_image, contains_char, IsTag, split_image_lem, split_image-join,
}
use llm_d_batch_gateway_oper.Helm.Agreement.{transports_agree, always_async, credentials_agree}
use llm_d_batch_gateway_oper.Helm.QueueUrls.{QueuesListed, every_queue-HasUrl}
use llm_d_batch_gateway_oper.Controller.Rollout.{
  deployment_replica_status, stateful_set_replica_status, is_available,
}
use llm_d_batch_gateway_oper.Controller.Availability.{
  IsRolledOut, deployment_available_iff, stateful_set_available_iff, ready_within_desired,
}
use llm_d_batch_gateway_oper.Examples.{
  sample_gateway, sample_models, sample_model, sample_config, sample_redis, sample_deployment,
  sample_stateful_set,
}

-- A map with one key.
pub sample_distinct : HasDistinctKeys sample_models
sample_distinct = ((λ m. elim m [ ]), tt)

pub sample_accepted : validate_spec sample_gateway ≡ none
unfolding validate_spec validate_async_config model_gateway_rules validate_transport
    validate_async_redis_config validate_async_queue_gateway_url validate_async_prometheus_gates
    queue_gates is_prometheus_gate pool_gates redis_queues default_async_queues distinct_queues
    sorted_model_gateways sorted_model_names sorted member
sample_accepted = refl

validate_spec_decides_example : (validate_spec sample_gateway ≡ none) ↔ IsSpecValid sample_gateway
validate_spec_decides_example = validate_spec_decides sample_gateway sample_distinct

-- The two listings of one map.
abbrev two_models : Assoc ModelGatewaySpec
two_models = ("a", sample_model) ∷ ("b", sample_model) ∷ []

abbrev two_models_turned : Assoc ModelGatewaySpec
two_models_turned = ("b", sample_model) ∷ ("a", sample_model) ∷ []

two_distinct : HasDistinctKeys two_models
two_distinct = (
  (λ m. elim m [ Memᴰ.head e ↦ absurd (ne_of_false "a" "b" refl e) | Memᴰ.tail n ↦ elim n [ ] ]),
  ((λ m. elim m [ ]), tt),
)

two_turned_distinct : HasDistinctKeys two_models_turned
two_turned_distinct = (
  (λ m. elim m [ Memᴰ.head e ↦ absurd (ne_of_false "b" "a" refl e) | Memᴰ.tail n ↦ elim n [ ] ]),
  ((λ m. elim m [ ]), tt),
)

two_same : SameMap two_models two_models_turned
unfolding lookup
two_same k = ground (arith, eq_iff "a" k, eq_iff "b" k)

validate_spec_order_free_example :
    (validate_spec (with_models sample_gateway two_models) ≡ none)
    ↔ (validate_spec (with_models sample_gateway two_models_turned) ≡ none)
validate_spec_order_free_example =
    validate_spec_order_free sample_gateway two_models two_models_turned two_distinct
      two_turned_distinct two_same

default_async_queues_names_example :
    Distinct (queue_names (default_async_queues two_models))
    × SameMembers (queue_names (default_async_queues two_models)) (published_queues two_models)
default_async_queues_names_example = default_async_queues_names two_models

abbrev sample_images : ComponentImages
sample_images = record {
  api_server = "quay.io/llm-d/api:v1";
  processor = "quay.io/llm-d/processor:v1";
  gc = "quay.io/llm-d/gc:v1";
  async = "quay.io/llm-d/async:v1";
}

abbrev sample_profile : ProfileValues
sample_profile = record { min_version = "1.2"; cipher_suites = ""; next_protos = "" }

-- A decoder that finds no JSON.
abbrev no_json : String → Option Value
no_json text = none

transports_agree_example :
    (path
        ("processor" ∷ "config" ∷ "asyncDispatch" ∷ "transport" ∷ [])
        (spec_to_batch_helm_values sample_gateway "creds" sample_images sample_profile)
      ≡ some (str "redis-sortedset"))
    × (path
          ("ap" ∷ "transport" ∷ [])
          (spec_to_async_helm_values no_json sample_gateway "creds" sample_images)
        ≡ some (str "redis-sortedset"))
transports_agree_example =
    transports_agree no_json sample_gateway "creds" sample_images sample_profile sample_config
      sample_distinct refl sample_accepted

always_async_example :
    path
      ("processor" ∷ "config" ∷ "dispatchMode" ∷ [])
      (spec_to_batch_helm_values sample_gateway "creds" sample_images sample_profile)
    ≡ some (str "async")
always_async_example = always_async sample_gateway "creds" sample_images sample_profile

credentials_agree_example :
    (path
        ("global" ∷ "secretName" ∷ [])
        (spec_to_batch_helm_values sample_gateway "creds" sample_images sample_profile)
      ≡ some (str "creds"))
    × (path
          ("ap" ∷ "transportConfig" ∷ "urlSecret" ∷ "name" ∷ [])
          (spec_to_async_helm_values no_json sample_gateway "creds" sample_images)
        ≡ some (str "creds"))
    × (path
          ("ap" ∷ "transportConfig" ∷ "urlSecret" ∷ "key" ∷ [])
          (spec_to_async_helm_values no_json sample_gateway "creds" sample_images)
        ≡ some (str "redis-url"))
credentials_agree_example =
    credentials_agree no_json sample_gateway "creds" sample_images sample_profile sample_config
      sample_distinct refl sample_accepted

every_queue-HasUrl_example :
    QueuesListed sample_config.inference_gateway
      (path
        ("ap" ∷ "transportConfig" ∷ "queues" ∷ [])
        (spec_to_async_helm_values no_json sample_gateway "creds" sample_images))
      (dispatcher_queues sample_models (some sample_redis) none)
every_queue-HasUrl_example =
    every_queue-HasUrl no_json sample_gateway "creds" sample_images sample_config sample_distinct
      refl sample_accepted

split_image_lem_example :
    ((repo : String) × (tag : String) × (Prim.Native.String.◌++◌ repo
          (Prim.Native.String.◌++◌ ":" tag)
        ≡ "host:5000/api")
      × IsTag tag
      × (split_image "host:5000/api" ≡ (repo, tag)))
    ⊎ (((repo tag : String)
          → Prim.Native.String.◌++◌ repo (Prim.Native.String.◌++◌ ":" tag) ≡ "host:5000/api"
          → ¬ IsTag tag)
        × (split_image "host:5000/api" ≡ ("host:5000/api", "latest")))
split_image_lem_example = split_image_lem "host:5000/api"

split_image-join_example :
    split_image (Prim.Native.String.◌++◌ "quay.io/api" (Prim.Native.String.◌++◌ ":" "v1"))
    ≡ ("quay.io/api", "v1")
unfolding contains_char
split_image-join_example = split_image-join "quay.io/api" "v1" (refl, refl)

deployment_available_iff_example :
    (is_available (deployment_replica_status sample_deployment) ≡ true)
    ↔ IsRolledOut (pos 2) (pos 3) (pos 3) (pos 2) (pos 2) (pos 2)
deployment_available_iff_example = deployment_available_iff sample_deployment

stateful_set_available_iff_example :
    (is_available (stateful_set_replica_status sample_stateful_set) ≡ true) ↔ (
      IsRolledOut (pos 1) (pos 3) (pos 3) (pos 1) (pos 1) (pos 1)
      × (sample_stateful_set.current_revision ≡ sample_stateful_set.update_revision))
stateful_set_available_iff_example = stateful_set_available_iff sample_stateful_set

ready_within_desired_example :
    ((deployment_replica_status sample_deployment).ready_replicas
      ≤ℤ (deployment_replica_status sample_deployment).replicas)
    × ((stateful_set_replica_status sample_stateful_set).ready_replicas
        ≤ℤ (stateful_set_replica_status sample_stateful_set).replicas)
ready_within_desired_example =
    ready_within_desired sample_deployment sample_stateful_set (ground arith) (ground arith)
