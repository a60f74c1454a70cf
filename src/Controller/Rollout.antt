-- ===== src/Controller/Rollout.antt =====
-- Replica counts of Deployments and StatefulSets, and what they report while a rollout is running
-- (`deploymentReplicaStatus`, `statefulSetReplicaStatus`, `reportedReadyReplicas`).
use llm_d_batch_gateway_oper.Prelude.{
  String, Bool, not, ◌&&◌, ◌==◌, Option, none, some, List, if◌then◌else◌,
}
use llm_d_batch_gateway_oper.Prelude.Assoc.{Assoc}
use llm_d_batch_gateway_oper.Prelude.Int.{ℤ, pos, leb_ℤ, ltb_ℤ, eqb_ℤ}
use llm_d_batch_gateway_oper.Api.Status.{ComponentReplicaStatus}
use llm_d_batch_gateway_oper.Controller.Objects.{OwnerReference}

pub record Deployment : Type 0 where
  pub labels : Assoc String
  pub owners : List OwnerReference
  pub generation : ℤ
  pub spec_replicas : Option ℤ
  pub observed_generation : ℤ
  pub updated_replicas : ℤ
  pub replicas : ℤ
  pub ready_replicas : ℤ

pub record StatefulSet : Type 0 where
  pub labels : Assoc String
  pub owners : List OwnerReference
  pub generation : ℤ
  pub spec_replicas : Option ℤ
  pub observed_generation : ℤ
  pub updated_replicas : ℤ
  pub replicas : ℤ
  pub ready_replicas : ℤ
  pub current_revision : String
  pub update_revision : String

-- `desired`: the API server's default is one replica.
abbrev pub desired_replicas : Option ℤ → ℤ
desired_replicas none = pos 1
desired_replicas (some n) = n

unfoldable pub reported_ready_replicas : ℤ → ℤ → Bool → ℤ
reported_ready_replicas ready desired rolled_out =
    if not rolled_out then pos 0 else if ltb_ℤ desired ready then desired else ready

unfoldable pub deployment_rolled_out : Deployment → Bool
deployment_rolled_out d =
    let desired = desired_replicas d.spec_replicas in
    leb_ℤ d.generation d.observed_generation
    && eqb_ℤ d.updated_replicas desired
    && eqb_ℤ d.replicas desired
    && leb_ℤ desired d.ready_replicas

unfoldable pub deployment_replica_status : Deployment → ComponentReplicaStatus
unfolding deployment_rolled_out reported_ready_replicas
deployment_replica_status d =
    let desired = desired_replicas d.spec_replicas in
    record {
      replicas = desired;
      ready_replicas = reported_ready_replicas d.ready_replicas desired (deployment_rolled_out d);
    }

unfoldable pub stateful_set_rolled_out : StatefulSet → Bool
stateful_set_rolled_out ss =
    let desired = desired_replicas ss.spec_replicas in
    leb_ℤ ss.generation ss.observed_generation
    && eqb_ℤ ss.updated_replicas desired
    && eqb_ℤ ss.replicas desired
    && leb_ℤ desired ss.ready_replicas
    && ss.current_revision == ss.update_revision

unfoldable pub stateful_set_replica_status : StatefulSet → ComponentReplicaStatus
unfolding stateful_set_rolled_out reported_ready_replicas
stateful_set_replica_status ss =
    let desired = desired_replicas ss.spec_replicas in
    record {
      replicas = desired;
      ready_replicas =
          reported_ready_replicas ss.ready_replicas desired (stateful_set_rolled_out ss);
    }

-- The test by which `setComponentAvailableCondition` calls a component available.
unfoldable pub is_available : ComponentReplicaStatus → Bool
is_available s = ltb_ℤ (pos 0) s.replicas && leb_ℤ s.replicas s.ready_replicas
