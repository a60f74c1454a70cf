-- ===== src/Examples/Runs.antt =====
-- The theorems on the reconciler, used on the sample cluster.
use llm_d_batch_gateway_oper.Prelude.{String, ◌≡◌, refl, true, List, [], ◌∷◌, Option, none, some}
use llm_d_batch_gateway_oper.Prelude.Int.{pos}
use llm_d_batch_gateway_oper.Controller.Errors.{ok}
use llm_d_batch_gateway_oper.Controller.Grants.{some_match, reference_grant_permits}
use llm_d_batch_gateway_oper.Controller.Objects.{any_reference, is_controller_owned_by}
use llm_d_batch_gateway_oper.Controller.Orphans.{
  delete_items, delete_kinds, delete_orphaned_resources, has_key, is_orphan,
}
use llm_d_batch_gateway_oper.Controller.Secrets.{
  resolve_secret, secret_namespace, resolve_foreign, check_reference_grant, copy_source,
  sync_secret_copy, apply_copy,
}
use llm_d_batch_gateway_oper.Controller.Status.{
  apply_patch, update_status, update_with_deployments, update_with_stateful_sets, write_status,
}
use llm_d_batch_gateway_oper.Controller.Reconcile.{
  reconcile_gateway, with_secret, apply_objects, deploy,
}
use llm_d_batch_gateway_oper.Examples.Values.{sample_accepted}
use mathlib.Core.List.{Memᴰ}
use llm_d_batch_gateway_oper.Prelude.{◌⊎◌, ◌↔◌, ◌++◌, All, ne_of_false, if◌then◌else◌}
use llm_d_batch_gateway_oper.Helm.Images.{contains_char}
use llm_d_batch_gateway_oper.Controller.Errors.{ApiError}
use llm_d_batch_gateway_oper.Controller.Objects.{gvk_of}
use llm_d_batch_gateway_oper.Controller.Conditions.{
  condition_ready, condition_status, all_condition_types, all_ready,
}
use llm_d_batch_gateway_oper.Controller.Cluster.{
  Call, conditions, component_status, observed_generation, patched_status,
}
use llm_d_batch_gateway_oper.Controller.Grants.{Permits, reference_grant_permits_iff}
use llm_d_batch_gateway_oper.Controller.Orphans.{desired_keys}
use llm_d_batch_gateway_oper.Controller.Orphans.Safety.{
  IsOrphanCall, IsFine, delete_orphaned_resources_outcome,
}
use llm_d_batch_gateway_oper.Controller.Orphans.Completeness.{KindDone, every_orphan_deleted}
use llm_d_batch_gateway_oper.Controller.Secrets.Safety.{
  IsGuarded, IsCopied, resolve_secret-IsGuarded, resolve_secret-ok,
}
use llm_d_batch_gateway_oper.Controller.Secrets.Immutable.{IsPinned, resolve_secret-IsPinned}
use llm_d_batch_gateway_oper.Prelude.Assoc.{lookup}
use llm_d_batch_gateway_oper.Controller.Watch.{request_for, Request}
use llm_d_batch_gateway_oper.Controller.Status.{no_component_status, has_status, fail_conditions}
use llm_d_batch_gateway_oper.Controller.Status.Ready.{
  all_available, ready_call, IsReported, AllReported, write_status_reports,
}
use llm_d_batch_gateway_oper.Controller.Status.Failure.{failed_condition, fail_conditions_lem}
use llm_d_batch_gateway_oper.Controller.Traces.{Guarded}
use llm_d_batch_gateway_oper.Controller.Reconcile.{reconcile}
use llm_d_batch_gateway_oper.Controller.Reconcile.Trace.{IsJustified, IsSynced}
use llm_d_batch_gateway_oper.Controller.Reconcile.Rotation.{now, reconciled, synced_secret_wakes}
use llm_d_batch_gateway_oper.Controller.Registration.{on_secret}
use llm_d_batch_gateway_oper.Controller.Cluster.{Cluster, Secret, State}
use llm_d_batch_gateway_oper.Controller.Reconcile.Safety.{
  reconcile_deletes_last, reconcile-IsSynced, IsCountedAsOther, reconcile-counted,
}
use llm_d_batch_gateway_oper.Examples.{
  Table, sample_laws, sample_object, sample_secret, sample_grant, sample_gateway, sample_cluster,
  sample_set_owner, sample_state, sample_status, sample_reconciler, sample_api,
}

sample_resolved :
    (resolve_secret sample_cluster sample_set_owner sample_gateway sample_state).0
    ≡ ok "gw-credentials"
unfolding resolve_secret secret_namespace resolve_foreign check_reference_grant some_match
    reference_grant_permits copy_source sync_secret_copy apply_copy
sample_resolved = refl

sample_synced :
    (reconcile_gateway sample_cluster sample_api sample_set_owner sample_reconciler sample_gateway
      sample_status sample_state).0
    ≡ ok (some (pos 60))
unfolding reconcile_gateway with_secret apply_objects deploy delete_items delete_kinds
    delete_orphaned_resources has_key is_orphan any_reference is_controller_owned_by apply_patch
    update_status update_with_deployments update_with_stateful_sets write_status resolve_secret
    secret_namespace resolve_foreign check_reference_grant some_match reference_grant_permits
    copy_source sync_secret_copy apply_copy
sample_synced = rw sample_accepted refl

resolve_secret-IsGuarded_example :
    let (result, s') = resolve_secret sample_cluster sample_set_owner sample_gateway sample_state in
    (new : List (Call Table)) × (s'.calls ≡ new ++ []) × IsGuarded sample_gateway new
resolve_secret-IsGuarded_example =
    resolve_secret-IsGuarded sample_cluster sample_set_owner sample_gateway sample_state

resolve_secret-ok_example :
    let s' = (resolve_secret sample_cluster sample_set_owner sample_gateway sample_state).1 in
    (◌≡◌ {A = String} (secret_namespace sample_gateway) "prod"
      × ◌≡◌ {A = String} "gw-credentials" "creds"
      × (s'.calls ≡ []))
    ⊎ ((new : List (Call Table)) × (s'.calls ≡ new ++ [])
        × IsCopied sample_gateway sample_set_owner "gw-credentials" new)
resolve_secret-ok_example =
    resolve_secret-ok sample_cluster sample_set_owner sample_gateway sample_state "gw-credentials"
      sample_resolved

reconcile_deletes_last_example :
    let (reply, s') =
      reconcile_gateway sample_cluster sample_api sample_set_owner sample_reconciler sample_gateway
        sample_status sample_state in
    (new : List (Call Table)) × (s'.calls ≡ new ++ [])
    × Guarded (IsJustified sample_reconciler sample_gateway) new
reconcile_deletes_last_example =
    reconcile_deletes_last sample_cluster sample_api sample_set_owner sample_reconciler
      sample_gateway sample_status sample_state

reconcile-IsSynced_example :
    (new : List (Call Table)) × ((reconcile_gateway sample_cluster sample_api sample_set_owner
        sample_reconciler sample_gateway sample_status sample_state).1.calls
      ≡ new ++ [])
    × IsSynced sample_reconciler sample_gateway (pos 60) new
reconcile-IsSynced_example =
    reconcile-IsSynced sample_cluster sample_api sample_set_owner sample_reconciler sample_gateway
      sample_status sample_state (pos 60) sample_synced

abbrev sample_request : Request
sample_request = record { name = "gw"; namespace = "prod" }

reconcile-counted_example :
    let (reply, s') =
      reconcile sample_cluster sample_api sample_set_owner sample_reconciler sample_request
        sample_state in
    IsCountedAsOther reply
reconcile-counted_example =
    reconcile-counted sample_cluster sample_api sample_set_owner sample_reconciler sample_request
      sample_state

delete_orphaned_resources_outcome_example :
    let (error, s') =
      delete_orphaned_resources sample_cluster sample_gateway
        (sample_object "gw-apiserver" ∷ [])
        sample_state in
    (new : List (Call Table)) × (s'.calls ≡ new ++ [])
    × All (IsOrphanCall sample_gateway (desired_keys (sample_object "gw-apiserver" ∷ []))) new
    × ((error ≡ none) ↔ All IsFine new)
delete_orphaned_resources_outcome_example =
    delete_orphaned_resources_outcome sample_cluster sample_gateway
      (sample_object "gw-apiserver" ∷ []) sample_state

every_orphan_deleted_example :
    KindDone sample_gateway
      (desired_keys (sample_object "gw-apiserver" ∷ []))
      (gvk_of "apps" "v1" "Deployment")
      (delete_orphaned_resources sample_cluster sample_gateway
        (sample_object "gw-apiserver" ∷ [])
        sample_state).1.calls
every_orphan_deleted_example =
    every_orphan_deleted sample_cluster sample_gateway (sample_object "gw-apiserver" ∷ [])
      sample_state (gvk_of "apps" "v1" "Deployment") (Memᴰ.head refl)

write_status_reports_example :
    let ready = all_available no_component_status in
    (cs : Table) × (answer : Option ApiError) × ((write_status sample_cluster sample_api
        sample_gateway sample_status no_component_status sample_state).1.calls
      ≡ patched_status
          (record {
            resource_version = "41";
            fields =
                conditions cs
                ∷ component_status (some no_component_status)
                ∷ observed_generation (pos 2)
                ∷ [];
          })
          answer
        ∷ (if has_status none (condition_status ready) then [] else ready_call ready ∷ []))
    × IsReported sample_api sample_gateway cs condition_ready ready
    × AllReported sample_api sample_gateway cs no_component_status
write_status_reports_example =
    write_status_reports sample_cluster sample_api sample_laws sample_gateway sample_status
      no_component_status sample_state

fail_conditions_lem_example :
    let failed =
      fail_conditions sample_api sample_gateway "RenderFailed" all_ready all_condition_types
        sample_status.conditions in
    ((type : String)
      → Memᴰ type all_condition_types
      → failed type ≡ some (failed_condition sample_gateway "RenderFailed" all_ready type))
    × ((type : String) → ¬ Memᴰ type all_condition_types → failed type ≡ none)
fail_conditions_lem_example =
    fail_conditions_lem sample_api sample_laws sample_gateway "RenderFailed" all_ready
      all_condition_types sample_status.conditions

-- The state after a first reconcile, and after another.
abbrev after_first : State (Unit {0}) Table
after_first =
    (reconcile_gateway sample_cluster sample_api sample_set_owner sample_reconciler sample_gateway
      sample_status sample_state).1

abbrev after_second : State (Unit {0}) Table
after_second =
    (reconcile sample_cluster sample_api sample_set_owner sample_reconciler sample_request
      after_first).1

synced_secret_wakes_example :
    Memᴰ
      (request_for sample_gateway)
      (on_secret "vault" "creds" after_second.watched (ok (sample_gateway ∷ [])))
synced_secret_wakes_example =
    synced_secret_wakes sample_cluster sample_api sample_set_owner sample_reconciler sample_gateway
      sample_status sample_state after_second (pos 60) (sample_gateway ∷ [])
      (ne_of_false "vault" "" refl) (ne_of_false "vault" "prod" refl) sample_synced
      (reconciled sample_request now) (Memᴰ.head refl)

-- The managed copy exists, of another Secret of the same namespace.
abbrev old_copy : Secret
old_copy = record sample_secret { annotations = ("batch.llm-d.ai/copied-from", "vault/other") ∷ [] }

abbrev copied_cluster : Cluster (Unit {0}) Table
copied_cluster = record sample_cluster { get_secret = λ namespace name w. (ok old_copy, w) }

resolve_secret-IsPinned_example :
    IsPinned copied_cluster sample_set_owner sample_gateway old_copy "vault" "other" sample_state
unfolding secret_namespace contains_char lookup
resolve_secret-IsPinned_example =
    resolve_secret-IsPinned copied_cluster sample_set_owner sample_gateway old_copy "vault" "other"
      sample_state refl refl (ne_of_false "vault" "prod" refl) refl refl

reference_grant_permits_iff_example :
    (reference_grant_permits sample_grant "prod" "creds" ≡ true)
    ↔ Permits sample_grant "prod" "creds"
reference_grant_permits_iff_example = reference_grant_permits_iff sample_grant "prod" "creds"
