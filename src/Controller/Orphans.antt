-- ===== src/Controller/Orphans.antt =====
-- `deleteOrphanedResources`: what the charts no longer render is deleted.
pub mod Safety
pub mod Completeness
use llm_d_batch_gateway_oper.Prelude.{
  String, Bool, true, false, not, ◌||◌, List, [], ◌∷◌, ◌++◌, map, Option, none, some, if◌then◌else◌,
}
use llm_d_batch_gateway_oper.Api.Gateway.{LlmBatchGateway}
use llm_d_batch_gateway_oper.Controller.Errors.{
  ApiError, Result, ok, err, OrphanError, listing, deleting, is_missing_kind, is_not_found, GoError,
  deleting_orphans,
}
use llm_d_batch_gateway_oper.Controller.Objects.{
  Gvk, Object, ResourceKey, same_key, managed_gvks, is_controller_owned_by,
}
use llm_d_batch_gateway_oper.Controller.Cluster.{
  Cluster, State, listed, deleted, Act, pure, ◌>>=◌, ◌>>◌, perform,
}

-- The key under which an object of the kind is wanted; the version does not count.
abbrev pub key_of : Gvk → Object → ResourceKey
key_of gvk item = record { group = gvk.group; kind = gvk.kind; name = item.name }

-- `desired`
abbrev pub desired_keys : List Object → List ResourceKey
desired_keys [] = []
desired_keys (obj ∷ objects) = key_of obj.gvk obj ∷ desired_keys objects

unfoldable pub has_key : ResourceKey → List ResourceKey → Bool
has_key key [] = false
has_key key (k ∷ ks) = same_key k key || has_key key ks

-- A failed deletion counts unless the object was gone.
abbrev pub deletion_errors : Gvk → Object → Option ApiError → List OrphanError
deletion_errors gvk item none = []
deletion_errors gvk item (some e) =
    if is_not_found e then [] else deleting gvk.kind item.name e ∷ []

-- Owned by the resource as its controller, and not wanted.
unfoldable pub is_orphan : LlmBatchGateway → List ResourceKey → Gvk → Object → Bool
is_orphan gw desired gvk item =
    if not (is_controller_owned_by item.owners gw)
    then false
    else if has_key (key_of gvk item) desired
    then false
    else true

module _ {W Conditions : Type 0} (cluster : Cluster W Conditions) (gw : LlmBatchGateway)
    (desired : List ResourceKey) where
  -- The loop over one listing.
  unfoldable pub delete_items : Gvk → List Object → Act (State W Conditions) (List OrphanError)
  delete_items gvk [] = pure []
  delete_items gvk (item ∷ items) =
      let rest = delete_items gvk items in
      if is_orphan gw desired gvk item
      then (do
        answer ← perform (cluster.delete item) (deleted gvk item)
        errors ← rest
        pure (deletion_errors gvk item answer ++ errors))
      else rest

  abbrev pub delete_listed :
      Gvk → Result ApiError (List Object) → Act (State W Conditions) (List OrphanError)
  delete_listed gvk (ok items) = delete_items gvk items
  delete_listed gvk (err e) = pure (if is_missing_kind e then [] else listing gvk.kind e ∷ [])

  -- The loop over the managed kinds.
  unfoldable pub delete_kinds : List Gvk → Act (State W Conditions) (List OrphanError)
  delete_kinds [] = pure []
  delete_kinds (gvk ∷ gvks) =
      let rest = delete_kinds gvks in
      do
        answer ← perform (cluster.list gvk gw.namespace) (listed gvk gw.namespace)
        here ← delete_listed gvk answer
        errors ← rest
        pure (here ++ errors)

-- `errors.Join`: nil if there is no error.
abbrev pub join_errors : List OrphanError → Option GoError
join_errors [] = none
join_errors (e ∷ errors) = some (deleting_orphans (e ∷ errors))

module _ {W Conditions : Type 0} (cluster : Cluster W Conditions) (gw : LlmBatchGateway) where
  unfoldable pub delete_orphaned_resources : List Object → Act (State W Conditions) (Option GoError)
  delete_orphaned_resources rendered = do
    errors ← delete_kinds cluster gw (desired_keys rendered) managed_gvks
    pure (join_errors errors)
