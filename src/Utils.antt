-- ===== src/Utils.antt =====
-- internal/utils: server-side apply, the test for an installed kind, and the operator's names; and the
-- sources from which a controller's builder takes its events.
pub mod Installed
use llm_d_batch_gateway_oper.Prelude.{
  String, Bool, true, false, List, [], ◌∷◌, ◌++◌, Option, none, some, if◌then◌else◌,
}
use llm_d_batch_gateway_oper.Controller.Errors.{Result, ok, err}
use llm_d_batch_gateway_oper.Controller.Objects.{Gvk}
use llm_d_batch_gateway_oper.Controller.Cluster.{Act, pure, ◌>>=◌}

abbrev pub operator_name : String
operator_name = "llm-d-batch-gateway-operator"

abbrev pub field_owner : String
field_owner = "llmbatchgateway-controller"

abbrev pub leader_election_id : String
leader_election_id = "llmbatchgateway.batch.llm-d.ai"

-- The Go types of the objects that the controllers watch.
pub data ObjectType : Type 0 where
  llm_batch_gateway : ObjectType
  deployment stateful_set service config_map service_account role role_binding secret : ObjectType
  http_route certificate service_monitor pod_monitor prometheus_rule reference_grant : ObjectType

-- The scheme's `ObjectKinds` and the mapper's `RESTMapping` of a group, a kind and a version.
pub record RestMapper : Type 0 where
  pub object_kinds : ObjectType → Result String (List Gvk)
  pub rest_mapping : Gvk → Option String

abbrev pub is_none : Option String → Bool
is_none none = true
is_none (some e) = false

abbrev pub first_kind_installed : RestMapper → Result String (List Gvk) → Bool
first_kind_installed mapper (err e) = false
first_kind_installed mapper (ok []) = false
first_kind_installed mapper (ok (gvk ∷ gvks)) = is_none (mapper.rest_mapping gvk)

-- `IsCRDInstalled`; the reconciler's `isCRDInstalled` has the same text.
unfoldable pub is_crd_installed : RestMapper → ObjectType → Bool
is_crd_installed mapper object = first_kind_installed mapper (mapper.object_kinds object)

-- Where a controller's requests come from; `H` is what handles the events of a watch.
pub data Source (H : Type 0) : Type 0 where
  for_object : ObjectType → Source H
  owns : ObjectType → Source H
  watches : ObjectType → H → Source H
  at_startup : H → Source H

module _ {H : Type 0} where
  -- `if IsCRDInstalled(...) { b = b.Watches(...) }`
  abbrev pub if_installed : RestMapper → ObjectType → Source H → List (Source H)
  if_installed mapper object source = if is_crd_installed mapper object then source ∷ [] else []

-- What goes wrong when an object is applied.
pub data ApplyError : Type 0 where
  -- kind, name and error
  marshalling : String → String → String → ApplyError
  patching : String → ApplyError

abbrev pub patch_error : Option String → Option ApplyError
patch_error none = none
patch_error (some e) = some (patching e)

module _ {W O : Type 0} (kind_of name_of : O → String) (marshal : O → Result String String)
    (patch : O → String → String → Act W (Option String)) where
  abbrev pub apply_marshalled : O → Result String String → Act W (Option ApplyError)
  apply_marshalled object (err e) = pure (some (marshalling (kind_of object) (name_of object) e))
  apply_marshalled object (ok text) = do e ← patch object text field_owner; pure (patch_error e)

  -- `ServerSideApply`: `patch` gets the object, its JSON and the field manager.
  unfoldable pub server_side_apply : O → Act W (Option ApplyError)
  server_side_apply object = apply_marshalled object (marshal object)
