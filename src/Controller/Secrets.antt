-- ===== src/Controller/Secrets.antt =====
-- The credentials Secret (internal/controller/secret_sync.go): a Secret of another namespace is
-- copied into the resource's, if a ReferenceGrant permits it.
pub mod Safety
pub mod Immutable
use Prim.Native.String.{◌++◌}
use llm_d_batch_gateway_oper.Prelude.{
  String, Bool, true, false, List, [], ◌∷◌, Option, none, some, ◌==◌, if◌then◌else◌,
}
use llm_d_batch_gateway_oper.Prelude.Assoc.{Assoc, lookup}
use llm_d_batch_gateway_oper.Api.Gateway.{LlmBatchGateway}
use llm_d_batch_gateway_oper.Controller.Errors.{
  ApiError, Result, ok, err, GoError, is_missing_kind, reference_not_permitted,
  secret_ref_immutable, listing_grants, reading_source, owning_copy, syncing_copy,
  grant_crd_missing, no_grant,
}
use llm_d_batch_gateway_oper.Controller.Objects.{OwnerReference}
use llm_d_batch_gateway_oper.Controller.Grants.{some_match, reference_grant_permits}
use llm_d_batch_gateway_oper.Controller.Cluster.{
  Cluster, State, Secret, ReferenceGrant, secret_copy, got_secret, listed_grants, applied, Act,
  pure, ◌>>=◌, ◌>>◌, perform,
}

-- `controllerutil.SetControllerReference`: the owners of an object in the namespace, with the
-- resource added as the controller, or an error.
abbrev pub SetOwner : Type 0
SetOwner = LlmBatchGateway → String → List OwnerReference → Result ApiError (List OwnerReference)

abbrev pub managed_secret_suffix : String
managed_secret_suffix = "-credentials"

abbrev pub copied_from : String
copied_from = "batch.llm-d.ai/copied-from"

-- `fmt.Sprintf("%s/%s", namespace, name)`
abbrev pub qualified : String → String → String
qualified namespace name = namespace ++ "/" ++ name

-- `secretNS`
unfoldable pub secret_namespace : LlmBatchGateway → String
secret_namespace gw =
    if gw.spec.secret_ref.namespace == "" then gw.namespace else gw.spec.secret_ref.namespace

abbrev pub local_secret_name : LlmBatchGateway → String
local_secret_name gw = gw.name ++ managed_secret_suffix

-- A Go map yields the empty text for a missing key.
abbrev pub or_empty : Option String → String
or_empty none = ""
or_empty (some text) = text

abbrev pub copied_from_of : Secret → String
copied_from_of secret = or_empty (lookup copied_from secret.annotations)

-- Only a managed copy that was read tells that the reference has changed.
abbrev pub changed_reference : String → Result ApiError Secret → Option GoError
changed_reference want (err e) = none
changed_reference want (ok existing) =
    if copied_from_of existing == want
    then none
    else some (secret_ref_immutable (copied_from_of existing) want)

-- `desired` of `syncSecretCopy`, before an owner is set.
abbrev pub desired_copy : LlmBatchGateway → Secret → String → Secret
desired_copy gw src local_name = record {
  name = local_name;
  namespace = gw.namespace;
  annotations = (copied_from, qualified src.namespace src.name) ∷ [];
  owners = [];
  type = src.type;
  content = src.content;
}

-- The verdict on the answer to the listing of the grants.
abbrev pub grant_verdict :
    LlmBatchGateway → String → String → Result ApiError (List ReferenceGrant) → Option GoError
grant_verdict gw secret_name secret_ns (err e) =
    if is_missing_kind e
    then some (reference_not_permitted gw.name secret_name secret_ns grant_crd_missing)
    else some (listing_grants secret_ns e)
grant_verdict gw secret_name secret_ns (ok grants) =
    if some_match (λ grant. reference_grant_permits grant gw.namespace secret_name) grants
    then none
    else some (
        reference_not_permitted gw.name secret_name secret_ns
          (no_grant secret_ns gw.name gw.namespace secret_name))

-- `if err != nil { return "", err }`
abbrev pub unless_failed :
    {S A : Type 0} → Option GoError → Act S (Result GoError A) → Act S (Result GoError A)
unless_failed none next = next
unless_failed (some e) next = pure (err e)

abbrev pub sync_error : String → String → Option ApiError → Option GoError
sync_error namespace name none = none
sync_error namespace name (some e) = some (syncing_copy namespace name e)

-- The end of `resolveSecret`.
abbrev pub outcome : LlmBatchGateway → Option GoError → Result GoError String
outcome gw none = ok (local_secret_name gw)
outcome gw (some e) = err e

module _ {W Conditions : Type 0} (cluster : Cluster W Conditions) (set_owner : SetOwner) where
  unfoldable pub check_reference_grant :
      LlmBatchGateway → String → String → Act (State W Conditions) (Option GoError)
  check_reference_grant gw secret_name secret_ns = do
    answer ← perform (cluster.list_grants secret_ns) (listed_grants secret_ns)
    pure (grant_verdict gw secret_name secret_ns answer)

  unfoldable pub apply_copy :
      Secret → Result ApiError (List OwnerReference) → Act (State W Conditions) (Option GoError)
  apply_copy copy (err e) = pure (some (owning_copy copy.namespace copy.name e))
  apply_copy copy (ok owners) =
      let owned = secret_copy (record copy { owners = owners }) in
      do
        answer ← perform (cluster.apply owned) (applied owned)
        pure (sync_error copy.namespace copy.name answer)

  unfoldable pub sync_secret_copy :
      LlmBatchGateway → Secret → String → Act (State W Conditions) (Option GoError)
  sync_secret_copy gw src local_name =
      apply_copy (desired_copy gw src local_name) (set_owner gw gw.namespace [])

  -- The source Secret was asked for, and is copied.
  unfoldable pub copy_source :
      LlmBatchGateway → Result ApiError Secret → Act (State W Conditions) (Result GoError String)
  copy_source gw (err e) =
      pure (err (reading_source (secret_namespace gw) gw.spec.secret_ref.name e))
  copy_source gw (ok src) = do
    failure ← sync_secret_copy gw src (local_secret_name gw)
    pure (outcome gw failure)

  -- The reference to another namespace is checked, and its Secret copied.
  unfoldable pub resolve_foreign :
      LlmBatchGateway → Act (State W Conditions) (Result GoError String)
  resolve_foreign gw = do
    existing ←
        perform (cluster.get_secret gw.namespace (local_secret_name gw))
          (got_secret gw.namespace (local_secret_name gw))
    unless_failed
        (changed_reference (qualified (secret_namespace gw) gw.spec.secret_ref.name) existing)
        (do
          refused ← check_reference_grant gw gw.spec.secret_ref.name (secret_namespace gw)
          unless_failed refused (do
            src ←
                perform (cluster.get_secret (secret_namespace gw) gw.spec.secret_ref.name)
                  (got_secret (secret_namespace gw) gw.spec.secret_ref.name)
            copy_source gw src))

  unfoldable pub resolve_secret : LlmBatchGateway → Act (State W Conditions) (Result GoError String)
  resolve_secret gw =
      if secret_namespace gw == gw.namespace
      then pure (ok gw.spec.secret_ref.name)
      else resolve_foreign gw
