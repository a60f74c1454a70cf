-- ===== src/Controller/Errors.antt =====
-- Errors of the Kubernetes API, as far as the operator tells them apart, and of the operator.
use llm_d_batch_gateway_oper.Prelude.{
  String, ◌≡◌, refl, ◌⊎◌, inl, inr, Bool, true, false, List, if◌then◌else◌,
}

-- apierrors.IsNotFound, meta.IsNoMatchError, and every other error.
pub data ApiError : Type 0 where
  not_found : ApiError
  no_match : ApiError
  failed : String → ApiError

pub data Result {ℓ κ} (E : Type ℓ) (A : Type κ) : Type (ℓ ⊔ κ) where
  ok : A → Result E A
  err : E → Result E A

pub Result-cases {ℓ κ} :
    {E : Type ℓ} {A : Type κ} (r : Result E A) → ((a : A) × (r ≡ ok a)) ⊎ ((e : E) × (r ≡ err e))
Result-cases (ok a) = inl (a, refl)
Result-cases (err e) = inr (e, refl)

-- `apierrors.IsNotFound(err) || meta.IsNoMatchError(err)`: the kind is not installed.
abbrev pub is_missing_kind : ApiError → Bool
is_missing_kind not_found = true
is_missing_kind no_match = true
is_missing_kind (failed _) = false

abbrev pub is_not_found : ApiError → Bool
is_not_found not_found = true
is_not_found no_match = false
is_not_found (failed _) = false

-- The `Reason` of a ReferenceNotPermittedError.
pub data NotPermittedReason : Type 0 where
  grant_crd_missing : NotPermittedReason
  -- secret namespace, gateway, gateway namespace, secret
  no_grant : String → String → String → String → NotPermittedReason

-- One failure while orphans are deleted.
pub data OrphanError : Type 0 where
  listing : String → ApiError → OrphanError
  deleting : String → String → ApiError → OrphanError

-- What goes wrong when a chart is rendered.
pub data RenderError : Type 0 where
  preparing_values : String → RenderError
  rendering_templates : String → RenderError
  decoding_template : String → String → RenderError

-- The errors of the reconciler, with what they wrap.
pub data GoError : Type 0 where
  fetching : ApiError → GoError
  -- gateway, secret, secret namespace
  reference_not_permitted : String → String → String → NotPermittedReason → GoError
  -- old and new reference
  secret_ref_immutable : String → String → GoError
  listing_grants : String → ApiError → GoError
  reading_source : String → String → ApiError → GoError
  owning_copy : String → String → ApiError → GoError
  syncing_copy : String → String → ApiError → GoError
  resolving_secret : GoError → GoError
  patching_status : String → ApiError → GoError
  rendering : String → RenderError → GoError
  rendering_unpatched : String → RenderError → GoError → GoError
  no_async_renderer : GoError
  owning : String → String → ApiError → GoError
  applying : String → String → ApiError → GoError
  deleting_orphans : List OrphanError → GoError
  listing_deployments : ApiError → GoError
  listing_stateful_sets : ApiError → GoError
  patching : ApiError → GoError
  updating_status : GoError → GoError

-- `errors.As(err, &refErr)`: the error, or one that it wraps.
unfoldable pub as_reference_not_permitted : GoError → Bool
as_reference_not_permitted (reference_not_permitted g s n r) = true
as_reference_not_permitted (resolving_secret e) = as_reference_not_permitted e
as_reference_not_permitted (rendering_unpatched c r e) = as_reference_not_permitted e
as_reference_not_permitted (updating_status e) = as_reference_not_permitted e
as_reference_not_permitted _ = false

-- `errors.As(err, &immutableErr)`
unfoldable pub as_secret_ref_immutable : GoError → Bool
as_secret_ref_immutable (secret_ref_immutable o n) = true
as_secret_ref_immutable (resolving_secret e) = as_secret_ref_immutable e
as_secret_ref_immutable (rendering_unpatched c r e) = as_secret_ref_immutable e
as_secret_ref_immutable (updating_status e) = as_secret_ref_immutable e
as_secret_ref_immutable _ = false

abbrev pub reason_reference_not_permitted : String
reason_reference_not_permitted = "ReferenceNotPermitted"

abbrev pub reason_secret_ref_immutable : String
reason_secret_ref_immutable = "SecretRefImmutable"

-- `errorReason`, the label of the error metric.
unfoldable pub error_reason : GoError → String
error_reason e =
    if as_reference_not_permitted e
    then reason_reference_not_permitted
    else if as_secret_ref_immutable e
    then reason_secret_ref_immutable
    else "Other"
