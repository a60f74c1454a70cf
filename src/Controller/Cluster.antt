-- ===== src/Controller/Cluster.antt =====
-- The Kubernetes API as the reconciler uses it. The API server is not part of the repository: it is
-- a record of arbitrary functions on a state `W` that any call may change, so that other writers may
-- act between two calls. Each call is recorded with the answer that it got.
use llm_d_batch_gateway_oper.Prelude.{String, List, ◌∷◌, Option}
use llm_d_batch_gateway_oper.Prelude.Assoc.{Assoc}
use llm_d_batch_gateway_oper.Prelude.Int.{ℤ}
use llm_d_batch_gateway_oper.Api.Status.{LlmBatchGatewayStatus, ComponentStatus}
use llm_d_batch_gateway_oper.Api.Gateway.{LlmBatchGateway}
use llm_d_batch_gateway_oper.Controller.Errors.{ApiError, Result}
use llm_d_batch_gateway_oper.Controller.Objects.{OwnerReference, Gvk, Object}
use llm_d_batch_gateway_oper.Controller.Rollout.{Deployment, StatefulSet}

-- corev1.Secret; `content` stands for the key-value data.
pub record Secret : Type 0 where
  pub name : String
  pub namespace : String
  pub annotations : Assoc String
  pub owners : List OwnerReference
  pub type : String
  pub content : Assoc String

pub record GrantFrom : Type 0 where
  pub group : String
  pub kind : String
  pub namespace : String

pub record GrantTo : Type 0 where
  pub group : String
  pub kind : String
  pub name : Option String

-- gatewayv1beta1.ReferenceGrant
pub record ReferenceGrant : Type 0 where
  pub from : List GrantFrom
  pub to : List GrantTo

-- A resource that the operator writes by server-side apply.
pub data Applied : Type 0 where
  rendered : Object → Applied
  secret_copy : Secret → Applied

-- One field of a status patch.
pub data StatusField (Conditions : Type 0) : Type 0 where
  conditions : Conditions → StatusField Conditions
  component_status : Option ComponentStatus → StatusField Conditions
  observed_generation : ℤ → StatusField Conditions

-- `StatusPatch`: the fields in the order in which they were added.
pub record StatusPatch (Conditions : Type 0) : Type 0 where
  pub resource_version : String
  pub fields : List (StatusField Conditions)

pub data Severity : Type 0 where
  normal warning : Severity

pub data Call (Conditions : Type 0) : Type 0 where
  got_gateway :
      String
      → String
      → Result ApiError (LlmBatchGateway × LlmBatchGatewayStatus Conditions)
      → Call Conditions
  got_secret : String → String → Result ApiError Secret → Call Conditions
  listed_grants : String → Result ApiError (List ReferenceGrant) → Call Conditions
  listed : Gvk → String → Result ApiError (List Object) → Call Conditions
  listed_deployments : String → String → Result ApiError (List Deployment) → Call Conditions
  listed_stateful_sets : String → String → Result ApiError (List StatefulSet) → Call Conditions
  applied : Applied → Option ApiError → Call Conditions
  deleted : Gvk → Object → Option ApiError → Call Conditions
  patched_status : StatusPatch Conditions → Option ApiError → Call Conditions
  -- severity and reason
  event : Severity → String → Call Conditions

pub record Cluster (W Conditions : Type 0) : Type 0 where
  -- namespace and name
  pub get_gateway :
      String → String → W → Result ApiError (LlmBatchGateway × LlmBatchGatewayStatus Conditions) × W
  pub get_secret : String → String → W → Result ApiError Secret × W
  pub list_grants : String → W → Result ApiError (List ReferenceGrant) × W
  pub list : Gvk → String → W → Result ApiError (List Object) × W
  -- namespace and the value of the instance label
  pub list_deployments : String → String → W → Result ApiError (List Deployment) × W
  pub list_stateful_sets : String → String → W → Result ApiError (List StatefulSet) × W
  pub apply : Applied → W → Option ApiError × W
  pub delete : Object → W → Option ApiError × W
  pub patch_status : LlmBatchGateway → StatusPatch Conditions → W → Option ApiError × W

-- What a reconcile works on: the cluster, the calls made (the latest first), and the Secrets that
-- the watch filter lets through.
pub record State (W Conditions : Type 0) : Type 0 where
  pub world : W
  pub calls : List (Call Conditions)
  pub watched : List String

-- An action on a state. Errors are values, as in Go.
abbrev pub Act : Type 0 → Type 0 → Type 0
Act S A = S → A × S

module _ {S A : Type 0} where
  abbrev pub pure : A → Act S A
  pure a s = (a, s)

module _ {S A B : Type 0} where
  infixl 5 ◌>>=◌ ◌>>◌
  abbrev pub ◌>>=◌ : Act S A → (A → Act S B) → Act S B
  ◌>>=◌ m f s = let (a, s') = m s in f a s'

  abbrev pub ◌>>◌ : Act S A → Act S B → Act S B
  m >> k = m >>= λ _. k

module _ {W Conditions A : Type 0} where
  -- A call: its effect on the cluster, and its record.
  abbrev pub perform : (W → A × W) → (A → Call Conditions) → Act (State W Conditions) A
  perform action record_of s =
      let (a, w) = action s.world in (a, record s { world = w; calls = record_of a ∷ s.calls })

module _ {W Conditions : Type 0} where
  abbrev pub emit : Severity → String → Act (State W Conditions) (Unit {0})
  emit severity reason s = (tt, record s { calls = event severity reason ∷ s.calls })
