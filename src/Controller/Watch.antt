-- ===== src/Controller/Watch.antt =====
-- The resources that an event on a Secret or a ReferenceGrant enqueues (`SetupWithManager`).
use llm_d_batch_gateway_oper.Prelude.{String, Bool, ◌&&◌, List, [], ◌∷◌, ◌==◌, if◌then◌else◌}
use llm_d_batch_gateway_oper.Api.Gateway.{LlmBatchGateway}
use llm_d_batch_gateway_oper.Controller.Errors.{ApiError, Result, ok, err}

pub record Request : Type 0 where
  pub name : String
  pub namespace : String

abbrev pub request_for : LlmBatchGateway → Request
request_for gw = record { name = gw.name; namespace = gw.namespace }

unfoldable pub requests_where : (LlmBatchGateway → Bool) → List LlmBatchGateway → List Request
requests_where test [] = []
requests_where test (gw ∷ gws) =
    let rest = requests_where test gws in if test gw then request_for gw ∷ rest else rest

-- The test of `enqueueForSecret`, on the event's namespace and name.
abbrev pub refers_to_secret : String → String → LlmBatchGateway → Bool
refers_to_secret namespace name gw =
    gw.spec.secret_ref.namespace == namespace && gw.spec.secret_ref.name == name

unfoldable pub enqueue_for_secret :
    String → String → Result ApiError (List LlmBatchGateway) → List Request
enqueue_for_secret namespace name (err e) = []
enqueue_for_secret namespace name (ok gws) = requests_where (refers_to_secret namespace name) gws

unfoldable pub enqueue_for_reference_grant :
    String → Result ApiError (List LlmBatchGateway) → List Request
enqueue_for_reference_grant namespace (err e) = []
enqueue_for_reference_grant namespace (ok gws) =
    requests_where (λ gw. gw.spec.secret_ref.namespace == namespace) gws
