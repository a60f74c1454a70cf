-- ===== src/Controller/Registration.antt =====
-- The events that lead to a reconcile of a resource (`SetupWithManager`): its own, those of the
-- objects it owns, and those of tracked Secrets and of ReferenceGrants.
use llm_d_batch_gateway_oper.Prelude.{String, List, [], ◌∷◌, ◌++◌, map, if◌then◌else◌}
use llm_d_batch_gateway_oper.Api.Gateway.{LlmBatchGateway}
use llm_d_batch_gateway_oper.Controller.Errors.{ApiError, Result}
use llm_d_batch_gateway_oper.Controller.SecretFilter.{matches}
use llm_d_batch_gateway_oper.Controller.Watch.{
  Request, enqueue_for_secret, enqueue_for_reference_grant,
}
use llm_d_batch_gateway_oper.Utils.{
  ObjectType, llm_batch_gateway, deployment, stateful_set, service, config_map, service_account,
  role, role_binding, secret, http_route, certificate, service_monitor, pod_monitor,
  prometheus_rule, reference_grant, RestMapper, Source, for_object, owns, watches, if_installed,
}

-- The requests for an event on an object of the namespace and name, by the Secrets that the filter
-- lets through and the answer to the listing of all resources.
abbrev pub EventHandler : Type 0
EventHandler = String → String → List String → Result ApiError (List LlmBatchGateway) → List Request

-- The Secret handler behind the filter's predicate, on the object of a create or delete event, or
-- the new object of an update event.
unfoldable pub on_secret : EventHandler
on_secret namespace name watched gateways =
    if matches namespace name watched then enqueue_for_secret namespace name gateways else []

unfoldable pub on_reference_grant : EventHandler
on_reference_grant namespace name watched gateways = enqueue_for_reference_grant namespace gateways

-- The kinds that every cluster has.
abbrev pub built_in_kinds : List ObjectType
built_in_kinds =
    deployment ∷ stateful_set ∷ service ∷ config_map ∷ service_account ∷ role ∷ role_binding ∷ []

-- `optionalOwns`
abbrev pub optional_owns : List ObjectType
optional_owns = http_route ∷ certificate ∷ service_monitor ∷ pod_monitor ∷ prometheus_rule ∷ []

-- The loop over `optionalOwns`.
unfoldable pub own_installed : RestMapper → List ObjectType → List (Source EventHandler)
own_installed mapper [] = []
own_installed mapper (object ∷ objects) =
    if_installed mapper object (owns object) ++ own_installed mapper objects

unfoldable pub gateway_sources : RestMapper → List (Source EventHandler)
gateway_sources mapper =
    for_object llm_batch_gateway
    ∷ (map owns built_in_kinds
        ++ (watches secret on_secret ∷ own_installed mapper optional_owns)
        ++ if_installed mapper reference_grant (watches reference_grant on_reference_grant))
