-- ===== src/Validate/Decides.antt =====
-- `validateSpec` decides `IsSpecValid`, and therefore does not depend on the order of the map.
use llm_d_batch_gateway_oper.Prelude.{
  String, ↔-trans, ◌≡◌, ◌≢◌, refl, ◌↔◌, ◌⊎◌, inl, inr, Option, none, some, not, ◌&&◌, [], ◌∷◌, ◌==◌,
  eq_iff, All-mem, All-of_mem, String-cases, ne_of_false, subst,
}
use llm_d_batch_gateway_oper.Prelude.Assoc.{
  Assoc, lookup, HasDistinctKeys, mem_of_lookup, lookup_of_mem,
}
use llm_d_batch_gateway_oper.Api.Async.{AsyncRedisSpec, AsyncSqlSpec, AsyncProcessorSpec}
use llm_d_batch_gateway_oper.Api.Components.{ModelGatewaySpec}
use llm_d_batch_gateway_oper.Api.Gateway.{LlmBatchGateway}
use llm_d_batch_gateway_oper.Queues.{redis_queues, sql_queues, sql_result_queue_name_for}
use llm_d_batch_gateway_oper.Validate.{
  validate_spec, validate_async_config, validate_transport, validate_async_redis_config,
  validate_async_sql_config, fail_if, is_set, is_empty, transports_exclusive, transport_required,
  result_poll_timeout_required, model_gateways_required, model_gateway_rules,
  db_backend_not_supported, dispatch_mode_not_supported, shared_inference_pool, shared_result_queue,
}
use llm_d_batch_gateway_oper.Validate.Rules.{
  QueueRules, RedisRules, SqlRules, Separates, IsModelGatewayValid, IsAsyncConfigValid, IsSpecValid,
}
use llm_d_batch_gateway_oper.Validate.Loops.{
  both, fail_if_empty, fail_if_eq, model_gateway_rules-none,
}
use llm_d_batch_gateway_oper.Validate.Parts.{
  gateway_url_check, prometheus_check, coverage_if_configured_check, shared_values_check,
}

redis_check :
    (models : Assoc ModelGatewaySpec) (ac : AsyncProcessorSpec) (redis : AsyncRedisSpec)
    → (validate_async_redis_config models ac redis ≡ none)
      ↔ QueueRules models ac redis.queues_config (redis_queues models redis)
unfolding validate_async_redis_config
redis_check models ac redis =
    ↔-trans
      (both (coverage_if_configured_check "redis" models redis.queues_config) (
        both (gateway_url_check "Redis" (redis_queues models redis) ac.inference_gateway)
          (prometheus_check "Redis" (redis_queues models redis) ac.worker_pools ac.prometheus_url)))
      (
        (λ h. record { covers = h.0; urls = h.1.0; gates = h.1.1 }),
        (λ r. (r.covers, (r.urls, r.gates))),
      )

module _ (models : Assoc ModelGatewaySpec) (distinct : HasDistinctKeys models)
    (ac : AsyncProcessorSpec) where
  sql_check :
      (sql : AsyncSqlSpec)
      → (validate_async_sql_config models ac sql ≡ none) ↔ (
          Separates (λ g. g.inference_pool_name) models
          × Separates sql_result_queue_name_for models
          × QueueRules models ac sql.queues_config (sql_queues models sql))
  unfolding validate_async_sql_config
  sql_check sql =
      ↔-trans
        (both (shared_values_check _ shared_inference_pool models distinct) (
          both (shared_values_check _ shared_result_queue models distinct) (
            both (coverage_if_configured_check "sql" models sql.queues_config) (
              both (gateway_url_check "SQL" (sql_queues models sql) ac.inference_gateway) (
                prometheus_check "SQL" (sql_queues models sql) ac.worker_pools
                  ac.prometheus_url)))))
        (
          (λ h. (h.0, h.1.0, record { covers = h.1.1.0; urls = h.1.1.1.0; gates = h.1.1.1.1 })),
          (λ r. (r.0, (r.1, (r.2.covers, (r.2.urls, r.2.gates))))),
        )

  -- The checks on which transports are set, and the transport's own.
  transport_check :
      (redis : Option AsyncRedisSpec) (sql : Option AsyncSqlSpec)
      → ac.redis ≡ redis
      → ac.sql ≡ sql
      → ((fail_if (is_set redis && is_set sql) transports_exclusive ≡ none)
          × (fail_if (not (is_set redis) && not (is_set sql)) transport_required ≡ none)
          × (validate_transport models ac redis sql ≡ none))
        ↔ (RedisRules models ac ⊎ SqlRules models ac)
  unfolding validate_transport
  transport_check (some r) (some s) p q = (
    (λ h. absurd (cc (h.0))),
    (λ h. elim h [
      | inl (r', e, n, k) ↦ absurd (cc (n, q))
      | inr (s', e, n, a, b, k) ↦ absurd (cc (n, p))
    ]),
  )
  transport_check (some r) none p q = (
    (λ h. inl (r, p, q, (redis_check models ac r).0 h.2)),
    (λ h. elim h [
      | inl (r', e, n, k) ↦ (
        refl,
        refl,
        (redis_check models ac r).1 (
            subst (λ t. QueueRules models ac t.queues_config (redis_queues models t)) (cc (e, p))
              k),
      )
      | inr (s', e, n, a, b, k) ↦ absurd (cc (e, q))
    ]),
  )
  transport_check none (some s) p q = (
    (λ h. let (a, b, c) = (sql_check s).0 h.2 in inr (s, q, p, a, b, c)),
    (λ h. elim h [
      | inl (r', e, n, k) ↦ absurd (cc (e, p))
      | inr (s', e, n, a, b, c) ↦ (
        refl,
        refl,
        (sql_check s).1 (
          a,
          b,
          subst (λ t. QueueRules models ac t.queues_config (sql_queues models t)) (cc (e, q)) c,
        ),
      )
    ]),
  )
  transport_check none none p q = (
    (λ h. absurd (cc (h.1))),
    (λ h. elim h [
      | inl (r', e, n, k) ↦ absurd (cc (e, p))
      | inr (s', e, n, a, b, k) ↦ absurd (cc (e, q))
    ]),
  )

  gateways_check :
      (model_gateway_rules models ≡ none)
      ↔ ((k : String) (g : ModelGatewaySpec) → lookup k models ≡ some g → IsModelGatewayValid g)
  gateways_check = ↔-trans (model_gateway_rules-none models) (
    (λ h k g e. All-mem _ models h (k, g) (mem_of_lookup k models g e)),
    (λ h.
        All-of_mem _ models
          (λ entry m. h entry.0 entry.1 (lookup_of_mem entry.0 entry.1 models distinct m))),
  )

is_empty_check :
    (models : Assoc ModelGatewaySpec)
    → (fail_if (is_empty models) model_gateways_required ≡ none) ↔ (models ≢ [])
is_empty_check [] = ((λ h. absurd (cc)), (λ h. absurd (h refl)))
is_empty_check (m ∷ ms) = ((λ h e. cc), (λ h. refl))

-- The checks in front of the transport's, from a valid configuration.
config_back :
    (models : Assoc ModelGatewaySpec) (distinct : HasDistinctKeys models) (ac : AsyncProcessorSpec)
    → IsAsyncConfigValid models ac
    → (fail_if (is_set ac.redis && is_set ac.sql) transports_exclusive ≡ none)
      × ((fail_if (not (is_set ac.redis) && not (is_set ac.sql)) transport_required ≡ none)
          × ((ac.result_poll_timeout ≢ "")
              × ((models ≢ [])
                  × (((k : String) (g : ModelGatewaySpec)
                        → lookup k models ≡ some g
                        → IsModelGatewayValid g)
                      × (validate_transport models ac ac.redis ac.sql ≡ none)))))
config_back models distinct ac v =
    let t = (transport_check models distinct ac ac.redis ac.sql refl refl).1 v.transport in
    (t.0, (t.1, (v.timeout, (v.some_model, (v.gateways, t.2)))))

dispatch_mode_check :
    (s : String) → (fail_if (s == "sync") dispatch_mode_not_supported ≡ none) ↔ (s ≢ "sync")
dispatch_mode_check s = fail_if_eq s "sync" dispatch_mode_not_supported

config_check :
    (models : Assoc ModelGatewaySpec)
    → HasDistinctKeys models
    → (config : Option AsyncProcessorSpec)
    → (validate_async_config models config ≡ none)
      ↔ ((ac : AsyncProcessorSpec) × (config ≡ some ac) × IsAsyncConfigValid models ac)
unfolding validate_async_config
config_check models distinct none = ((λ h. absurd (cc)), (λ h. absurd (cc (h.1))))
config_check models distinct (some ac) =
    let transport = transport_check models distinct ac ac.redis ac.sql refl refl in
    ↔-trans
      (both (↔-refl _) (
        both (↔-refl _) (
          both (fail_if_empty ac.result_poll_timeout result_poll_timeout_required)
            (both (is_empty_check models) (both (gateways_check models distinct ac) (↔-refl _))))))
      (
        (λ h. (
          ac,
          refl,
          record {
            transport = transport.0 (h.0, h.1.0, h.1.1.1.1.1);
            timeout = h.1.1.0;
            some_model = h.1.1.1.0;
            gateways = h.1.1.1.1.0;
          },
        )),
        (λ h.
            let same : h.0 ≡ ac = cc (h.1) in
            config_back models distinct ac (subst (IsAsyncConfigValid models) same h.2)),
      )
  where
    ↔-refl : (A : Type 0) → A ↔ A
    ↔-refl A = ((λ a. a), (λ a. a))

db_backend_check :
    (s : String)
    → (fail_if (not (s == "") && not (s == "postgresql")) (db_backend_not_supported s) ≡ none)
      ↔ ((s ≡ "") ⊎ (s ≡ "postgresql"))
db_backend_check s = elim (String-cases s "") [
  | inl e ↦ rw ((eq_iff s "").1 e) ((λ h. inl e), (λ h. refl))
  | inr n ↦ elim (String-cases s "postgresql") [
    | inl e ↦ rw (n, (eq_iff s "postgresql").1 e) ((λ h. inr e), (λ h. refl))
    | inr k ↦
        rw (n, k)
          (
            (λ h. absurd (cc)),
            (λ h. elim h [
              | inl e ↦ absurd (ne_of_false s "" n e)
              | inr e ↦ absurd (ne_of_false s "postgresql" k e)
            ]),
          )
  ]
]

-- On a spec whose map of model gateways has distinct keys, as every Go map has, `validateSpec`
-- returns no error exactly if the spec is valid.
pub validate_spec_decides :
    (gw : LlmBatchGateway)
    → HasDistinctKeys gw.spec.processor.model_gateways
    → (validate_spec gw ≡ none) ↔ IsSpecValid gw
unfolding validate_spec
validate_spec_decides gw distinct =
    ↔-trans
      (both (db_backend_check gw.spec.db_backend) (
        both (dispatch_mode_check gw.spec.processor.dispatch_mode)
          (config_check gw.spec.processor.model_gateways distinct gw.spec.processor.async_config)))
      (
        (λ h. record { backend = h.0; mode = h.1.0; config = h.1.1 }),
        (λ v. (v.backend, (v.mode, v.config))),
      )
