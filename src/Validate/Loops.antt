-- ===== src/Validate/Loops.antt =====
-- Each loop of the validation finds no error exactly if its rule holds of the whole list.
use mathlib.Core.List.{Memᴰ}
use llm_d_batch_gateway_oper.Prelude.{
  String, ◌≡◌, ◌≢◌, refl, ◌↔◌, inl, inr, Option, none, some, Bool, true, false, not, List, [], ◌∷◌,
  map, ◌==◌, eq_iff, All, All-mem, All-of_mem, Distinct, arith, member, member→mem, mem→member,
  Bool-cases, Option-cases, ne_of_false, ↔-trans, false_of_ne, String-cases, not_mem_of_member,
  member_of_not_mem, mem-cons_cases, subst,
}
use llm_d_batch_gateway_oper.Prelude.Assoc.{
  Assoc, lookup, keys, mem-keys_of_lookup, lookup_of_mem-keys,
}
use llm_d_batch_gateway_oper.Api.Async.{AsyncQueueConfig, AsyncWorkerPool}
use llm_d_batch_gateway_oper.Api.Components.{ModelGatewaySpec}
use llm_d_batch_gateway_oper.Queues.{model_gateway, request_queue_name_for, queue_names}
use llm_d_batch_gateway_oper.Validate.{
  ValidationError, inference_pool_required, queue_names_unpaired, fail_if, ◌then_check◌,
  is_prometheus_gate, queue_gates, pool_gates, queue_urls, bool_ne, duplicate_queues,
  missing_queues, unpublished_queues, shared_values, model_gateway_rules,
}
use llm_d_batch_gateway_oper.Validate.Rules.{IsPrometheusGate, IsModelGatewayValid}

pub then_check-none :
    (a b : Option ValidationError) → ((a then_check b) ≡ none) ↔ ((a ≡ none) × (b ≡ none))
then_check-none none b = ((λ h. (refl, h)), (λ h. h.1))
then_check-none (some e) b = ((λ h. absurd (cc)), (λ h. absurd (cc (h.0))))

pub fail_if-none : (b : Bool) (e : ValidationError) → (fail_if b e ≡ none) ↔ (b ≡ false)
fail_if-none true e = ((λ h. absurd (cc)), (λ h. absurd (cc)))
fail_if-none false e = ((λ h. refl), (λ h. refl))

pub fail_if_eq : (s t : String) (e : ValidationError) → (fail_if (s == t) e ≡ none) ↔ (s ≢ t)
fail_if_eq s t e = (
  (λ h. ne_of_false s t ((fail_if-none (s == t) e).0 h)),
  (λ h. elim (String-cases s t) [ inl p ↦ absurd (h p) | inr n ↦ (fail_if-none (s == t) e).1 n ]),
)

pub fail_if_empty : (s : String) (e : ValidationError) → (fail_if (s == "") e ≡ none) ↔ (s ≢ "")
fail_if_empty s e = fail_if_eq s "" e

-- A check, then the rest.
pub both :
    {P Q : Type 0} {a b : Option ValidationError}
    → (a ≡ none) ↔ P
    → (b ≡ none) ↔ Q
    → ((a then_check b) ≡ none) ↔ (P × Q)
both {a = a} {b = b} p q = (
  (λ h. let (x, y) = (then_check-none a b).0 h in (p.0 x, q.0 y)),
  (λ h. (then_check-none a b).1 (p.1 h.0, q.1 h.1)),
)

pub is_prometheus_gate_iff : (g : String) → (is_prometheus_gate g ≡ false) ↔ (¬ IsPrometheusGate g)
unfolding is_prometheus_gate
is_prometheus_gate_iff g = (
  (λ h k. ground (
    arith,
    eq_iff g "prometheus-budget",
    eq_iff g "prometheus-query",
    eq_iff g "prometheus-saturation",
  )),
  (λ h.
      let a = false_of_ne g "prometheus-budget" (λ e. h (inl e)) in
      let b = false_of_ne g "prometheus-query" (λ e. h (inr (inl e))) in
      let c = false_of_ne g "prometheus-saturation" (λ e. h (inr (inr e))) in rw (a, b, c)),
)

pub queue_urls-none :
    (t : String) (qs : List AsyncQueueConfig)
    → (queue_urls t qs ≡ none) ↔ All (λ q. q.igw_base_url ≢ "") qs
unfolding queue_urls
queue_urls-none t [] = ((λ h. tt), (λ h. refl))
queue_urls-none t (q ∷ qs) = both (fail_if_empty q.igw_base_url _) (queue_urls-none t qs)

gate_check :
    (g : String) (e : ValidationError)
    → (fail_if (is_prometheus_gate g) e ≡ none) ↔ (¬ IsPrometheusGate g)
gate_check g e = (
  (λ h. (is_prometheus_gate_iff g).0 ((fail_if-none _ e).0 h)),
  (λ h. (fail_if-none _ e).1 ((is_prometheus_gate_iff g).1 h)),
)

pub queue_gates-none :
    (t : String) (qs : List AsyncQueueConfig)
    → (queue_gates t qs ≡ none) ↔ All (λ q. ¬ IsPrometheusGate q.gate_type) qs
unfolding queue_gates
queue_gates-none t [] = ((λ h. tt), (λ h. refl))
queue_gates-none t (q ∷ qs) = both (gate_check q.gate_type _) (queue_gates-none t qs)

pub pool_gates-none :
    (ps : List AsyncWorkerPool)
    → (pool_gates ps ≡ none) ↔ All (λ p. ¬ IsPrometheusGate p.gate_type) ps
unfolding pool_gates
pool_gates-none [] = ((λ h. tt), (λ h. refl))
pool_gates-none (p ∷ ps) = both (gate_check p.gate_type _) (pool_gates-none ps)

fail_if-member :
    (x : String) (ys : List String) (e : ValidationError)
    → (fail_if (member x ys) e ≡ none) ↔ (¬ Memᴰ x ys)
fail_if-member x ys e = (
  (λ h. not_mem_of_member x ys ((fail_if-none _ e).0 h)),
  (λ h. (fail_if-none _ e).1 (member_of_not_mem x ys h)),
)

fail_if-not-member :
    (x : String) (ys : List String) (e : ValidationError)
    → (fail_if (not (member x ys)) e ≡ none) ↔ Memᴰ x ys
fail_if-not-member x ys e = (
  (λ h. elim (Bool-cases (member x ys)) [ inl p ↦ member→mem x ys p | inr n ↦ ground (arith, h) ]),
  (λ h. rw (mem→member x ys h)),
)

-- The texts are distinct, and none is among those seen.
abbrev pub AreNew : List String → List String → Type 0
AreNew seen xs = Distinct xs × All (λ x. ¬ Memᴰ x seen) xs

AreNew-cons :
    (x : String) (seen xs : List String)
    → ((¬ Memᴰ x seen) × AreNew (x ∷ seen) xs) ↔ AreNew seen (x ∷ xs)
AreNew-cons x seen xs = (
  (λ h. (
    ((λ m. All-mem _ xs h.1.1 x m (Memᴰ.head refl)), h.1.0),
    (h.0, All-of_mem _ xs (λ y m k. All-mem _ xs h.1.1 y m (Memᴰ.tail k))),
  )),
  (λ h. (
    h.1.0,
    (
      h.0.1,
      All-of_mem _ xs (λ y m k. elim (mem-cons_cases y x seen k) [
        | inl e ↦ h.0.0 (subst (λ z. Memᴰ z xs) e m)
        | inr n ↦ All-mem _ xs h.1.1 y m n
      ]),
    ),
  )),
)

pub duplicate_queues-none :
    (t : String) (seen : List String) (qs : List AsyncQueueConfig)
    → (duplicate_queues t seen qs ≡ none) ↔ AreNew seen (queue_names qs)
unfolding duplicate_queues
duplicate_queues-none t seen [] = ((λ h. (tt, tt)), (λ h. refl))
duplicate_queues-none t seen (q ∷ qs) =
    ↔-trans (both (fail_if-member _ seen _) (duplicate_queues-none t (q.name ∷ seen) qs))
      (AreNew-cons q.name seen (queue_names qs))

pub missing_queues-none :
    (t : String) (models : Assoc ModelGatewaySpec) (configured names : List String)
    → (missing_queues t models configured names ≡ none)
      ↔ All (λ n. Memᴰ (request_queue_name_for (model_gateway models n)) configured) names
unfolding missing_queues
missing_queues-none t models configured [] = ((λ h. tt), (λ h. refl))
missing_queues-none t models configured (n ∷ ns) =
    both (fail_if-not-member _ configured _) (missing_queues-none t models configured ns)

pub unpublished_queues-none :
    (t : String) (published : List String) (qs : List AsyncQueueConfig)
    → (unpublished_queues t published qs ≡ none) ↔ All (λ n. Memᴰ n published) (queue_names qs)
unfolding unpublished_queues
unpublished_queues-none t published [] = ((λ h. tt), (λ h. refl))
unpublished_queues-none t published (q ∷ qs) =
    both (fail_if-not-member _ published _) (unpublished_queues-none t published qs)

module _ (value : ModelGatewaySpec → String)
    (error : String → String → String → ValidationError) where
  -- The value is not among the keys seen.
  lookup_fresh :
      (v m : String) (seen : Assoc String)
      → ((elim (lookup v seen) [ none ↦ none | some other ↦ some (error other m v) ]) ≡ none)
        ↔ (¬ Memᴰ v (keys seen))
  lookup_fresh v m seen = (
    (λ h k. let (w, e) = lookup_of_mem-keys v seen k in cc (rw e at h)),
    (λ h. elim (Option-cases (lookup v seen)) [
      | inl e ↦ rw e
      | inr (w, e) ↦ absurd (h (mem-keys_of_lookup v seen w e))
    ]),
  )

  pub shared_values-none :
      (models : Assoc ModelGatewaySpec) (seen : Assoc String) (names : List String)
      → (shared_values value error models seen names ≡ none)
        ↔ AreNew (keys seen) (map (λ n. value (model_gateway models n)) names)
  unfolding shared_values
  shared_values-none models seen [] = ((λ h. (tt, tt)), (λ h. refl))
  shared_values-none models seen (n ∷ ns) =
      let v = value (model_gateway models n) in
      ↔-trans (both (lookup_fresh v n seen) (shared_values-none models ((v, n) ∷ seen) ns))
        (AreNew-cons v (keys seen) (map (λ k. value (model_gateway models k)) ns))

unpaired_iff :
    (s t : String) (e : ValidationError)
    → (fail_if (bool_ne (s == "") (t == "")) e ≡ none) ↔ ((s ≡ "") ↔ (t ≡ ""))
unpaired_iff s t e = elim (String-cases s "") [
  | inl p ↦ elim (String-cases t "") [
    | inl q ↦ rw ((eq_iff s "").1 p, (eq_iff t "").1 q) ((λ h. ((λ _. q), (λ _. p))), (λ h. refl))
    | inr q ↦
        rw ((eq_iff s "").1 p, q) ((λ h. absurd (cc)), (λ h. absurd (ne_of_false t "" q (h.0 p))))
  ]
  | inr p ↦ elim (String-cases t "") [
    | inl q ↦
        rw (p, (eq_iff t "").1 q) ((λ h. absurd (cc)), (λ h. absurd (ne_of_false s "" p (h.1 q))))
    | inr q ↦
        rw (p, q)
          (
            (λ h. ((λ x. absurd (ne_of_false s "" p x)), (λ y. absurd (ne_of_false t "" q y)))),
            (λ h. refl),
          )
  ]
]

pub model_gateway_rules-none :
    (models : Assoc ModelGatewaySpec)
    → (model_gateway_rules models ≡ none) ↔ All (λ entry. IsModelGatewayValid entry.1) models
unfolding model_gateway_rules
model_gateway_rules-none [] = ((λ h. tt), (λ h. refl))
model_gateway_rules-none ((m, g) ∷ rest) =
    let p = fail_if_empty g.inference_pool_name (inference_pool_required m) in
    let q = unpaired_iff g.request_queue_name g.result_queue_name (queue_names_unpaired m) in
    ↔-trans (both p (both q (model_gateway_rules-none rest)))
      ((λ h. ((h.0, h.1.0), h.1.1)), (λ h. (h.0.0, (h.0.1, h.1))))
