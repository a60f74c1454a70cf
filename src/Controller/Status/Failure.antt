-- ===== src/Controller/Status/Failure.antt =====
-- What a recorded failure leaves in the conditions.
use mathlib.Core.List.{Memᴰ}
use llm_d_batch_gateway_oper.Prelude.{
  String, ◌≡◌, refl, sym, ◌∙◌, subst, List, [], ◌∷◌, some, inl, inr, String-cases, ne_of_false,
}
use llm_d_batch_gateway_oper.Api.Gateway.{LlmBatchGateway}
use llm_d_batch_gateway_oper.Controller.Conditions.{
  is_false, Condition, ConditionApi, ConditionLaws, Message,
}
use llm_d_batch_gateway_oper.Controller.Status.{fail_conditions}

-- The condition of a failure.
abbrev pub failed_condition : LlmBatchGateway → String → Message → String → Condition
failed_condition gw reason message type = record {
  type = type;
  status = is_false;
  reason = reason;
  message = message;
  observed_generation = gw.generation;
}

module _ {Conditions : Type 0} (api : ConditionApi Conditions) (laws : ConditionLaws api)
    (gw : LlmBatchGateway) (reason : String) (message : Message) where
  find-fail_ne :
      (type : String) (types : List String) (cs : Conditions)
      → ¬ Memᴰ type types
      → api.find type (fail_conditions api gw reason message types cs) ≡ api.find type cs
  unfolding fail_conditions
  find-fail_ne type [] cs n = refl
  find-fail_ne type (t ∷ types) cs n =
      find-fail_ne type types _ (λ m. n (Memᴰ.tail m))
      ∙ laws.find-set_ne type (failed_condition gw reason message t) cs (λ e. n (Memᴰ.head e))

  -- A type that was set once stays set, whichever types follow.
  find-fail_keep :
      (type : String) (types : List String) (cs : Conditions)
      → api.find type cs ≡ some (failed_condition gw reason message type)
      → api.find type (fail_conditions api gw reason message types cs)
        ≡ some (failed_condition gw reason message type)
  unfolding fail_conditions
  find-fail_keep type [] cs h = h
  find-fail_keep type (t ∷ types) cs h = find-fail_keep type types _ (elim (String-cases type t) [
    | inl e ↦
        subst
          (λ x.
            api.find x (api.set (failed_condition gw reason message t) cs)
            ≡ some (failed_condition gw reason message x))
          (sym e) (laws.find-set (failed_condition gw reason message t) cs)
    | inr n ↦
        laws.find-set_ne type (failed_condition gw reason message t) cs (ne_of_false type t n) ∙ h
  ])

  find-fail :
      (type : String) (types : List String) (cs : Conditions)
      → Memᴰ type types
      → api.find type (fail_conditions api gw reason message types cs)
        ≡ some (failed_condition gw reason message type)
  unfolding fail_conditions
  find-fail type [] cs m = elim m [ ]
  find-fail type (t ∷ types) cs (Memᴰ.head e) = find-fail_keep type types _ (
      subst
        (λ x.
          api.find x (api.set (failed_condition gw reason message t) cs)
          ≡ some (failed_condition gw reason message x))
        (sym e) (laws.find-set (failed_condition gw reason message t) cs))
  find-fail type (t ∷ types) cs (Memᴰ.tail m) = find-fail type types _ m

-- For any implementation of the conditions that keeps its documented laws, recording a failure makes
-- each of the listed conditions False, with the failure's reason and message and the resource's
-- generation, and leaves every condition of another type as it was.
pub fail_conditions_lem :
    {Conditions : Type 0} (api : ConditionApi Conditions) (laws : ConditionLaws api)
    (gw : LlmBatchGateway) (reason : String) (message : Message) (types : List String)
    (cs : Conditions)
    → let failed = fail_conditions api gw reason message types cs in
      ((type : String)
        → Memᴰ type types
        → api.find type failed ≡ some (failed_condition gw reason message type))
      × ((type : String) → ¬ Memᴰ type types → api.find type failed ≡ api.find type cs)
fail_conditions_lem api laws gw reason message types cs = (
  (λ type m. find-fail api laws gw reason message type types cs m),
  (λ type n. find-fail_ne api laws gw reason message type types cs n),
)
