-- ===== src/Controller/Conditions.antt =====
-- Status conditions. Only apimachinery's functions read and write the list of conditions; they are
-- an interface here, with the laws that their documentation states.
use llm_d_batch_gateway_oper.Prelude.{
  String, ◌≡◌, ◌≢◌, Bool, if◌then◌else◌, List, [], ◌∷◌, Option, some,
}
use llm_d_batch_gateway_oper.Prelude.Int.{ℤ}
use llm_d_batch_gateway_oper.Validate.{ValidationError}
use llm_d_batch_gateway_oper.Controller.Errors.{GoError, RenderError}

pub data ConditionStatus : Type 0 where
  is_true is_false is_unknown : ConditionStatus

-- The texts of conditions, with the values that they print.
pub data Message : Type 0 where
  validation_failed : ValidationError → Message
  secret_failed : GoError → Message
  render_failed : String → RenderError → Message
  -- ready and desired replicas
  replicas_ready : String → ℤ → ℤ → Message
  all_ready : Message
  not_all_ready : Message

-- metav1.Condition without the time of the last transition, which `SetStatusCondition` keeps.
pub record Condition : Type 0 where
  pub type : String
  pub status : ConditionStatus
  pub reason : String
  pub message : Message
  pub observed_generation : ℤ

-- `meta.SetStatusCondition` and `meta.FindStatusCondition`
pub record ConditionApi (Conditions : Type 0) : Type 0 where
  pub set : Condition → Conditions → Conditions
  pub find : String → Conditions → Option Condition

-- A condition that was set is found, and setting it changes none of another type.
pub record ConditionLaws {Conditions : Type 0} (api : ConditionApi Conditions) : Type 0 where
  pub find-set : (c : Condition) (cs : Conditions) → api.find c.type (api.set c cs) ≡ some c
  pub find-set_ne :
      (t : String) (c : Condition) (cs : Conditions)
      → t ≢ c.type
      → api.find t (api.set c cs) ≡ api.find t cs

pub record ComponentCondition : Type 0 where
  pub condition_type : String
  pub name : String

abbrev pub condition_ready : String
condition_ready = "Ready"

abbrev pub api_server_condition : ComponentCondition
api_server_condition = record { condition_type = "APIServerAvailable"; name = "API server" }

abbrev pub processor_condition : ComponentCondition
processor_condition = record { condition_type = "ProcessorAvailable"; name = "Processor" }

abbrev pub gc_condition : ComponentCondition
gc_condition = record { condition_type = "GCAvailable"; name = "GC" }

abbrev pub async_processor_condition : ComponentCondition
async_processor_condition = record {
  condition_type = "AsyncProcessorAvailable";
  name = "Async processor";
}

abbrev pub all_condition_types : List String
all_condition_types =
    condition_ready ∷ api_server_condition.condition_type ∷ processor_condition.condition_type
    ∷ gc_condition.condition_type ∷ async_processor_condition.condition_type ∷ []

abbrev pub condition_status : Bool → ConditionStatus
condition_status ok = if ok then is_true else is_false

abbrev pub condition_reason : Bool → String → String → String
condition_reason ok true_reason false_reason = if ok then true_reason else false_reason

abbrev pub condition_message : Bool → Message → Message → Message
condition_message ok true_message false_message = if ok then true_message else false_message
