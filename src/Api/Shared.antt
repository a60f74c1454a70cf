-- ===== src/Api/Shared.antt =====
-- Types of the Kubernetes API that the specs of api/v1alpha1 hold, as far as the operator reads
-- them, and the logging block that the components share.
use llm_d_batch_gateway_oper.Prelude.{String, Option}
use llm_d_batch_gateway_oper.Prelude.Assoc.{Assoc}
use llm_d_batch_gateway_oper.Prelude.Int.{ℤ}

-- corev1.ResourceList: a quantity stands here as its `String` method prints it.
abbrev pub ResourceList : Type 0
ResourceList = Assoc String

-- corev1.ResourceRequirements; a nil map is `none`.
pub record ResourceRequirements : Type 0 where
  pub limits : Option ResourceList
  pub requests : Option ResourceList

-- corev1.SecretReference
pub record SecretReference : Type 0 where
  pub name : String
  pub namespace : String

pub record LoggingConfig : Type 0 where
  pub verbosity : ℤ
