-- ===== src/Api/Status.antt =====
-- api/v1alpha1/llmbatchgateway_types.go: the status of an LLMBatchGateway.
use llm_d_batch_gateway_oper.Prelude.{Option}
use llm_d_batch_gateway_oper.Prelude.Int.{ℤ}

pub record ComponentReplicaStatus : Type 0 where
  pub replicas : ℤ
  pub ready_replicas : ℤ

pub record ComponentStatus : Type 0 where
  pub api_server : Option ComponentReplicaStatus
  pub processor : Option ComponentReplicaStatus
  pub gc : Option ComponentReplicaStatus
  pub async_processor : Option ComponentReplicaStatus

-- `Conditions` stands for []metav1.Condition, which only apimachinery's functions read and write.
pub record LlmBatchGatewayStatus (Conditions : Type 0) : Type 0 where
  pub observed_generation : ℤ
  pub conditions : Conditions
  pub component_status : Option ComponentStatus
