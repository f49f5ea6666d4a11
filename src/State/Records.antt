-- ===== src/State/Records.antt =====
-- The records of pkg/types/run.go and pkg/types/envelope.go. A `time.Time` is a number of nanoseconds,
-- a nil pointer or map is `none`. A `json.RawMessage` is the value that it encodes, or `malformed`.
use ktsu.Prelude.{ℕ, String, Bool, Option, List}
use ktsu.Prelude.Map.{Map}
use ktsu.Value.{Value}
use ktsu.Value.Float.{Float64}

pub data Raw {ℓ} (A : Type ℓ) : Type ℓ where
  absent : Raw A
  encodes : A → Raw A
  malformed : Raw A

pub record StepMetrics : Type 0 where
  pub duration_ms : ℕ
  pub tokens_in : ℕ
  pub tokens_out : ℕ
  pub cost_usd : Float64
  pub llm_calls : ℕ
  pub tool_calls : ℕ
  pub reflected : Bool
  pub reflect_calls : ℕ

pub record RunTotals : Type 0 where
  pub duration_ms : ℕ
  pub tokens_in : ℕ
  pub tokens_out : ℕ
  pub cost_usd : Float64
  pub llm_calls : ℕ
  pub tool_calls : ℕ

pub record Run : Type 0 where
  pub id : String
  pub workflow_name : String
  pub status : String
  pub created_at : ℕ
  pub updated_at : ℕ
  pub completed_at : Option ℕ
  pub error : String
  pub metadata : Option (Map String)
  pub payload : Option (Map Value)

-- A message of a conversation (internal/runtime/agent/types.go).
pub record Message : Type 0 where
  pub role : String
  pub content : String

pub record Step : Type 0 where
  pub id : String
  pub run_id : String
  pub name : String
  pub kind : String
  pub status : String
  pub started_at : Option ℕ
  pub ended_at : Option ℕ
  pub error : String
  pub output : Option (Map Value)
  pub metrics : StepMetrics
  pub reflected : Option Bool
  pub messages : Raw (List Message)

-- `R` is the type of the request that the approval keeps for a later dispatch.
pub record Approval (R : Type 0) : Type 0 where
  pub run_id : String
  pub step_id : String
  pub tool_name : String
  pub tool_use_id : String
  pub arguments : Option (Map Value)
  pub on_reject : String
  pub timeout_ms : ℕ
  pub timeout_behavior : String
  pub status : String
  pub created_at : ℕ
  pub decided_at : Option ℕ
  pub original_request : Raw R
  pub partial_metrics : StepMetrics
