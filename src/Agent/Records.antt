-- ===== src/Agent/Records.antt =====
-- internal/runtime/agent/types.go. Nil maps and slices that are tested for their length only are
-- empty ones.
use ktsu.Prelude.{ℕ, String, Bool, Option, List}
use ktsu.Prelude.Map.{Map}
use ktsu.Value.{Value}
use ktsu.Value.Float.{Float64}
use ktsu.State.Records.{Message, Raw}

pub record ModelSpec : Type 0 where
  pub group : String
  pub max_tokens : ℕ

pub record ToolApprovalRule : Type 0 where
  pub pattern_ : String
  pub on_reject : String
  pub timeout_ms : ℕ
  pub timeout_behavior : String

pub record ToolServerSpec : Type 0 where
  pub name : String
  pub url : String
  pub allowlist : List String
  pub persistent_id : String
  pub auth_header : String
  pub auth_value : String
  pub params : Map Value
  pub secret_keys : List String
  pub approval_rules : List ToolApprovalRule

-- `max_turns` is 0 where the field is 0 or negative: the loop treats these alike.
pub record InvokeRequest : Type 0 where
  pub run_id : String
  pub step_id : String
  pub agent_name : String
  pub system : String
  pub user_message : String
  pub reflect : String
  pub confidence_threshold : Float64
  pub max_turns : ℕ
  pub model : ModelSpec
  pub tool_servers : List ToolServerSpec
  pub callback_url : String
  pub output_schema : Map Value
  pub messages : List Message
  pub approved_tool_calls : List String
  pub is_resume : Bool

pub record PendingApproval : Type 0 where
  pub tool_name : String
  pub tool_use_id : String
  pub arguments : Option (Map Value)
  pub on_reject : String
  pub timeout_ms : ℕ
  pub timeout_behavior : String

pub record Metrics : Type 0 where
  pub model_resolved : String
  pub tokens_in : ℕ
  pub tokens_out : ℕ
  pub cost_usd : Float64
  pub duration_ms : ℕ
  pub llm_calls : ℕ
  pub tool_calls : ℕ
  pub reflect_calls : ℕ

pub record CallbackPayload : Type 0 where
  pub run_id : String
  pub step_id : String
  pub status : String
  pub output : Option (Map Value)
  pub error : String
  pub raw_output : String
  pub metrics : Metrics
  pub is_resume : Bool
  pub messages : List Message
  pub pending_approval : Option PendingApproval
  pub original_request : Raw InvokeRequest
