-- ===== src/Runner/Steps/Config.antt =====
-- The steps of a workflow (internal/config/types.go).
use Prim.Native.String.{String}
use ktsu.Prelude.{ℕ, Bool, Option, List}
use ktsu.Prelude.Map.{Map}
use ktsu.Value.{Value}
use ktsu.Value.Float.{Float64}
use ktsu.Runner.Transform.{TransformSpec}

-- MaxItems and Concurrency are 0 where they are 0 or negative, MaxFailures is none where it is negative.
pub record ForEachSpec : Type 0 where
  pub from_ : String
  pub max_items : ℕ
  pub max_failures : Option ℕ

pub record WebhookSpec : Type 0 where
  pub url : String
  pub method : String
  pub body : Map Value
  pub timeout_s : ℕ

-- An output with its schema and its map; a nil schema is `none`.
pub record OutputSpec : Type 0 where
  pub schema : Option (Map Value)
  pub map_ : Map String

pub record PipelineStep : Type 0 where
  pub id : String
  pub agent : String
  pub transform : Option TransformSpec
  pub webhook : Option WebhookSpec
  pub workflow : String
  pub workflow_input : Map Value
  pub workflow_webhooks : String
  pub params : Map Value
  pub for_each : Option ForEachSpec
  pub depends_on : List String
  pub condition : String
  pub confidence_threshold : Float64
  pub output : Option OutputSpec

pub record EnvVarDecl : Type 0 where
  pub name : String
  pub secret : Bool
  pub default_ : Option String

pub record WorkflowConfig : Type 0 where
  pub name : String
  pub webhooks : String
  pub env : List EnvVarDecl
  pub params_schema : Map Value
  pub pipeline : List PipelineStep
  pub output : Option OutputSpec
