-- ===== src/Types.antt =====
-- packages/shared/src/types.ts: the data that the engine, the parser and the providers share.
-- An optional field (`x?: T`) is an `Option`.
use makedown.Base.{ℕ, Text, Option, List, Bool}

pub data StepType : Type 0 where
  chat agent transform eval map_step : StepType

pub data Sandbox : Type 0 where
  worktree container no_sandbox : Sandbox

pub data Approval : Type 0 where
  not_required required : Approval

pub data RoutePolicy : Type 0 where
  strict cost_aware : RoutePolicy

pub data CachePolicy : Type 0 where
  deterministic : CachePolicy
  stochastic : ℕ → CachePolicy
  always : CachePolicy

-- JSON data (`unknown` in the source). A number is the text that prints it.
mutual
  pub data Json : Type 0 where
    null : Json
    bool : Bool → Json
    num : Text → Json
    str : Text → Json
    arr : Items → Json
    obj : Fields → Json

  pub data Items : Type 0 where
    nil : Items
    cons : Json → Items → Items

  pub data Fields : Type 0 where
    end : Fields
    field : Text → Json → Fields → Fields

pub record RecipeHeader : Type 0 where
  pub inputs : List Text
  pub step : StepType
  pub model : Option Text
  pub fallback : Option (List Text)
  pub route : Option RoutePolicy
  pub system : Option Text
  pub params : Fields
  pub output : Text
  pub cache : CachePolicy
  pub agent_id : Option Text
  pub sandbox : Sandbox
  pub approval : Approval
  pub transform_script : Option Text
  pub over : Option Text
  pub schema : Option Json

pub record TargetBlock : Type 0 where
  pub name : Text
  pub header : RecipeHeader
  pub body : Text

pub record Defaults : Type 0 where
  pub model : Option Text
  pub fallback : Option (List Text)
  pub route : Option RoutePolicy
  pub system : Option Text
  pub params : Option Fields
  pub cache : Option CachePolicy

pub record FrontMatter : Type 0 where
  pub version : Option Text
  pub defaults : Option Defaults
  pub artifacts_dir : Text
  pub sources_dir : Text

pub record BuildDoc : Type 0 where
  pub front_matter : FrontMatter
  pub targets : List TargetBlock

pub data InputKind : Type 0 where
  source target : InputKind

pub record ImportedSource : Type 0 where
  pub importer : Text
  pub conversion_id : Text

pub record ResolvedInput : Type 0 where
  pub ref : Text
  pub kind : InputKind
  pub hash : Text
  pub imported : Option ImportedSource

pub record TokenUsage : Type 0 where
  pub input : ℕ
  pub output : ℕ

-- A cost is in millionths of a dollar, and a duration in milliseconds.
pub record Provenance : Type 0 where
  pub target : Text
  pub id : Text
  pub output : Text
  pub step : StepType
  pub model : Option Text
  pub requested_model : Option Text
  pub fell_back : Option Bool
  pub params : Fields
  pub inputs : List ResolvedInput
  pub prompt_hash : Text
  pub tokens : Option TokenUsage
  pub cost_usd : Option ℕ
  pub duration_ms : Option ℕ
  pub produced_at : Text
  pub produced_by : Option Text
