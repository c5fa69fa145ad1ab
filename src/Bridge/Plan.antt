-- ===== src/Bridge/Plan.antt =====
-- The data of a plan (bridge/plan.go) and the checks and defaults of its policies
-- (bridge/validate.go, bridge/execute.go, bridge/codes.go). What a map to `any` holds is a parameter,
-- and so is a floating-point number.
pub mod Repeat
use satis.Base.{
  ℕ, zero, suc, ltb, Text, bytes, text_eq, Map, Bool, true, false, ◌||◌, ◌&&◌, not, if◌then◌else◌,
  Option, none, some, List, [], ◌∷◌,
}
use satis.Base.Ints.{ℤ, pos, negsuc}
use satis.Vfs.Names.{trim_space}
use satis.Vfs.Memory.Content.{starts_with}
use satis.Bridge.Graph.{LoopPolicy, PlanEdge, has_limit}

pub record ChunkRepeat : Type 0 where
  pub mode : Text
  pub input_paths : List Text
  pub output_tmpl : Text
  pub prompt : Text

pub record ChunkSource : Type 0 where
  pub satis_text : Text
  pub format : Text

pub record RetryPolicy : Type 0 where
  pub max_attempts : ℤ
  pub backoff_ms : ℤ

pub record PlanPolicies : Type 0 where
  pub max_parallel_chunks : ℤ
  pub fail_fast : Bool
  pub require_approval_for_plan : Bool

pub record InteractionContextBinding : Type 0 where
  pub name : Text
  pub from_input : Text

pub record HumanInteraction : Type 0 where
  pub title : Text
  pub description : Text

pub record ArtifactSpec : Type 0 where
  pub name : Text
  pub virtual_path : Text
  pub file_id : Text

module _ (Float : Type 0) where
  pub record LlmInteraction : Type 0 where
    pub system_prompt_ref : Text
    pub developer_prompt_ref : Text
    pub user_prompt_template : Text
    pub context_bindings : List InteractionContextBinding
    pub temperature : Float
    pub max_tokens : ℤ

  pub record InteractionSpec : Type 0 where
    pub mode : Text
    pub llm : Option LlmInteraction
    pub human : Option HumanInteraction

  pub record DecisionSpec : Type 0 where
    pub allowed_branches : List Text
    pub default_branch : Text
    pub interaction : Option InteractionSpec

  module _ (Any : Type 0) where
    pub record PlanChunk : Type 0 where
      pub chunk_id : Text
      pub kind : Text
      pub description : Text
      pub source : ChunkSource
      pub decision : Option DecisionSpec
      pub inputs : Map Text Any
      pub outputs : Map Text Any
      pub depends_on : List Text
      pub retry_policy : Option RetryPolicy
      pub timeout_ms : ℤ
      pub idempotency_key : Text
      pub approval_mode : Text
      pub repeat : Option ChunkRepeat

    pub record ChunkGraphPlan : Type 0 where
      pub protocol_version : ℤ
      pub plan_id : Text
      pub intent_id : Text
      pub intent_description : Text
      pub plan_description : Text
      pub goal : Text
      pub chunks : List PlanChunk
      pub edges : List PlanEdge
      pub entry_chunks : List Text
      pub artifacts : List ArtifactSpec
      pub planner_notes : List Text
      pub policies : Option PlanPolicies

abbrev pub default_policies : PlanPolicies
default_policies = record {
  max_parallel_chunks = pos 1;
  fail_fast = true;
  require_approval_for_plan = false;
}

unfoldable pub policies_or_default : Option PlanPolicies → PlanPolicies
policies_or_default none = default_policies
policies_or_default (some policies) = policies

-- A backoff is in milliseconds; 200 of them where none is given.
abbrev backoff_of : ℤ → ℕ
backoff_of (pos zero) = 200
backoff_of (pos (suc n)) = suc n
backoff_of (negsuc n) = 200

abbrev retries : ℕ → ℤ → ℕ × ℕ
retries n backoff = if ltb 1 n then (n, backoff_of backoff) else (1, 0)

-- How often a chunk is tried, and how long to wait in between.
unfoldable pub retry_policy_or_default : Option RetryPolicy → ℕ × ℕ
retry_policy_or_default none = (1, 0)
retry_policy_or_default (some policy) = elim policy.max_attempts [
  | pos n ↦ retries n policy.backoff_ms
  | negsuc n ↦ (1, 0)
]

-- The message of a problem; each has one code.
pub data RepeatIssue : Type 0 where
  bad_mode no_input_paths no_output_template bad_output_template no_prompt no_input_path
        no_output_path :
      RepeatIssue

-- strings.Contains
unfoldable pub contains : Text → Text → Bool
unfolding starts_with
contains [] word = starts_with word []
contains (c ∷ cs) word = starts_with word (c ∷ cs) || contains cs word

abbrev batch_issue : ChunkRepeat → Option RepeatIssue
batch_issue r =
    if text_eq r.mode (bytes "batch") && text_eq r.prompt [] then some no_prompt else none

abbrev per_item_issue : Text → Option RepeatIssue
per_item_issue text =
    if not (contains text (bytes "__INPUT_PATH__"))
    then some no_input_path
    else if not (contains text (bytes "__OUTPUT_PATH__"))
    then some no_output_path
    else none

-- The test tells which texts are templates (text/template).
unfoldable pub repeat_issue : (Text → Bool) → ChunkRepeat → Text → Option RepeatIssue
unfolding contains text_eq
repeat_issue parses r text =
    if not (text_eq r.mode (bytes "per_item") || text_eq r.mode (bytes "batch"))
    then some bad_mode
    else if (elim r.input_paths [ [] ↦ true | _ ∷ _ ↦ false ])
    then some no_input_paths
    else if text_eq r.output_tmpl []
    then some no_output_template
    else if not (parses r.output_tmpl)
    then some bad_output_template
    else if text_eq r.mode (bytes "per_item")
    then per_item_issue text
    else batch_issue r

unfoldable pub validate_chunk_repeat :
    (Text → Bool) → Option ChunkRepeat → Text → Option RepeatIssue
unfolding repeat_issue
validate_chunk_repeat parses none text = none
validate_chunk_repeat parses (some r) text = repeat_issue parses r text
