-- ===== src/Types.antt =====
-- The wire types of frontend/src/types/workflow.ts that the modelled code reads.
--
-- A field that may be null or absent is an `Option`. A `Record<string, unknown>` that the code
-- casts (a run's result, a step's output) is the record of the fields that some code reads, each
-- an `Option`: `none` where the field is absent or has another shape. A confidence (a float from
-- 0 to 1) is a whole number of ten-thousandths.
mod Status
pub use Status.*
use clerq.Prelude.{ℕ, String, Text, Bool, Option, List}

pub record PerDocumentResult : Type 0 where
  pub document_id : Option ℕ
  pub document_filename : Text
  pub status : Verdict
  pub confidence : ℕ
  pub evidence : Text

-- A `Record<string, unknown>` that is only listed or printed: its keys, and its JSON text.
pub record Extracted : Type 0 where
  pub keys : List String
  pub json : Text

pub record ValidationRuleResult : Type 0 where
  pub rule_name : String
  pub requirement : String
  pub scope : Option String
  pub status : Verdict
  pub confidence : Option ℕ
  pub evidence : Option Text
  pub extracted : Option Extracted
  pub per_document : Option (List PerDocumentResult)

-- `ValidationOutput`, and any other result or step output that is cast to it. `documents` are the
-- documents of a step that renders several, each with its page images.
pub record ValidationOutput : Type 0 where
  pub policy_id : Option ℕ
  pub policy_name : Option Text
  pub policy_version_num : Option ℕ
  pub overall : Option Overall
  pub results : Option (List ValidationRuleResult)
  pub image_paths : Option (List String)
  pub documents : Option (List (List String))

pub record RunStep : Type 0 where
  pub id : ℕ
  pub node_id : String
  pub node_type : String
  pub status : StepStatus
  pub output_data : Option ValidationOutput
  pub error : Option Text
  pub logs : List Text

pub record ReviewOverride : Type 0 where
  pub status : Verdict
  pub reason : Text

pub record FindingAnnotation : Type 0 where
  pub note : Option Text
  pub override : Option ReviewOverride

pub record ReportReview : Type 0 where
  pub state : ReviewState
  pub annotations : List (String × FindingAnnotation)
  pub finalized_at : Option Text
  pub finalized_by : Option Text
  pub effective_overall : Option Overall

pub record Run : Type 0 where
  pub id : ℕ
  pub workflow_id : Option ℕ
  pub document_ids : Option (List ℕ)
  pub result : Option ValidationOutput
  pub name : Option Text
  pub source : Option String
  pub policy_id : Option ℕ
  pub status : RunStatus
  pub error : Option Text
  pub created_at : Text
  pub steps : List RunStep
  pub review : Option ReportReview

pub record SseRunUpdate : Type 0 where
  pub run_id : ℕ
  pub status : RunStatus
  pub error : Option Text
  pub steps : List RunStep

pub record PolicyRule : Type 0 where
  pub id : ℕ
  pub policy_id : ℕ
  pub position : ℕ
  pub name : String
  pub requirement : String
  pub scope : Option String
  pub accept_criteria : Option Text
  pub fail_criteria : Option Text
  pub ai_instructions : Option Text
  pub document_type_id : Option ℕ
  pub confidence_threshold : ℕ
  pub reference_list_id : Option ℕ
  pub reference_direction : String
  pub reference_match : String

pub record Policy : Type 0 where
  pub id : ℕ
  pub name : Text
  pub brief : Text
  pub email_inbox_enabled : Bool
  pub email_address : Option Text
  pub email_reply_mode : Option String
  pub email_pass_message : Option Text
  pub email_fail_message : Option Text
  pub current_version_num : ℕ
  pub rules : List PolicyRule
