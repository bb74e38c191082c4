-- ===== src/Types/Status.antt =====
-- The status vocabularies of frontend/src/types/workflow.ts. `other` stands for any string beside
-- the listed ones: the types are not checked at run time, and the code has a fallback for it.
use Prim.Native.String.{String}

-- a finding's status
pub data Verdict : Type 0 where
  pass fail uncertain not_applicable : Verdict
  other : String → Verdict

-- a report's overall verdict
pub data Overall : Type 0 where
  pass fail needs_review : Overall
  other : String → Overall

pub data RunStatus : Type 0 where
  pending running waiting completed failed cancelled : RunStatus

pub data StepStatus : Type 0 where
  pending ready running succeeded failed skipped waiting cancelled : StepStatus

pub data ReviewState : Type 0 where
  draft finalized : ReviewState

abbrev pub verdict_name : Verdict → String
verdict_name Verdict.pass = "pass"
verdict_name Verdict.fail = "fail"
verdict_name uncertain = "uncertain"
verdict_name not_applicable = "not_applicable"
verdict_name (Verdict.other s) = s

abbrev pub overall_name : Overall → String
overall_name Overall.pass = "pass"
overall_name Overall.fail = "fail"
overall_name needs_review = "needs_review"
overall_name (Overall.other s) = s
