-- ===== src/Report/Source.antt =====
-- Where the report's output is taken from.
use clerq.Prelude.{◌≡◌, ◌≢◌, ◌⊎◌, true, false, List, ◌∷◌, Option, none, some, All}
use clerq.Types.{Run, RunStep, ValidationOutput}
use clerq.Report.{is_output}

-- The step is no validation step, or has no output yet.
abbrev pub IsOther : RunStep → Type 0
IsOther s = (s.node_type ≢ "validate_documents") ⊎ (s.output_data ≡ none)

-- `o` is the output of the first validation step that has one.
pub data FirstOutput (o : ValidationOutput) : List RunStep → Type 0 where
  here :
      {s : RunStep} {ss : List RunStep}
      → s.node_type ≡ "validate_documents"
      → s.output_data ≡ some o
      → FirstOutput o (s ∷ ss)
  there : {s : RunStep} {ss : List RunStep} → IsOther s → FirstOutput o ss → FirstOutput o (s ∷ ss)

-- The run has no result of its own, or one with neither a list of findings nor a verdict.
abbrev pub IsBare : Run → Type 0
IsBare run =
    (run.result ≡ none) ⊎ ((r : ValidationOutput) × (run.result ≡ some r) × (is_output r ≡ false))

-- The three sources of a report, which exclude one another.
pub data Source (run : Run) : Option ValidationOutput → Type 0 where
  from_result :
      {o : ValidationOutput} → run.result ≡ some o → is_output o ≡ true → Source run (some o)
  from_step : {o : ValidationOutput} → IsBare run → FirstOutput o run.steps → Source run (some o)
  missing : IsBare run → All IsOther run.steps → Source run none

-- what `step_output` finds
abbrev StepSource : List RunStep → Option ValidationOutput → Type 0
StepSource ss none = All IsOther ss
StepSource ss (some o) = FirstOutput o ss
