-- ===== src/ValidatePage/Examples.antt =====
-- The page at concrete runs.
use clerq.Prelude.{◌≡◌, refl, codes, none, some, List, [], ◌∷◌, ◌++◌, map}
use clerq.Types.{RunStep, StepStatus, ValidationRuleResult, Verdict}
use clerq.ValidatePage.{
  Page, upload, trigger, Event, select, add_files, remove_file, press_run, uploaded, open_page, run,
}
use clerq.ValidatePage.Uploads.{job_requests, ids_of, run-uploads}

abbrev chosen : Page
chosen = record open_page {
  selected_policy_id = some 7;
  files = codes "plan.pdf" ∷ codes "deed.pdf" ∷ [];
}

abbrev busy : List Event
busy = uploaded 31 ∷ add_files (codes "late.pdf" ∷ []) ∷ select 8 ∷ remove_file 0 ∷ uploaded 32 ∷ []

run-uploads_example :
    job_requests (run (press_run ∷ busy) chosen).1
    ≡ map upload (codes "plan.pdf" ∷ codes "deed.pdf" ∷ []) ++ trigger 7 (ids_of busy) ∷ []
run-uploads_example =
    run-uploads busy chosen 7 (codes "plan.pdf") (codes "deed.pdf" ∷ []) refl refl refl
      (tt, (tt, (tt, (tt, (tt, tt))))) refl

abbrev result : Verdict → ValidationRuleResult
result v = record {
  rule_name = "Height";
  requirement = "";
  scope = none;
  status = v;
  confidence = none;
  evidence = none;
  extracted = none;
  per_document = none;
}

abbrev ended : RunStep
ended = record {
  id = 2;
  node_id = "v";
  node_type = "validate_documents";
  status = StepStatus.succeeded;
  output_data = some (record {
    policy_id = none;
    policy_name = none;
    policy_version_num = none;
    overall = none;
    results = some (result Verdict.fail ∷ result Verdict.pass ∷ []);
    image_paths = none;
    documents = none;
  });
  error = none;
  logs = [];
}
