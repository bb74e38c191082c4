-- ===== src/Api/Fresh/Writes.antt =====
-- All writes to one thing that has a page of its own, together.
use clerq.Prelude.{◌≡◌, true, some, take}
use clerq.Api.Base.{Mutation, Query, QueryClient, refreshes}
use clerq.Api.Policies
use clerq.Api.Workflows
use clerq.Api.Cases
use clerq.Api.Runs
use clerq.Api.Library
use clerq.Api.Fresh.Policies.{PolicyWrite, policy_write, policy_of, policy_write-refreshes}
use clerq.Api.Fresh.Workflows.{WorkflowWrite, workflow_write, workflow_of, workflow_write-refreshes}
use clerq.Api.Fresh.Cases.{
  CaseWrite, case_write, case_of, answer_of as case_answer, case_write-refreshes,
}
use clerq.Api.Fresh.Runs.{RunWrite, run_write, run_of, answer_of as run_answer, run_write-refreshes}
use clerq.Api.Fresh.Library.{TypeWrite, type_write, type_of, type_write-refreshes}

pub data Write : Type 0 where
  to_policy : PolicyWrite → Write
  to_workflow : WorkflowWrite → Write
  to_case : CaseWrite → Write
  to_run : RunWrite → Write
  to_type : TypeWrite → Write

abbrev pub mutation_of : Write → Mutation
mutation_of (to_policy w) = policy_write w
mutation_of (to_workflow w) = workflow_write w
mutation_of (to_case w) = case_write w
mutation_of (to_run w) = run_write w
mutation_of (to_type w) = type_write w

-- the query of the page of what is written to
abbrev pub page_of : Write → Query
page_of (to_policy w) = Policies.use_policy (some (policy_of w))
page_of (to_workflow w) = Workflows.use_workflow (some (workflow_of w))
page_of (to_case w) = Cases.use_case (some (case_of w))
page_of (to_run w) = Runs.use_run (some (run_of w))
page_of (to_type w) = Library.use_document_type (some (type_of w))

-- Where the code takes the key from the server's answer, that is what was written to.
abbrev pub IsAnswered : Write → Type 0
IsAnswered (to_case w) = case_answer w ≡ case_of w
IsAnswered (to_run w) = run_answer w ≡ run_of w
IsAnswered _ = Unit

-- Each write to a policy, a workflow, a case, a run or a document type goes to a URL below that of
-- its page, and its success makes the query of that page be fetched anew, where the server answers
-- with what was written to.
pub write-refreshes_page :
    (client : QueryClient) (w : Write)
    → IsAnswered w
    → (take 2 (mutation_of w).path ≡ (page_of w).path)
      × (refreshes client (mutation_of w) (page_of w) ≡ true)
unfolding Policies.use_policy Workflows.use_workflow Cases.use_case Runs.use_run
    Library.use_document_type
write-refreshes_page client (to_policy w) h =
    let (url, fresh, _) = policy_write-refreshes client w in (url, fresh)
write-refreshes_page client (to_workflow w) h =
    let (url, fresh, _, _) = workflow_write-refreshes client w true in (url, fresh)
write-refreshes_page client (to_case w) h = case_write-refreshes client w h
write-refreshes_page client (to_run w) h =
    let (url, fresh, _) = run_write-refreshes client w (some 0) h in (url, fresh)
write-refreshes_page client (to_type w) h =
    let (url, fresh, _) = type_write-refreshes client w in (url, fresh)
