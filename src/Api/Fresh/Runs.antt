-- ===== src/Api/Fresh/Runs.antt =====
-- The writes of api/runs.ts and api/review.ts to one run, and how long its page polls.
use clerq.Prelude.{ℕ, ◌≡◌, String, true, ◌||◌, Option, some, [], ◌∷◌, take, arith}
use clerq.Api.Base.{Key, Mutation, QueryClient, refreshes, str, num, opt_num, scalar, word}
use clerq.Api.Runs

-- The last number is the id of the run that the server answers with.
pub data RunWrite : Type 0 where
  cancel finalize reopen : ℕ → ℕ → RunWrite
  annotate : ℕ → String → ℕ → RunWrite

unfoldable pub run_write : RunWrite → Mutation
unfolding Runs.use_run Runs.use_runs Runs.use_validate_runs Runs.use_cancel_run
    Runs.use_finalize_review Runs.use_reopen_review Runs.use_annotate_finding
run_write (cancel id answer) = Runs.use_cancel_run id answer
run_write (finalize id answer) = Runs.use_finalize_review id answer
run_write (reopen id answer) = Runs.use_reopen_review id answer
run_write (annotate id rule answer) = Runs.use_annotate_finding id rule answer

abbrev pub run_of : RunWrite → ℕ
run_of (cancel id answer) = id
run_of (finalize id answer) = id
run_of (reopen id answer) = id
run_of (annotate id rule answer) = id

abbrev pub answer_of : RunWrite → ℕ
answer_of (cancel id answer) = answer
answer_of (finalize id answer) = answer
answer_of (reopen id answer) = answer
answer_of (annotate id rule answer) = answer

module _ (client : QueryClient) where
  matching_run :
      (id : ℕ)
      → let k = word "runs" ∷ word "detail" ∷ scalar (num id) ∷ [] in client.matches k k ≡ true
  matching_run id = client.matches_prefix (word "runs" ∷ word "detail" ∷ scalar (num id) ∷ []) []

  matching_list :
      (root : String) (more : Key) → client.matches (word root ∷ []) (word root ∷ more) ≡ true
  matching_list root more = client.matches_prefix (word root ∷ []) more

  -- Every write to a run and its review goes to that run's URL. Where the server answers with the
  -- same run, its success makes the report's run be fetched anew, and one of the two kinds of lists
  -- of runs: those of workflows, or those of policies, whatever they are filtered by.
  pub run_write-refreshes :
      (w : RunWrite) (filter : Option ℕ)
      → answer_of w ≡ run_of w
      → (take 2 (run_write w).path ≡ str "/runs/" ∷ num (run_of w) ∷ [])
        × (refreshes client (run_write w) (Runs.use_run (some (run_of w))) ≡ true)
        × ((refreshes client (run_write w) (Runs.use_runs filter)
              || refreshes client (run_write w) (Runs.use_validate_runs filter))
            ≡ true)
  unfolding run_write
  run_write-refreshes w filter h = ground (
    arith,
    matching_run (run_of w),
    matching_list "runs" (scalar (opt_num filter) ∷ []),
    matching_list "validate-runs" (scalar (opt_num filter) ∷ []),
  )
