-- ===== src/Api/Fresh/Workflows.antt =====
-- The writes of api/workflows.ts to one workflow.
use clerq.Prelude.{ℕ, ◌≡◌, Bool, true, some, [], ◌∷◌, take, arith}
use clerq.Api.Base.{Key, Mutation, QueryClient, refreshes, str, num, scalar, object, word}
use clerq.Api.Workflows
use clerq.Api.Workflows.{archived_flag}

-- `restore_version` has the version's id and the id of the workflow that the server answers with.
pub data WorkflowWrite : Type 0 where
  update archive unarchive favorite unfavorite enable_inbox disable_inbox set_address :
      ℕ → WorkflowWrite
  restore_version : ℕ → ℕ → ℕ → WorkflowWrite

unfoldable pub workflow_write : WorkflowWrite → Mutation
unfolding Workflows.use_workflows Workflows.use_workflow Workflows.use_workflow_versions
    Workflows.use_update_workflow Workflows.use_archive_workflow Workflows.use_unarchive_workflow
    Workflows.use_favorite_workflow Workflows.use_unfavorite_workflow
    Workflows.use_enable_workflow_inbox Workflows.use_disable_workflow_inbox
    Workflows.use_set_workflow_inbox_address Workflows.use_restore_version
workflow_write (update id) = Workflows.use_update_workflow id
workflow_write (archive id) = Workflows.use_archive_workflow id
workflow_write (unarchive id) = Workflows.use_unarchive_workflow id
workflow_write (favorite id) = Workflows.use_favorite_workflow id
workflow_write (unfavorite id) = Workflows.use_unfavorite_workflow id
workflow_write (enable_inbox id) = Workflows.use_enable_workflow_inbox id
workflow_write (disable_inbox id) = Workflows.use_disable_workflow_inbox id
workflow_write (set_address id) = Workflows.use_set_workflow_inbox_address id
workflow_write (restore_version id version answer) = Workflows.use_restore_version id version answer

-- the workflow written to
abbrev pub workflow_of : WorkflowWrite → ℕ
workflow_of (update id) = id
workflow_of (archive id) = id
workflow_of (unarchive id) = id
workflow_of (favorite id) = id
workflow_of (unfavorite id) = id
workflow_of (enable_inbox id) = id
workflow_of (disable_inbox id) = id
workflow_of (set_address id) = id
workflow_of (restore_version id version answer) = id

module _ (client : QueryClient) where
  abbrev IsUnder : Key → Type 0
  IsUnder more = client.matches (word "workflows" ∷ []) (word "workflows" ∷ more) ≡ true

  matching : (more : Key) → IsUnder more
  matching more = client.matches_prefix (word "workflows" ∷ []) more

  -- Every write to a workflow goes to that workflow's URL, and its success makes the workflow, its
  -- versions and both lists, with and without the archived ones, be fetched anew.
  pub workflow_write-refreshes :
      (w : WorkflowWrite) (archived : Bool)
      → (take 2 (workflow_write w).path ≡ str "/workflows/" ∷ num (workflow_of w) ∷ [])
        × (refreshes client (workflow_write w) (Workflows.use_workflow (some (workflow_of w)))
            ≡ true)
        × (refreshes client
              (workflow_write w)
              (Workflows.use_workflow_versions (some (workflow_of w)))
            ≡ true)
        × (refreshes client (workflow_write w) (Workflows.use_workflows archived) ≡ true)
  unfolding workflow_write
  workflow_write-refreshes w archived = ground (
    arith,
    matching (scalar (num (workflow_of w)) ∷ []),
    matching (scalar (num (workflow_of w)) ∷ word "versions" ∷ []),
    matching (object (archived_flag archived) ∷ []),
  )
