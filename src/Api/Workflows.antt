-- ===== src/Api/Workflows.antt =====
-- frontend/src/api/workflows.ts
use clerq.Prelude.{ℕ, Bool, true, Option, [], ◌∷◌, is_some, if◌then◌else◌}
use clerq.Api.Base.{str, num, opt_num, object, scalar, word, Params, Query, Mutation, post, put}

abbrev pub archived_flag : Bool → Params
archived_flag flag = ("includeArchived", str (if flag then "true" else "false")) ∷ []

abbrev pub archived_params : Params
archived_params = ("include_archived", str "true") ∷ []

-- `useWorkflows`
unfoldable pub use_workflows : Bool → Query
use_workflows include_archived = record {
  key = word "workflows" ∷ object (archived_flag include_archived) ∷ [];
  path = str "/workflows/" ∷ [];
  params = if include_archived then archived_params else [];
  is_enabled = true;
}

-- `useWorkflow`
unfoldable pub use_workflow : Option ℕ → Query
use_workflow id = record {
  key = word "workflows" ∷ scalar (opt_num id) ∷ [];
  path = str "/workflows/" ∷ opt_num id ∷ [];
  params = [];
  is_enabled = is_some id;
}

-- `useWorkflowVersions`
unfoldable pub use_workflow_versions : Option ℕ → Query
use_workflow_versions id = record {
  key = word "workflows" ∷ scalar (opt_num id) ∷ word "versions" ∷ [];
  path = str "/workflows/" ∷ opt_num id ∷ str "/versions" ∷ [];
  params = [];
  is_enabled = is_some id;
}

-- `useCreateWorkflow`
unfoldable pub use_create_workflow : Mutation
use_create_workflow = record {
  method = post;
  path = str "/workflows/" ∷ [];
  invalidates = (word "workflows" ∷ []) ∷ [];
  sets = [];
}

-- `useUpdateWorkflow`
unfoldable pub use_update_workflow : ℕ → Mutation
use_update_workflow id = record {
  method = put;
  path = str "/workflows/" ∷ num id ∷ [];
  invalidates =
      (word "workflows" ∷ [])
      ∷ (word "workflows" ∷ scalar (num id) ∷ [])
      ∷ (word "workflows" ∷ scalar (num id) ∷ word "versions" ∷ [])
      ∷ [];
  sets = [];
}

-- `useArchiveWorkflow`
unfoldable pub use_archive_workflow : ℕ → Mutation
use_archive_workflow id = record {
  method = post;
  path = str "/workflows/" ∷ num id ∷ str "/archive" ∷ [];
  invalidates = (word "workflows" ∷ []) ∷ [];
  sets = [];
}

-- `useUnarchiveWorkflow`
unfoldable pub use_unarchive_workflow : ℕ → Mutation
use_unarchive_workflow id = record {
  method = post;
  path = str "/workflows/" ∷ num id ∷ str "/unarchive" ∷ [];
  invalidates = (word "workflows" ∷ []) ∷ [];
  sets = [];
}

-- `useFavoriteWorkflow`
unfoldable pub use_favorite_workflow : ℕ → Mutation
use_favorite_workflow id = record {
  method = post;
  path = str "/workflows/" ∷ num id ∷ str "/favorite" ∷ [];
  invalidates = (word "workflows" ∷ []) ∷ [];
  sets = [];
}

-- `useUnfavoriteWorkflow`
unfoldable pub use_unfavorite_workflow : ℕ → Mutation
use_unfavorite_workflow id = record {
  method = post;
  path = str "/workflows/" ∷ num id ∷ str "/unfavorite" ∷ [];
  invalidates = (word "workflows" ∷ []) ∷ [];
  sets = [];
}

-- `useEnableWorkflowInbox`
unfoldable pub use_enable_workflow_inbox : ℕ → Mutation
use_enable_workflow_inbox id = record {
  method = post;
  path = str "/workflows/" ∷ num id ∷ str "/enable-inbox" ∷ [];
  invalidates = (word "workflows" ∷ []) ∷ (word "mail" ∷ word "mailboxes" ∷ []) ∷ [];
  sets = [];
}

-- `useDisableWorkflowInbox`
unfoldable pub use_disable_workflow_inbox : ℕ → Mutation
use_disable_workflow_inbox id = record {
  method = post;
  path = str "/workflows/" ∷ num id ∷ str "/disable-inbox" ∷ [];
  invalidates = (word "workflows" ∷ []) ∷ (word "mail" ∷ word "mailboxes" ∷ []) ∷ [];
  sets = [];
}

-- `useSetWorkflowInboxAddress`
unfoldable pub use_set_workflow_inbox_address : ℕ → Mutation
use_set_workflow_inbox_address id = record {
  method = put;
  path = str "/workflows/" ∷ num id ∷ str "/inbox-address" ∷ [];
  invalidates = (word "workflows" ∷ []) ∷ (word "mail" ∷ word "mailboxes" ∷ []) ∷ [];
  sets = [];
}

-- `useRestoreVersion`
unfoldable pub use_restore_version : ℕ → ℕ → ℕ → Mutation
use_restore_version id version_id answer_id = record {
  method = post;
  path = str "/workflows/" ∷ num id ∷ str "/versions/" ∷ num version_id ∷ str "/restore" ∷ [];
  invalidates =
      (word "workflows" ∷ [])
      ∷ (word "workflows" ∷ scalar (num answer_id) ∷ [])
      ∷ (word "workflows" ∷ scalar (num answer_id) ∷ word "versions" ∷ [])
      ∷ [];
  sets = [];
}
