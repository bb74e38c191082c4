-- ===== src/Api/Runs.antt =====
-- frontend/src/api/runs.ts, validate.ts, review.ts and mail.ts. `answer_id` and the like are fields
-- of the run that the server answers with.
use clerq.Prelude.{ℕ, zero, suc, String, true, Option, none, some, [], ◌∷◌, is_some}
use clerq.Types.{RunStatus, pending, running, waiting}
use clerq.Api.Base.{str, num, opt_num, encoded, scalar, word, Params, Query, Mutation, post, patch}

-- `id ? { name: id } : {}`: zero is no id
abbrev pub id_params : String → Option ℕ → Params
id_params name none = []
id_params name (some zero) = []
id_params name (some (suc n)) = (name, num (suc n)) ∷ []

-- `useRuns`
unfoldable pub use_runs : Option ℕ → Query
use_runs workflow_id = record {
  key = word "runs" ∷ scalar (opt_num workflow_id) ∷ [];
  path = str "/runs/" ∷ [];
  params = id_params "workflow_id" workflow_id;
  is_enabled = true;
}

-- `useRun`
unfoldable pub use_run : Option ℕ → Query
use_run id = record {
  key = word "runs" ∷ word "detail" ∷ scalar (opt_num id) ∷ [];
  path = str "/runs/" ∷ opt_num id ∷ [];
  params = [];
  is_enabled = is_some id;
}

-- `useTriggerRun`
unfoldable pub use_trigger_run : Option ℕ → Mutation
use_trigger_run answer_workflow_id = record {
  method = post;
  path = str "/runs/" ∷ [];
  invalidates = (word "runs" ∷ []) ∷ (word "runs" ∷ scalar (opt_num answer_workflow_id) ∷ []) ∷ [];
  sets = [];
}

-- `useDocuments`
unfoldable pub use_documents : Query
use_documents = record {
  key = word "documents" ∷ [];
  path = str "/documents/" ∷ [];
  params = [];
  is_enabled = true;
}

-- `useCancelRun`
unfoldable pub use_cancel_run : ℕ → ℕ → Mutation
use_cancel_run run_id answer_id = record {
  method = post;
  path = str "/runs/" ∷ num run_id ∷ str "/cancel" ∷ [];
  invalidates =
      (word "runs" ∷ word "detail" ∷ scalar (num answer_id) ∷ []) ∷ (word "runs" ∷ []) ∷ [];
  sets = [];
}

-- `useUploadDocument`
unfoldable pub use_upload_document : Mutation
use_upload_document = record {
  method = post;
  path = str "/documents/upload" ∷ [];
  invalidates = (word "documents" ∷ []) ∷ [];
  sets = [];
}

-- `useValidateRuns`
unfoldable pub use_validate_runs : Option ℕ → Query
use_validate_runs policy_id = record {
  key = word "validate-runs" ∷ scalar (opt_num policy_id) ∷ [];
  path = str "/validate/runs" ∷ [];
  params = id_params "policy_id" policy_id;
  is_enabled = true;
}

-- `useTriggerValidateRun`
unfoldable pub use_trigger_validate_run : Option ℕ → Mutation
use_trigger_validate_run answer_policy_id = record {
  method = post;
  path = str "/validate/run" ∷ [];
  invalidates =
      (word "validate-runs" ∷ [])
      ∷ (word "validate-runs" ∷ scalar (opt_num answer_policy_id) ∷ [])
      ∷ [];
  sets = [];
}

-- `useAnnotateFinding`
unfoldable pub use_annotate_finding : ℕ → String → ℕ → Mutation
use_annotate_finding run_id rule_name answer_id = record {
  method = patch;
  path = str "/runs/" ∷ num run_id ∷ str "/review/finding/" ∷ encoded rule_name ∷ [];
  invalidates =
      (word "runs" ∷ word "detail" ∷ scalar (num answer_id) ∷ [])
      ∷ (word "validate-runs" ∷ [])
      ∷ [];
  sets = [];
}

-- `useFinalizeReview`
unfoldable pub use_finalize_review : ℕ → ℕ → Mutation
use_finalize_review run_id answer_id = record {
  method = post;
  path = str "/runs/" ∷ num run_id ∷ str "/review/finalize" ∷ [];
  invalidates =
      (word "runs" ∷ word "detail" ∷ scalar (num answer_id) ∷ [])
      ∷ (word "validate-runs" ∷ [])
      ∷ [];
  sets = [];
}

-- `useReopenReview`
unfoldable pub use_reopen_review : ℕ → ℕ → Mutation
use_reopen_review run_id answer_id = record {
  method = post;
  path = str "/runs/" ∷ num run_id ∷ str "/review/reopen" ∷ [];
  invalidates =
      (word "runs" ∷ word "detail" ∷ scalar (num answer_id) ∷ [])
      ∷ (word "validate-runs" ∷ [])
      ∷ [];
  sets = [];
}

-- `useMailboxes`
unfoldable pub use_mailboxes : Query
use_mailboxes = record {
  key = word "mail" ∷ word "mailboxes" ∷ [];
  path = str "/mail/mailboxes" ∷ [];
  params = [];
  is_enabled = true;
}

-- `useMailMessages`
unfoldable pub use_mail_messages : Query
use_mail_messages = record {
  key = word "mail" ∷ word "messages" ∷ [];
  path = str "/mail/messages" ∷ [];
  params = [];
  is_enabled = true;
}

-- `useSendMail`
unfoldable pub use_send_mail : Mutation
use_send_mail = record {
  method = post;
  path = str "/mail/inbound" ∷ [];
  invalidates =
      (word "mail" ∷ word "messages" ∷ []) ∷ (word "runs" ∷ []) ∷ (word "validate-runs" ∷ []) ∷ [];
  sets = [];
}

-- the `refetchInterval` of `useRun`: the data's status, to milliseconds or no polling
unfoldable pub run_poll : Option RunStatus → Option ℕ
run_poll (some pending) = some 1000
run_poll (some running) = some 1000
run_poll (some waiting) = some 1000
run_poll _ = none
