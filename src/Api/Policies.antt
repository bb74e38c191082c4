-- ===== src/Api/Policies.antt =====
-- frontend/src/api/policies.ts
use clerq.Prelude.{ℕ, true, Option, [], ◌∷◌, is_some}
use clerq.Api.Base.{str, num, opt_num, scalar, word, Query, Mutation, post, put, patch, delete}

-- `usePolicies`
unfoldable pub use_policies : Query
use_policies = record {
  key = word "policies" ∷ [];
  path = str "/policies/" ∷ [];
  params = [];
  is_enabled = true;
}

-- `usePolicy`
unfoldable pub use_policy : Option ℕ → Query
use_policy id = record {
  key = word "policies" ∷ scalar (opt_num id) ∷ [];
  path = str "/policies/" ∷ opt_num id ∷ [];
  params = [];
  is_enabled = is_some id;
}

-- `usePolicyVersions`
unfoldable pub use_policy_versions : Option ℕ → Query
use_policy_versions id = record {
  key = word "policies" ∷ scalar (opt_num id) ∷ word "versions" ∷ [];
  path = str "/policies/" ∷ opt_num id ∷ str "/versions" ∷ [];
  params = [];
  is_enabled = is_some id;
}

-- `useCreatePolicy`
unfoldable pub use_create_policy : Mutation
use_create_policy = record {
  method = post;
  path = str "/policies/" ∷ [];
  invalidates = (word "policies" ∷ []) ∷ [];
  sets = [];
}

-- `useUpdatePolicy`
unfoldable pub use_update_policy : ℕ → Mutation
use_update_policy id = record {
  method = put;
  path = str "/policies/" ∷ num id ∷ [];
  invalidates = (word "policies" ∷ []) ∷ (word "policies" ∷ scalar (num id) ∷ []) ∷ [];
  sets = [];
}

-- `useDeletePolicy`
unfoldable pub use_delete_policy : ℕ → Mutation
use_delete_policy id = record {
  method = delete;
  path = str "/policies/" ∷ num id ∷ [];
  invalidates = (word "policies" ∷ []) ∷ [];
  sets = [];
}

-- `useRestorePolicyVersion`
unfoldable pub use_restore_policy_version : ℕ → ℕ → Mutation
use_restore_policy_version policy_id version_id = record {
  method = post;
  path = str "/policies/" ∷ num policy_id ∷ str "/versions/" ∷ num version_id ∷ str "/restore" ∷ [];
  invalidates =
      (word "policies" ∷ [])
      ∷ (word "policies" ∷ scalar (num policy_id) ∷ [])
      ∷ (word "policies" ∷ scalar (num policy_id) ∷ word "versions" ∷ [])
      ∷ [];
  sets = [];
}

-- `useCreateRule`
unfoldable pub use_create_rule : ℕ → Mutation
use_create_rule policy_id = record {
  method = post;
  path = str "/policies/" ∷ num policy_id ∷ str "/rules" ∷ [];
  invalidates =
      (word "policies" ∷ scalar (num policy_id) ∷ [])
      ∷ (word "policies" ∷ scalar (num policy_id) ∷ word "versions" ∷ [])
      ∷ (word "policies" ∷ [])
      ∷ [];
  sets = [];
}

-- `useUpdateRule`
unfoldable pub use_update_rule : ℕ → ℕ → Mutation
use_update_rule policy_id rule_id = record {
  method = put;
  path = str "/policies/" ∷ num policy_id ∷ str "/rules/" ∷ num rule_id ∷ [];
  invalidates = (word "policies" ∷ scalar (num policy_id) ∷ []) ∷ [];
  sets = [];
}

-- `useDeleteRule`
unfoldable pub use_delete_rule : ℕ → ℕ → Mutation
use_delete_rule policy_id rule_id = record {
  method = delete;
  path = str "/policies/" ∷ num policy_id ∷ str "/rules/" ∷ num rule_id ∷ [];
  invalidates =
      (word "policies" ∷ scalar (num policy_id) ∷ [])
      ∷ (word "policies" ∷ scalar (num policy_id) ∷ word "versions" ∷ [])
      ∷ (word "policies" ∷ [])
      ∷ [];
  sets = [];
}

-- `useEnablePolicyInbox`
unfoldable pub use_enable_policy_inbox : ℕ → Mutation
use_enable_policy_inbox id = record {
  method = post;
  path = str "/policies/" ∷ num id ∷ str "/enable-inbox" ∷ [];
  invalidates =
      (word "policies" ∷ [])
      ∷ (word "policies" ∷ scalar (num id) ∷ [])
      ∷ (word "mail" ∷ word "mailboxes" ∷ [])
      ∷ [];
  sets = [];
}

-- `useDisablePolicyInbox`
unfoldable pub use_disable_policy_inbox : ℕ → Mutation
use_disable_policy_inbox id = record {
  method = post;
  path = str "/policies/" ∷ num id ∷ str "/disable-inbox" ∷ [];
  invalidates =
      (word "policies" ∷ [])
      ∷ (word "policies" ∷ scalar (num id) ∷ [])
      ∷ (word "mail" ∷ word "mailboxes" ∷ [])
      ∷ [];
  sets = [];
}

-- `useSetPolicyInboxAddress`
unfoldable pub use_set_policy_inbox_address : ℕ → Mutation
use_set_policy_inbox_address id = record {
  method = put;
  path = str "/policies/" ∷ num id ∷ str "/inbox-address" ∷ [];
  invalidates =
      (word "policies" ∷ [])
      ∷ (word "policies" ∷ scalar (num id) ∷ [])
      ∷ (word "mail" ∷ word "mailboxes" ∷ [])
      ∷ [];
  sets = [];
}

-- `useReorderRules`
unfoldable pub use_reorder_rules : ℕ → Mutation
use_reorder_rules policy_id = record {
  method = patch;
  path = str "/policies/" ∷ num policy_id ∷ str "/rules/reorder" ∷ [];
  invalidates =
      (word "policies" ∷ scalar (num policy_id) ∷ [])
      ∷ (word "policies" ∷ scalar (num policy_id) ∷ word "versions" ∷ [])
      ∷ [];
  sets = [];
}
