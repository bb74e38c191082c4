-- ===== src/Api/Fresh/Policies.antt =====
-- The writes of api/policies.ts to one policy.
use clerq.Prelude.{ℕ, ◌≡◌, true, some, [], ◌∷◌, take, arith}
use clerq.Api.Base.{Key, Mutation, QueryClient, refreshes, str, num, scalar, word}
use clerq.Api.Policies

pub data PolicyWrite : Type 0 where
  update_policy delete_policy enable_inbox disable_inbox set_address reorder_rules create_rule :
      ℕ → PolicyWrite
  restore_version update_rule delete_rule : ℕ → ℕ → PolicyWrite

unfoldable pub policy_write : PolicyWrite → Mutation
unfolding Policies.use_policy Policies.use_policy_versions Policies.use_update_policy
    Policies.use_delete_policy Policies.use_enable_policy_inbox Policies.use_disable_policy_inbox
    Policies.use_set_policy_inbox_address Policies.use_reorder_rules Policies.use_create_rule
    Policies.use_restore_policy_version Policies.use_update_rule Policies.use_delete_rule
policy_write (update_policy id) = Policies.use_update_policy id
policy_write (delete_policy id) = Policies.use_delete_policy id
policy_write (enable_inbox id) = Policies.use_enable_policy_inbox id
policy_write (disable_inbox id) = Policies.use_disable_policy_inbox id
policy_write (set_address id) = Policies.use_set_policy_inbox_address id
policy_write (reorder_rules id) = Policies.use_reorder_rules id
policy_write (create_rule id) = Policies.use_create_rule id
policy_write (restore_version id version) = Policies.use_restore_policy_version id version
policy_write (update_rule id rule) = Policies.use_update_rule id rule
policy_write (delete_rule id rule) = Policies.use_delete_rule id rule

-- the policy written to
abbrev pub policy_of : PolicyWrite → ℕ
policy_of (update_policy id) = id
policy_of (delete_policy id) = id
policy_of (enable_inbox id) = id
policy_of (disable_inbox id) = id
policy_of (set_address id) = id
policy_of (reorder_rules id) = id
policy_of (create_rule id) = id
policy_of (restore_version id version) = id
policy_of (update_rule id rule) = id
policy_of (delete_rule id rule) = id

abbrev policies_key : Key
policies_key = word "policies" ∷ []

abbrev policy_key : ℕ → Key
policy_key id = word "policies" ∷ scalar (num id) ∷ []

abbrev versions_key : ℕ → Key
versions_key id = word "policies" ∷ scalar (num id) ∷ word "versions" ∷ []

module _ (client : QueryClient) where
  -- what react-query does with the keys of the list, of a policy and of its versions
  record Matching (id : ℕ) : Type 0 where
    list_policy : client.matches policies_key (policy_key id) ≡ true
    list_versions : client.matches policies_key (versions_key id) ≡ true
    policy_policy : client.matches (policy_key id) (policy_key id) ≡ true
    policy_versions : client.matches (policy_key id) (versions_key id) ≡ true

  matching : (id : ℕ) → Matching id
  matching id = record {
    list_policy = client.matches_prefix policies_key (scalar (num id) ∷ []);
    list_versions = client.matches_prefix policies_key (scalar (num id) ∷ word "versions" ∷ []);
    policy_policy = client.matches_prefix (policy_key id) [];
    policy_versions = client.matches_prefix (policy_key id) (word "versions" ∷ []);
  }

  -- Every write to a policy goes to that policy's URL, and its success makes the page of the policy
  -- and the list of its versions be fetched anew.
  pub policy_write-refreshes :
      (w : PolicyWrite)
      → (take 2 (policy_write w).path ≡ str "/policies/" ∷ num (policy_of w) ∷ [])
        × (refreshes client (policy_write w) (Policies.use_policy (some (policy_of w))) ≡ true)
        × (refreshes client (policy_write w) (Policies.use_policy_versions (some (policy_of w)))
            ≡ true)
  unfolding policy_write
  policy_write-refreshes w = ground (arith, matching (policy_of w))
