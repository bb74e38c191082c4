-- ===== src/Api/Fresh/Me.antt =====
-- The cached answer of `/auth/me`, which api/mfa.ts means to renew.
use clerq.Prelude.{
  String, ◌≡◌, ◌≢◌, false, [], ◌∷◌, arith, eq_iff, str_eq, refl, none, some, zero, suc,
}
use clerq.Api.Base.{QueryClient, word}
use clerq.Api.Queries.{
  ApiQuery, query_of, policies, policy, policy_versions, workflows, workflow, workflow_versions,
  cases, case, runs, run, documents, validate_runs, mailboxes, mail_messages, document_types,
  document_type, reference_lists, tenant_self, tenant_permissions, tenant_role_permissions,
  tenant_users, invites, admin_tenants, admin_tenant_users, mfa_methods, readiness, integrations,
  insights, settings, models,
}

me_is_no_topic : (s : String) → str_eq "me" s ≡ false → "me" ≢ s
me_is_no_topic s h = ground (arith, eq_iff "me" s)

-- `useConfirmTotp` and `useRemoveMfa` make the key `me` stale, to renew what the page knows of the
-- user. No query of the API is fetched anew by that.
me-unused :
    (client : QueryClient) (q : ApiQuery) → client.matches (word "me" ∷ []) (query_of q).key ≡ false
unfolding query_of
me-unused client policies =
    client.matches_word "me" "policies" [] _ (me_is_no_topic "policies" refl)
me-unused client (policy n) =
    client.matches_word "me" "policies" [] _ (me_is_no_topic "policies" refl)
me-unused client (policy_versions n) =
    client.matches_word "me" "policies" [] _ (me_is_no_topic "policies" refl)
me-unused client (workflows b) =
    client.matches_word "me" "workflows" [] _ (me_is_no_topic "workflows" refl)
me-unused client (workflow n) =
    client.matches_word "me" "workflows" [] _ (me_is_no_topic "workflows" refl)
me-unused client (workflow_versions n) =
    client.matches_word "me" "workflows" [] _ (me_is_no_topic "workflows" refl)
me-unused client (cases p) = client.matches_word "me" "cases" [] _ (me_is_no_topic "cases" refl)
me-unused client (case n) = client.matches_word "me" "cases" [] _ (me_is_no_topic "cases" refl)
me-unused client (runs n) = client.matches_word "me" "runs" [] _ (me_is_no_topic "runs" refl)
me-unused client (run n) = client.matches_word "me" "runs" [] _ (me_is_no_topic "runs" refl)
me-unused client documents =
    client.matches_word "me" "documents" [] _ (me_is_no_topic "documents" refl)
me-unused client (validate_runs n) =
    client.matches_word "me" "validate-runs" [] _ (me_is_no_topic "validate-runs" refl)
me-unused client mailboxes = client.matches_word "me" "mail" [] _ (me_is_no_topic "mail" refl)
me-unused client mail_messages = client.matches_word "me" "mail" [] _ (me_is_no_topic "mail" refl)
me-unused client document_types =
    client.matches_word "me" "documentTypes" [] _ (me_is_no_topic "documentTypes" refl)
me-unused client (document_type n) =
    client.matches_word "me" "documentTypes" [] _ (me_is_no_topic "documentTypes" refl)
me-unused client reference_lists =
    client.matches_word "me" "reference-lists" [] _ (me_is_no_topic "reference-lists" refl)
me-unused client tenant_self = client.matches_word "me" "tenant" [] _ (me_is_no_topic "tenant" refl)
me-unused client tenant_permissions =
    client.matches_word "me" "tenant" [] _ (me_is_no_topic "tenant" refl)
me-unused client tenant_role_permissions =
    client.matches_word "me" "tenant" [] _ (me_is_no_topic "tenant" refl)
me-unused client tenant_users =
    client.matches_word "me" "tenant" [] _ (me_is_no_topic "tenant" refl)
me-unused client invites = client.matches_word "me" "tenant" [] _ (me_is_no_topic "tenant" refl)
me-unused client admin_tenants = client.matches_word "me" "admin" [] _ (me_is_no_topic "admin" refl)
me-unused client (admin_tenant_users none) =
    client.matches_word "me" "admin" [] _ (me_is_no_topic "admin" refl)
me-unused client (admin_tenant_users (some zero)) =
    client.matches_word "me" "admin" [] _ (me_is_no_topic "admin" refl)
me-unused client (admin_tenant_users (some (suc n))) =
    client.matches_word "me" "admin" [] _ (me_is_no_topic "admin" refl)
me-unused client mfa_methods = client.matches_word "me" "mfa" [] _ (me_is_no_topic "mfa" refl)
me-unused client (readiness b) =
    client.matches_word "me" "health" [] _ (me_is_no_topic "health" refl)
me-unused client integrations = client.matches_word "me" "admin" [] _ (me_is_no_topic "admin" refl)
me-unused client (insights n s) =
    client.matches_word "me" "insights" [] _ (me_is_no_topic "insights" refl)
me-unused client settings =
    client.matches_word "me" "settings" [] _ (me_is_no_topic "settings" refl)
me-unused client (models b) =
    client.matches_word "me" "openrouter-models" [] _ (me_is_no_topic "openrouter-models" refl)
