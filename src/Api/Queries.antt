-- ===== src/Api/Queries.antt =====
-- The queries of all hooks of frontend/src/api.
use clerq.Prelude.{ℕ, String, Bool, Option}
use clerq.Api.Base.{Query, Params}
use clerq.Api.Policies
use clerq.Api.Workflows
use clerq.Api.Cases
use clerq.Api.Runs
use clerq.Api.Library
use clerq.Api.Tenancy
use clerq.Api.Account

pub data ApiQuery : Type 0 where
  policies : ApiQuery
  policy : Option ℕ → ApiQuery
  policy_versions : Option ℕ → ApiQuery
  workflows : Bool → ApiQuery
  workflow : Option ℕ → ApiQuery
  workflow_versions : Option ℕ → ApiQuery
  cases : Option Params → ApiQuery
  case : Option ℕ → ApiQuery
  runs : Option ℕ → ApiQuery
  run : Option ℕ → ApiQuery
  documents : ApiQuery
  validate_runs : Option ℕ → ApiQuery
  mailboxes : ApiQuery
  mail_messages : ApiQuery
  document_types : ApiQuery
  document_type : Option ℕ → ApiQuery
  reference_lists : ApiQuery
  tenant_self : ApiQuery
  tenant_permissions : ApiQuery
  tenant_role_permissions : ApiQuery
  tenant_users : ApiQuery
  invites : ApiQuery
  admin_tenants : ApiQuery
  admin_tenant_users : Option ℕ → ApiQuery
  mfa_methods : ApiQuery
  readiness : Bool → ApiQuery
  integrations : ApiQuery
  insights : Option ℕ → String → ApiQuery
  settings : ApiQuery
  models : Bool → ApiQuery

unfoldable pub query_of : ApiQuery → Query
unfolding Policies.use_policies Policies.use_policy Policies.use_policy_versions
    Workflows.use_workflows Workflows.use_workflow Workflows.use_workflow_versions Cases.use_cases
    Cases.use_case Runs.use_runs Runs.use_run Runs.use_documents Runs.use_validate_runs
    Runs.use_mailboxes Runs.use_mail_messages Library.use_document_types Library.use_document_type
    Library.use_reference_lists Tenancy.use_tenant_self Tenancy.use_tenant_permissions
    Tenancy.use_tenant_role_permissions Tenancy.use_tenant_users Tenancy.use_invites
    Tenancy.use_admin_tenants Tenancy.use_admin_tenant_users Account.use_mfa_methods
    Account.use_readiness Account.use_integrations Account.use_insights Account.use_settings
    Account.use_open_router_models
query_of policies = Policies.use_policies
query_of (policy n) = Policies.use_policy n
query_of (policy_versions n) = Policies.use_policy_versions n
query_of (workflows b) = Workflows.use_workflows b
query_of (workflow n) = Workflows.use_workflow n
query_of (workflow_versions n) = Workflows.use_workflow_versions n
query_of (cases p) = Cases.use_cases p
query_of (case n) = Cases.use_case n
query_of (runs n) = Runs.use_runs n
query_of (run n) = Runs.use_run n
query_of documents = Runs.use_documents
query_of (validate_runs n) = Runs.use_validate_runs n
query_of mailboxes = Runs.use_mailboxes
query_of mail_messages = Runs.use_mail_messages
query_of document_types = Library.use_document_types
query_of (document_type n) = Library.use_document_type n
query_of reference_lists = Library.use_reference_lists
query_of tenant_self = Tenancy.use_tenant_self
query_of tenant_permissions = Tenancy.use_tenant_permissions
query_of tenant_role_permissions = Tenancy.use_tenant_role_permissions
query_of tenant_users = Tenancy.use_tenant_users
query_of invites = Tenancy.use_invites
query_of admin_tenants = Tenancy.use_admin_tenants
query_of (admin_tenant_users n) = Tenancy.use_admin_tenant_users n
query_of mfa_methods = Account.use_mfa_methods
query_of (readiness b) = Account.use_readiness b
query_of integrations = Account.use_integrations
query_of (insights n s) = Account.use_insights n s
query_of settings = Account.use_settings
query_of (models b) = Account.use_open_router_models b
