-- ===== src/Api/Fresh/Keys.antt =====
-- One cache entry serves one request.
use clerq.Prelude.{
  ℕ, zero, suc, String, str_eq, ◌≡◌, refl, ap, Bool, true, false, Option, none, some, [], ◌∷◌,
  if◌then◌else◌,
}
use clerq.Api.Base.{Scalar, str, num, nullish, scalar, object, Key, Url, Params}
use clerq.Api.Workflows.{archived_params}
use clerq.Api.Runs.{id_params}
use clerq.Api.Account.{insights_params}
use clerq.Api.Queries.{
  ApiQuery, query_of, policies, policy, policy_versions, workflows, workflow, workflow_versions,
  cases, case, runs, run, documents, validate_runs, mailboxes, mail_messages, document_types,
  document_type, reference_lists, tenant_self, tenant_permissions, tenant_role_permissions,
  tenant_users, invites, admin_tenants, admin_tenant_users, mfa_methods, readiness, integrations,
  insights, settings, models,
}

abbrev Fetch : Type 0
Fetch = Option (Url × Params)

abbrev plain : Url → Fetch
plain url = some (url, [])

abbrev number_of : Scalar → Option ℕ
number_of (num n) = some n
number_of _ = none

abbrev collection : String → Key → Fetch
collection root [] = plain (str root ∷ [])
collection root (scalar (num n) ∷ []) = plain (str root ∷ num n ∷ [])
collection root (scalar (num n) ∷ scalar (str _) ∷ []) =
    plain (str root ∷ num n ∷ str "/versions" ∷ [])
collection root (object _ ∷ []) = none
collection root _ = none

abbrev is_archived : Params → Bool
is_archived ((_, str flag) ∷ _) = str_eq flag "true"
is_archived _ = false

abbrev workflow_fetch : Key → Fetch
workflow_fetch (object p ∷ []) =
    some (str "/workflows/" ∷ [], if is_archived p then archived_params else [])
workflow_fetch k = collection "/workflows/" k

abbrev case_fetch : Key → Fetch
case_fetch (object p ∷ []) = some (str "/cases/" ∷ [], p)
case_fetch (scalar nullish ∷ []) = plain (str "/cases/" ∷ [])
case_fetch k = collection "/cases/" k

abbrev run_fetch : Key → Fetch
run_fetch (scalar (str _) ∷ scalar (num n) ∷ []) = plain (str "/runs/" ∷ num n ∷ [])
run_fetch (scalar n ∷ []) = some (str "/runs/" ∷ [], id_params "workflow_id" (number_of n))
run_fetch _ = none

abbrev validate_fetch : Key → Fetch
validate_fetch (scalar n ∷ []) =
    some (str "/validate/runs" ∷ [], id_params "policy_id" (number_of n))
validate_fetch _ = none

abbrev mail_fetch : Key → Fetch
mail_fetch (scalar (str what) ∷ []) =
    plain (str (if str_eq what "mailboxes" then "/mail/mailboxes" else "/mail/messages") ∷ [])
mail_fetch _ = none

abbrev tenant_fetch : Key → Fetch
tenant_fetch (scalar (str what) ∷ []) =
    if str_eq what "self"
    then plain (str "/tenant" ∷ [])
    else if str_eq what "permissions"
    then plain (str "/tenant/permissions" ∷ [])
    else if str_eq what "role-permissions"
    then plain (str "/tenant/role-permissions" ∷ [])
    else if str_eq what "users"
    then plain (str "/tenant/users" ∷ [])
    else plain (str "/tenant/invites" ∷ [])
tenant_fetch _ = none

abbrev admin_fetch : Key → Fetch
admin_fetch (scalar (str what) ∷ []) =
    plain (str (if str_eq what "tenants" then "/admin/tenants" else "/admin/integrations") ∷ [])
admin_fetch (scalar (str _) ∷ scalar (str _) ∷ []) =
    plain (str "/admin/tenants/" ∷ num 0 ∷ str "/users" ∷ [])
admin_fetch (scalar (str _) ∷ scalar (num n) ∷ _) =
    plain (str "/admin/tenants/" ∷ num n ∷ str "/users" ∷ [])
admin_fetch _ = none

abbrev insights_fetch : Key → Fetch
insights_fetch (scalar n ∷ scalar (str s) ∷ []) =
    some (str "/metrics/insights" ∷ [], insights_params (number_of n) s)
insights_fetch _ = none

abbrev single : String → Fetch
single w =
    if str_eq w "documents"
    then plain (str "/documents/" ∷ [])
    else if str_eq w "reference-lists"
    then plain (str "/reference-lists/" ∷ [])
    else if str_eq w "mfa"
    then plain (str "/auth/mfa" ∷ [])
    else if str_eq w "health"
    then plain (str "/health/readiness" ∷ [])
    else if str_eq w "settings"
    then plain (str "/settings/" ∷ [])
    else plain (str "/settings/models" ∷ [])

-- the request that a key stands for, by its first word
abbrev topic_fetch : String → Key → Fetch
topic_fetch w k =
    if str_eq w "policies"
    then collection "/policies/" k
    else if str_eq w "workflows"
    then workflow_fetch k
    else if str_eq w "cases"
    then case_fetch k
    else if str_eq w "runs"
    then run_fetch k
    else if str_eq w "validate-runs"
    then validate_fetch k
    else if str_eq w "mail"
    then mail_fetch k
    else if str_eq w "documentTypes"
    then collection "/library/" k
    else if str_eq w "tenant"
    then tenant_fetch k
    else if str_eq w "admin"
    then admin_fetch k
    else if str_eq w "insights"
    then insights_fetch k
    else single w

fetch_of : Key → Fetch
fetch_of (scalar (str w) ∷ k) = topic_fetch w k
fetch_of _ = none

-- The key of an enabled query tells its request.
fetch_of-key :
    (q : ApiQuery)
    → (query_of q).is_enabled ≡ true
    → fetch_of (query_of q).key ≡ some ((query_of q).path, (query_of q).params)
unfolding query_of fetch_of
fetch_of-key policies h = refl
fetch_of-key (policy none) h = cc
fetch_of-key (policy (some n)) h = refl
fetch_of-key (policy_versions none) h = cc
fetch_of-key (policy_versions (some n)) h = refl
fetch_of-key (workflows true) h = refl
fetch_of-key (workflows false) h = refl
fetch_of-key (workflow none) h = cc
fetch_of-key (workflow (some n)) h = refl
fetch_of-key (workflow_versions none) h = cc
fetch_of-key (workflow_versions (some n)) h = refl
fetch_of-key (cases none) h = refl
fetch_of-key (cases (some p)) h = refl
fetch_of-key (case none) h = cc
fetch_of-key (case (some n)) h = refl
fetch_of-key (runs none) h = refl
fetch_of-key (runs (some n)) h = refl
fetch_of-key (run none) h = cc
fetch_of-key (run (some n)) h = refl
fetch_of-key documents h = refl
fetch_of-key (validate_runs none) h = refl
fetch_of-key (validate_runs (some n)) h = refl
fetch_of-key mailboxes h = refl
fetch_of-key mail_messages h = refl
fetch_of-key document_types h = refl
fetch_of-key (document_type none) h = cc
fetch_of-key (document_type (some n)) h = refl
fetch_of-key reference_lists h = refl
fetch_of-key tenant_self h = refl
fetch_of-key tenant_permissions h = refl
fetch_of-key tenant_role_permissions h = refl
fetch_of-key tenant_users h = refl
fetch_of-key invites h = refl
fetch_of-key admin_tenants h = refl
fetch_of-key (admin_tenant_users none) h = cc
fetch_of-key (admin_tenant_users (some zero)) h = refl
fetch_of-key (admin_tenant_users (some (suc n))) h = refl
fetch_of-key mfa_methods h = refl
fetch_of-key (readiness b) h = refl
fetch_of-key integrations h = refl
fetch_of-key (insights none s) h = refl
fetch_of-key (insights (some zero) s) h = refl
fetch_of-key (insights (some (suc n)) s) h = refl
fetch_of-key settings h = refl
fetch_of-key (models b) h = refl

-- Two enabled queries that share a cache entry, having one key, make the same request, so that no
-- page is shown what another page's query fetched from elsewhere.
pub request-of_key :
    (q r : ApiQuery)
    → (query_of q).is_enabled ≡ true
    → (query_of r).is_enabled ≡ true
    → (query_of q).key ≡ (query_of r).key
    → ((query_of q).path ≡ (query_of r).path) × ((query_of q).params ≡ (query_of r).params)
request-of_key q r h k e =
    let first = fetch_of-key q h in
    let second = fetch_of-key r k in let same = ap fetch_of e in (cc, cc)
