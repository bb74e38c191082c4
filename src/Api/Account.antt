-- ===== src/Api/Account.antt =====
-- frontend/src/api/mfa.ts, account.ts, health.ts, integrations.ts, metrics.ts and settings.ts
use clerq.Prelude.{ℕ, zero, suc, String, Bool, true, Option, none, some, [], ◌∷◌}
use clerq.Api.Base.{
  str, num, opt_num, scalar, word, Params, Query, Mutation, post, put, patch, delete,
}

abbrev pub insights_params : Option ℕ → String → Params
insights_params none source = ("source", str source) ∷ []
insights_params (some zero) source = ("source", str source) ∷ []
insights_params (some (suc n)) source = ("source", str source) ∷ ("policy_id", num (suc n)) ∷ []

-- `useMfaMethods`
unfoldable pub use_mfa_methods : Query
use_mfa_methods = record {
  key = word "mfa" ∷ word "methods" ∷ [];
  path = str "/auth/mfa" ∷ [];
  params = [];
  is_enabled = true;
}

-- `useEnrollTotp`
unfoldable pub use_enroll_totp : Mutation
use_enroll_totp = record {
  method = post;
  path = str "/auth/mfa/totp/enroll" ∷ [];
  invalidates = [];
  sets = [];
}

-- `useConfirmTotp`
unfoldable pub use_confirm_totp : Mutation
use_confirm_totp = record {
  method = post;
  path = str "/auth/mfa/totp/confirm" ∷ [];
  invalidates = (word "mfa" ∷ word "methods" ∷ []) ∷ (word "me" ∷ []) ∷ [];
  sets = [];
}

-- `useRemoveMfa`
unfoldable pub use_remove_mfa : ℕ → Mutation
use_remove_mfa credential_id = record {
  method = delete;
  path = str "/auth/mfa/" ∷ num credential_id ∷ [];
  invalidates = (word "mfa" ∷ word "methods" ∷ []) ∷ (word "me" ∷ []) ∷ [];
  sets = [];
}

-- `useRegenerateRecoveryCodes`
unfoldable pub use_regenerate_recovery_codes : Mutation
use_regenerate_recovery_codes = record {
  method = post;
  path = str "/auth/mfa/recovery-codes/regenerate" ∷ [];
  invalidates = [];
  sets = [];
}

-- `useUpdateMe`
unfoldable pub use_update_me : Mutation
use_update_me = record { method = patch; path = str "/auth/me" ∷ []; invalidates = []; sets = [] }

-- `useChangePassword`
unfoldable pub use_change_password : Mutation
use_change_password = record {
  method = post;
  path = str "/auth/change-password" ∷ [];
  invalidates = [];
  sets = [];
}

-- `useLogoutAll`
unfoldable pub use_logout_all : Mutation
use_logout_all = record {
  method = post;
  path = str "/auth/logout-all" ∷ [];
  invalidates = [];
  sets = [];
}

-- `useReadiness`
unfoldable pub use_readiness : Bool → Query
use_readiness enabled = record {
  key = word "health" ∷ word "readiness" ∷ [];
  path = str "/health/readiness" ∷ [];
  params = [];
  is_enabled = enabled;
}

-- `useIntegrations`
unfoldable pub use_integrations : Query
use_integrations = record {
  key = word "admin" ∷ word "integrations" ∷ [];
  path = str "/admin/integrations" ∷ [];
  params = [];
  is_enabled = true;
}

-- `useUpdateIntegrations`
unfoldable pub use_update_integrations : Mutation
use_update_integrations = record {
  method = put;
  path = str "/admin/integrations" ∷ [];
  invalidates = [];
  sets = (word "admin" ∷ word "integrations" ∷ []) ∷ [];
}

-- `useTestEmailIntegration`
unfoldable pub use_test_email_integration : Mutation
use_test_email_integration = record {
  method = post;
  path = str "/admin/integrations/email/test" ∷ [];
  invalidates = [];
  sets = [];
}

-- `useInsights`
unfoldable pub use_insights : Option ℕ → String → Query
use_insights policy_id source = record {
  key = word "insights" ∷ scalar (opt_num policy_id) ∷ scalar (str source) ∷ [];
  path = str "/metrics/insights" ∷ [];
  params = insights_params policy_id source;
  is_enabled = true;
}

-- `useSettings`
unfoldable pub use_settings : Query
use_settings = record {
  key = word "settings" ∷ [];
  path = str "/settings/" ∷ [];
  params = [];
  is_enabled = true;
}

-- `useUpdateSettings`
unfoldable pub use_update_settings : Mutation
use_update_settings = record {
  method = put;
  path = str "/settings/" ∷ [];
  invalidates = (word "openrouter-models" ∷ []) ∷ [];
  sets = (word "settings" ∷ []) ∷ [];
}

-- `useOpenRouterModels`
unfoldable pub use_open_router_models : Bool → Query
use_open_router_models enabled = record {
  key = word "openrouter-models" ∷ [];
  path = str "/settings/models" ∷ [];
  params = [];
  is_enabled = enabled;
}

-- `useTestConnection`
unfoldable pub use_test_connection : Mutation
use_test_connection = record {
  method = post;
  path = str "/settings/test" ∷ [];
  invalidates = [];
  sets = [];
}
