-- ===== src/Api/Tenancy.antt =====
-- frontend/src/api/tenant.ts and admin.ts
use clerq.Prelude.{ℕ, zero, suc, String, true, Option, none, some, [], ◌∷◌, is_some}
use clerq.Api.Base.{str, num, opt_num, scalar, word, Key, Query, Mutation, post, put, delete}

abbrev pub users_key : Option ℕ → Key
users_key none = word "admin" ∷ word "tenants" ∷ word "none" ∷ []
users_key (some zero) = word "admin" ∷ word "tenants" ∷ word "none" ∷ []
users_key (some (suc n)) = word "admin" ∷ word "tenants" ∷ scalar (num (suc n)) ∷ word "users" ∷ []

-- `useTenantSelf`
unfoldable pub use_tenant_self : Query
use_tenant_self = record {
  key = word "tenant" ∷ word "self" ∷ [];
  path = str "/tenant" ∷ [];
  params = [];
  is_enabled = true;
}

-- `useTenantPermissions`
unfoldable pub use_tenant_permissions : Query
use_tenant_permissions = record {
  key = word "tenant" ∷ word "permissions" ∷ [];
  path = str "/tenant/permissions" ∷ [];
  params = [];
  is_enabled = true;
}

-- `useTenantRolePermissions`
unfoldable pub use_tenant_role_permissions : Query
use_tenant_role_permissions = record {
  key = word "tenant" ∷ word "role-permissions" ∷ [];
  path = str "/tenant/role-permissions" ∷ [];
  params = [];
  is_enabled = true;
}

-- `useSetTenantRolePermissions`
unfoldable pub use_set_tenant_role_permissions : String → Mutation
use_set_tenant_role_permissions role = record {
  method = put;
  path = str "/tenant/role-permissions/" ∷ str role ∷ [];
  invalidates = (word "tenant" ∷ word "role-permissions" ∷ []) ∷ [];
  sets = [];
}

-- `useTenantUsers`
unfoldable pub use_tenant_users : Query
use_tenant_users = record {
  key = word "tenant" ∷ word "users" ∷ [];
  path = str "/tenant/users" ∷ [];
  params = [];
  is_enabled = true;
}

-- `useUpdateTenantUser`
unfoldable pub use_update_tenant_user : ℕ → Mutation
use_update_tenant_user id = record {
  method = put;
  path = str "/tenant/users/" ∷ num id ∷ [];
  invalidates = (word "tenant" ∷ word "users" ∷ []) ∷ [];
  sets = [];
}

-- `useSetTenantUserPassword`
unfoldable pub use_set_tenant_user_password : ℕ → Mutation
use_set_tenant_user_password id = record {
  method = post;
  path = str "/tenant/users/" ∷ num id ∷ str "/set-password" ∷ [];
  invalidates = (word "tenant" ∷ word "users" ∷ []) ∷ [];
  sets = [];
}

-- `useInvites`
unfoldable pub use_invites : Query
use_invites = record {
  key = word "tenant" ∷ word "invites" ∷ [];
  path = str "/tenant/invites" ∷ [];
  params = [];
  is_enabled = true;
}

-- `useCreateInvite`
unfoldable pub use_create_invite : Mutation
use_create_invite = record {
  method = post;
  path = str "/tenant/invites" ∷ [];
  invalidates = (word "tenant" ∷ word "invites" ∷ []) ∷ (word "tenant" ∷ word "users" ∷ []) ∷ [];
  sets = [];
}

-- `useRevokeInvite`
unfoldable pub use_revoke_invite : ℕ → Mutation
use_revoke_invite id = record {
  method = post;
  path = str "/tenant/invites/" ∷ num id ∷ str "/revoke" ∷ [];
  invalidates = (word "tenant" ∷ word "invites" ∷ []) ∷ [];
  sets = [];
}

-- `useResendInvite`
unfoldable pub use_resend_invite : ℕ → Mutation
use_resend_invite id = record {
  method = post;
  path = str "/tenant/invites/" ∷ num id ∷ str "/resend" ∷ [];
  invalidates = (word "tenant" ∷ word "invites" ∷ []) ∷ [];
  sets = [];
}

-- `useAdminTenants`
unfoldable pub use_admin_tenants : Query
use_admin_tenants = record {
  key = word "admin" ∷ word "tenants" ∷ [];
  path = str "/admin/tenants" ∷ [];
  params = [];
  is_enabled = true;
}

-- `useAdminTenantUsers`
unfoldable pub use_admin_tenant_users : Option ℕ → Query
use_admin_tenant_users tenant_id = record {
  key = users_key tenant_id;
  path = str "/admin/tenants/" ∷ opt_num tenant_id ∷ str "/users" ∷ [];
  params = [];
  is_enabled = is_some tenant_id;
}

-- `useCreateTenant`
unfoldable pub use_create_tenant : Mutation
use_create_tenant = record {
  method = post;
  path = str "/admin/tenants" ∷ [];
  invalidates = (word "admin" ∷ word "tenants" ∷ []) ∷ [];
  sets = [];
}

-- `useUpdateTenant`
unfoldable pub use_update_tenant : ℕ → Mutation
use_update_tenant id = record {
  method = put;
  path = str "/admin/tenants/" ∷ num id ∷ [];
  invalidates = (word "admin" ∷ word "tenants" ∷ []) ∷ [];
  sets = [];
}

-- `useCreateUser`
unfoldable pub use_create_user : ℕ → Mutation
use_create_user tenant_id = record {
  method = post;
  path = str "/admin/tenants/" ∷ num tenant_id ∷ str "/users" ∷ [];
  invalidates =
      (word "admin" ∷ word "tenants" ∷ scalar (num tenant_id) ∷ word "users" ∷ [])
      ∷ (word "admin" ∷ word "tenants" ∷ [])
      ∷ [];
  sets = [];
}

-- `useUpdateUser`
unfoldable pub use_update_user : ℕ → ℕ → Mutation
use_update_user tenant_id id = record {
  method = put;
  path = str "/admin/users/" ∷ num id ∷ [];
  invalidates = (word "admin" ∷ word "tenants" ∷ scalar (num tenant_id) ∷ word "users" ∷ []) ∷ [];
  sets = [];
}

-- `useSetUserPassword`
unfoldable pub use_set_user_password : ℕ → ℕ → Mutation
use_set_user_password tenant_id id = record {
  method = post;
  path = str "/admin/users/" ∷ num id ∷ str "/set-password" ∷ [];
  invalidates = (word "admin" ∷ word "tenants" ∷ scalar (num tenant_id) ∷ word "users" ∷ []) ∷ [];
  sets = [];
}

-- `useDeleteUser`
unfoldable pub use_delete_user : ℕ → ℕ → Mutation
use_delete_user tenant_id user_id = record {
  method = delete;
  path = str "/admin/users/" ∷ num user_id ∷ [];
  invalidates =
      (word "admin" ∷ word "tenants" ∷ scalar (num tenant_id) ∷ word "users" ∷ [])
      ∷ (word "admin" ∷ word "tenants" ∷ [])
      ∷ [];
  sets = [];
}
