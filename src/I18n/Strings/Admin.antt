-- ===== src/I18n/Strings/Admin.antt =====
-- frontend/src/lib/i18n/strings/admin.ts
use clerq.Prelude.{String, List, [], ◌∷◌}

abbrev pub english : List (String × String)
english =
    ("admin.title", "Administration")
    ∷ ("admin.subtitle", "Manage tenants and their users.")
    ∷ ("admin.tenants", "Tenants")
    ∷ ("admin.users", "Users")
    ∷ ("admin.newTenant", "New tenant")
    ∷ ("admin.newUser", "New user")
    ∷ ("admin.editTenant", "Edit tenant")
    ∷ ("admin.editUser", "Edit user")
    ∷ ("admin.setPassword", "Set password")
    ∷ ("admin.tenant.name", "Name")
    ∷ ("admin.tenant.slug", "Slug")
    ∷ ("admin.tenant.slug.help", "Lowercase, dashes only. Used in routes and emails.")
    ∷ ("admin.tenant.active", "Active")
    ∷ ("admin.tenant.userCount", "{n} user")
    ∷ ("admin.tenant.userCount.plural", "{n} users")
    ∷ ("admin.user.email", "Email")
    ∷ ("admin.user.displayName", "Display name")
    ∷ ("admin.user.password", "Password")
    ∷ ("admin.user.newPassword", "New password")
    ∷ ("admin.user.role", "Role")
    ∷ ("admin.user.role.owner", "Owner")
    ∷ ("admin.user.role.admin", "Admin")
    ∷ ("admin.user.role.member", "Member")
    ∷ ("admin.user.superadmin", "Super-admin (cross-tenant)")
    ∷ ("admin.user.active", "Active")
    ∷ ("admin.user.mfaRequired", "Require MFA at sign-in")
    ∷ ("admin.user.hasPassword", "Password set")
    ∷ ("admin.user.noPassword", "No password — must be set before sign-in")
    ∷ ("admin.user.deactivate", "Deactivate")
    ∷ ("admin.user.activate", "Activate")
    ∷ ("admin.user.lastLogin", "Last sign-in {when}")
    ∷ ("admin.user.lastLogin.never", "Never signed in")
    ∷ ("admin.emptyTenant.title", "No users yet")
    ∷ ("admin.emptyTenant.body", "Add the first user to this tenant.")
    ∷ ("admin.selectTenant", "Select a tenant on the left to manage its users.")
    ∷ ("admin.access.denied", "This page is for super-admins only.")
    ∷ ("admin.menu", "Administration")
    ∷ ("admin.invite", "Invite user")
    ∷ ("admin.invite.role", "Role at sign-up")
    ∷ ("admin.invite.submit", "Send invitation")
    ∷ ("admin.invite.sent", "Invitation sent to {email}.")
    ∷ ("admin.pendingInvites", "Pending invitations")
    ∷ ("admin.pendingInvites.empty", "No pending invitations.")
    ∷ ("admin.invite.copyLink", "Copy link")
    ∷ ("admin.invite.linkCopied", "Link copied.")
    ∷ ("admin.invite.revoke", "Revoke")
    ∷ ("admin.invite.resend", "Resend")
    ∷ ("admin.invite.expires", "Expires {when}")
    ∷ ("admin.deleteUser", "Delete user")
    ∷ ("admin.deleteUser.confirm.title", "Delete {email}?")
    ∷ (
      "admin.deleteUser.confirm.body",
      "This will permanently remove the user, their password, MFA credentials, and all active sessions. This cannot be undone.",
    )
    ∷ ("admin.deleteUser.confirm.submit", "Delete permanently")
    ∷ ("admin.deleteUser.error", "Could not delete user: {error}")
    ∷ []

abbrev pub french : List (String × String)
french =
    ("admin.title", "Administration")
    ∷ ("admin.subtitle", "Gérez les organisations et leurs utilisateurs.")
    ∷ ("admin.tenants", "Organisations")
    ∷ ("admin.users", "Utilisateurs")
    ∷ ("admin.newTenant", "Nouvelle organisation")
    ∷ ("admin.newUser", "Nouvel utilisateur")
    ∷ ("admin.editTenant", "Modifier l’organisation")
    ∷ ("admin.editUser", "Modifier l’utilisateur")
    ∷ ("admin.setPassword", "Définir le mot de passe")
    ∷ ("admin.tenant.name", "Nom")
    ∷ ("admin.tenant.slug", "Identifiant")
    ∷ ("admin.tenant.slug.help", "Minuscules et tirets uniquement.")
    ∷ ("admin.tenant.active", "Actif")
    ∷ ("admin.tenant.userCount", "{n} utilisateur")
    ∷ ("admin.tenant.userCount.plural", "{n} utilisateurs")
    ∷ ("admin.user.email", "Courriel")
    ∷ ("admin.user.displayName", "Nom affiché")
    ∷ ("admin.user.password", "Mot de passe")
    ∷ ("admin.user.newPassword", "Nouveau mot de passe")
    ∷ ("admin.user.role", "Rôle")
    ∷ ("admin.user.role.owner", "Propriétaire")
    ∷ ("admin.user.role.admin", "Administrateur")
    ∷ ("admin.user.role.member", "Membre")
    ∷ ("admin.user.superadmin", "Super-administrateur (multi-organisation)")
    ∷ ("admin.user.active", "Actif")
    ∷ ("admin.user.mfaRequired", "Exiger l’authentification à deux facteurs")
    ∷ ("admin.user.hasPassword", "Mot de passe défini")
    ∷ ("admin.user.noPassword", "Aucun mot de passe — à définir avant la connexion")
    ∷ ("admin.user.deactivate", "Désactiver")
    ∷ ("admin.user.activate", "Activer")
    ∷ ("admin.user.lastLogin", "Dernière connexion {when}")
    ∷ ("admin.user.lastLogin.never", "Jamais connecté")
    ∷ ("admin.emptyTenant.title", "Aucun utilisateur")
    ∷ ("admin.emptyTenant.body", "Ajoutez le premier utilisateur à cette organisation.")
    ∷ ("admin.selectTenant", "Sélectionnez une organisation à gauche pour gérer ses utilisateurs.")
    ∷ ("admin.access.denied", "Cette page est réservée aux super-administrateurs.")
    ∷ ("admin.menu", "Administration")
    ∷ ("admin.invite", "Inviter un utilisateur")
    ∷ ("admin.invite.role", "Rôle à l’inscription")
    ∷ ("admin.invite.submit", "Envoyer l’invitation")
    ∷ ("admin.invite.sent", "Invitation envoyée à {email}.")
    ∷ ("admin.pendingInvites", "Invitations en attente")
    ∷ ("admin.pendingInvites.empty", "Aucune invitation en attente.")
    ∷ ("admin.invite.copyLink", "Copier le lien")
    ∷ ("admin.invite.linkCopied", "Lien copié.")
    ∷ ("admin.invite.revoke", "Révoquer")
    ∷ ("admin.invite.resend", "Renvoyer")
    ∷ ("admin.invite.expires", "Expire le {when}")
    ∷ ("admin.deleteUser", "Supprimer l'utilisateur")
    ∷ ("admin.deleteUser.confirm.title", "Supprimer {email} ?")
    ∷ (
      "admin.deleteUser.confirm.body",
      "Cette action supprimera définitivement l'utilisateur, son mot de passe, ses identifiants MFA et toutes ses sessions actives. Cette action est irréversible.",
    )
    ∷ ("admin.deleteUser.confirm.submit", "Supprimer définitivement")
    ∷ ("admin.deleteUser.error", "Impossible de supprimer l'utilisateur : {error}")
    ∷ []
