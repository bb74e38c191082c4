-- ===== src/I18n/Strings/Auth.antt =====
-- frontend/src/lib/i18n/strings/auth.ts
use clerq.Prelude.{String, List, [], ◌∷◌}

abbrev pub english : List (String × String)
english =
    ("auth.signin.title", "Sign in")
    ∷ ("auth.signin.subtitle", "Sign in to continue to Interpret.")
    ∷ ("auth.email", "Email")
    ∷ ("auth.password", "Password")
    ∷ ("auth.mfaCode", "Authenticator code")
    ∷ ("auth.signin.button", "Sign in")
    ∷ ("auth.signin.loading", "Signing in…")
    ∷ ("auth.signin.error", "Sign-in failed. Check your email and password.")
    ∷ ("auth.signin.needMfa", "Enter the 6-digit code from your authenticator app.")
    ∷ ("auth.signout", "Sign out")
    ∷ ("auth.account", "Account")
    ∷ ("auth.account.tenant", "Tenant")
    ∷ ("auth.account.role", "Role")
    ∷ ("auth.changePassword", "Change password")
    ∷ ("auth.currentPassword", "Current password")
    ∷ ("auth.newPassword", "New password")
    ∷ ("auth.changePassword.button", "Update password")
    ∷ ("auth.changePassword.success", "Password updated. Other sessions have been signed out.")
    ∷ (
      "auth.adminProvisioned",
      "Your administrator creates accounts. Contact them if you need access.",
    )
    ∷ ("account.profile", "Profile")
    ∷ ("account.profile.subtitle", "Your basic profile information.")
    ∷ ("account.displayName", "Display name")
    ∷ ("account.email", "Email")
    ∷ ("account.email.help", "Your email is your sign-in identity. Ask an admin to change it.")
    ∷ ("account.profile.save", "Save profile")
    ∷ ("account.profile.saved", "Profile updated.")
    ∷ ("account.role", "Role in {tenant}")
    ∷ ("account.security", "Security")
    ∷ ("account.security.subtitle", "Change your password and manage active sessions.")
    ∷ ("account.changePassword", "Change password")
    ∷ ("account.currentPassword", "Current password")
    ∷ ("account.newPassword", "New password")
    ∷ ("account.confirmPassword", "Confirm new password")
    ∷ ("account.changePassword.submit", "Update password")
    ∷ ("account.changePassword.saving", "Updating…")
    ∷ ("account.changePassword.success", "Password updated. Other sessions have been signed out.")
    ∷ ("account.changePassword.mismatch", "New passwords don't match.")
    ∷ ("account.changePassword.short", "Password must be at least 8 characters.")
    ∷ ("account.changePassword.wrongCurrent", "Current password is incorrect.")
    ∷ ("account.sessions", "Active sessions")
    ∷ ("account.sessions.subtitle", "Sign out of every device, including this one.")
    ∷ ("account.signOutAll", "Sign out everywhere")
    ∷ (
      "account.signOutAll.confirm",
      "This will sign out every device, including this one. Continue?",
    )
    ∷ ("auth.mfa.title", "Two-factor authentication")
    ∷ ("auth.mfa.hint", "Enter the 6-digit code from your authenticator app.")
    ∷ ("auth.mfa.recovery.hint", "Enter one of your 10-character recovery codes.")
    ∷ ("auth.mfa.verify", "Verify")
    ∷ ("auth.mfa.useRecovery", "Use a recovery code instead")
    ∷ ("auth.mfa.useTotp", "← Use authenticator app instead")
    ∷ ("auth.mfa.back", "Back to sign in")
    ∷ ("auth.forgotPassword", "Forgot password?")
    ∷ ("auth.forgotPassword.title", "Reset your password")
    ∷ ("auth.forgotPassword.subtitle", "Enter your email and we'll send you a reset link.")
    ∷ ("auth.forgotPassword.email", "Email address")
    ∷ ("auth.forgotPassword.submit", "Send reset link")
    ∷ ("auth.forgotPassword.sending", "Sending…")
    ∷ ("auth.forgotPassword.sent.title", "Check your email")
    ∷ (
      "auth.forgotPassword.sent.body",
      "If {email} is registered, a password reset link is on its way. It expires in 1 hour.",
    )
    ∷ ("auth.forgotPassword.backToLogin", "Back to sign in")
    ∷ ("auth.resetPassword.title", "Set a new password")
    ∷ ("auth.resetPassword.subtitle", "Choose a new password for {email}.")
    ∷ ("auth.resetPassword.new", "New password")
    ∷ ("auth.resetPassword.confirm", "Confirm new password")
    ∷ ("auth.resetPassword.submit", "Set new password")
    ∷ ("auth.resetPassword.saving", "Saving…")
    ∷ ("auth.resetPassword.success.title", "Password updated")
    ∷ (
      "auth.resetPassword.success.body",
      "Your password has been changed. You can now sign in with your new password.",
    )
    ∷ ("auth.resetPassword.success.login", "Sign in")
    ∷ ("auth.resetPassword.invalid.title", "Link expired or invalid")
    ∷ (
      "auth.resetPassword.invalid.body",
      "This reset link has expired or already been used. Request a new one.",
    )
    ∷ ("auth.resetPassword.invalid.request", "Request a new link")
    ∷ ("auth.resetPassword.error.short", "Password must be at least 8 characters.")
    ∷ ("auth.resetPassword.error.mismatch", "Passwords don't match.")
    ∷ ("auth.resetPassword.loading", "Validating link…")
    ∷ ("account.mfa", "Two-factor authentication")
    ∷ (
      "account.mfa.subtitle",
      "Add a second layer of protection to your account using an authenticator app.",
    )
    ∷ ("account.mfa.enabled", "Authenticator app active")
    ∷ (
      "account.mfa.enabled.detail",
      "Your account is protected with TOTP two-factor authentication.",
    )
    ∷ ("account.mfa.disabled", "No two-factor method configured")
    ∷ ("account.mfa.add", "Set up authenticator app")
    ∷ ("account.mfa.remove", "Remove")
    ∷ ("account.mfa.remove.confirm.title", "Remove authenticator app?")
    ∷ (
      "account.mfa.remove.confirm.body",
      "This will disable two-factor authentication on your account. Confirm with your current password or an authenticator code.",
    )
    ∷ ("account.mfa.remove.password", "Current password")
    ∷ ("account.mfa.remove.code", "— or — Authenticator code")
    ∷ ("account.mfa.remove.submit", "Remove authenticator app")
    ∷ ("account.mfa.setup.step1.title", "Scan this QR code")
    ∷ (
      "account.mfa.setup.step1.body",
      "Open your authenticator app (Google Authenticator, Authy, 1Password…) and scan the QR code below.",
    )
    ∷ ("account.mfa.setup.step1.manual", "Can't scan? Enter this key manually:")
    ∷ ("account.mfa.setup.step1.next", "I've scanned it — Continue")
    ∷ ("account.mfa.setup.step2.title", "Verify your code")
    ∷ (
      "account.mfa.setup.step2.body",
      "Enter the 6-digit code shown in your authenticator app to confirm the setup.",
    )
    ∷ ("account.mfa.setup.step2.label", "Code from app")
    ∷ ("account.mfa.setup.step2.submit", "Verify and enable")
    ∷ ("account.mfa.setup.step2.verifying", "Verifying…")
    ∷ ("account.mfa.setup.step2.error", "Invalid code. Check your app and try again.")
    ∷ ("account.mfa.setup.step3.title", "Save your recovery codes")
    ∷ (
      "account.mfa.setup.step3.body",
      "If you lose access to your authenticator app, you can use one of these codes to sign in. Each code works once. Save them somewhere safe — they won't be shown again.",
    )
    ∷ ("account.mfa.setup.step3.copy", "Copy all codes")
    ∷ ("account.mfa.setup.step3.copied", "Copied!")
    ∷ ("account.mfa.setup.step3.done", "I've saved my codes — Done")
    ∷ ("account.mfa.recovery.regen", "Regenerate recovery codes")
    ∷ (
      "account.mfa.recovery.regen.body",
      "Enter your current authenticator code to generate a new set. Your old codes will stop working immediately.",
    )
    ∷ ("account.mfa.recovery.regen.submit", "Generate new codes")
    ∷ ("account.mfa.label.default", "Authenticator app")
    ∷ []

abbrev pub french : List (String × String)
french =
    ("auth.signin.title", "Se connecter")
    ∷ ("auth.signin.subtitle", "Connectez-vous pour accéder à Interpret.")
    ∷ ("auth.email", "Courriel")
    ∷ ("auth.password", "Mot de passe")
    ∷ ("auth.mfaCode", "Code de l’authentificateur")
    ∷ ("auth.signin.button", "Se connecter")
    ∷ ("auth.signin.loading", "Connexion…")
    ∷ ("auth.signin.error", "Échec de la connexion. Vérifiez votre courriel et votre mot de passe.")
    ∷ (
      "auth.signin.needMfa", "Entrez le code à 6 chiffres de votre application d’authentification.",
    )
    ∷ ("auth.signout", "Se déconnecter")
    ∷ ("auth.account", "Compte")
    ∷ ("auth.account.tenant", "Organisation")
    ∷ ("auth.account.role", "Rôle")
    ∷ ("auth.changePassword", "Modifier le mot de passe")
    ∷ ("auth.currentPassword", "Mot de passe actuel")
    ∷ ("auth.newPassword", "Nouveau mot de passe")
    ∷ ("auth.changePassword.button", "Mettre à jour")
    ∷ (
      "auth.changePassword.success",
      "Mot de passe mis à jour. Les autres sessions ont été déconnectées.",
    )
    ∷ (
      "auth.adminProvisioned",
      "Votre administrateur crée les comptes. Contactez-le pour obtenir un accès.",
    )
    ∷ ("account.profile", "Profil")
    ∷ ("account.profile.subtitle", "Vos informations de profil de base.")
    ∷ ("account.displayName", "Nom affiché")
    ∷ ("account.email", "Courriel")
    ∷ (
      "account.email.help",
      "Votre courriel est votre identifiant de connexion. Demandez à un administrateur de le modifier.",
    )
    ∷ ("account.profile.save", "Enregistrer le profil")
    ∷ ("account.profile.saved", "Profil mis à jour.")
    ∷ ("account.role", "Rôle dans {tenant}")
    ∷ ("account.security", "Sécurité")
    ∷ ("account.security.subtitle", "Modifiez votre mot de passe et gérez les sessions actives.")
    ∷ ("account.changePassword", "Modifier le mot de passe")
    ∷ ("account.currentPassword", "Mot de passe actuel")
    ∷ ("account.newPassword", "Nouveau mot de passe")
    ∷ ("account.confirmPassword", "Confirmer le mot de passe")
    ∷ ("account.changePassword.submit", "Mettre à jour")
    ∷ ("account.changePassword.saving", "Mise à jour…")
    ∷ (
      "account.changePassword.success",
      "Mot de passe mis à jour. Les autres sessions ont été déconnectées.",
    )
    ∷ ("account.changePassword.mismatch", "Les mots de passe ne correspondent pas.")
    ∷ ("account.changePassword.short", "Le mot de passe doit comporter au moins 8 caractères.")
    ∷ ("account.changePassword.wrongCurrent", "Le mot de passe actuel est incorrect.")
    ∷ ("account.sessions", "Sessions actives")
    ∷ ("account.sessions.subtitle", "Déconnectez tous les appareils, y compris celui-ci.")
    ∷ ("account.signOutAll", "Se déconnecter partout")
    ∷ (
      "account.signOutAll.confirm",
      "Cela déconnectera tous les appareils, y compris celui-ci. Continuer ?",
    )
    ∷ ("auth.mfa.title", "Authentification à deux facteurs")
    ∷ ("auth.mfa.hint", "Entrez le code à 6 chiffres de votre application d'authentification.")
    ∷ ("auth.mfa.recovery.hint", "Entrez l'un de vos codes de récupération à 10 caractères.")
    ∷ ("auth.mfa.verify", "Vérifier")
    ∷ ("auth.mfa.useRecovery", "Utiliser un code de récupération")
    ∷ ("auth.mfa.useTotp", "← Utiliser l'application d'authentification")
    ∷ ("auth.mfa.back", "Retour à la connexion")
    ∷ ("auth.forgotPassword", "Mot de passe oublié ?")
    ∷ ("auth.forgotPassword.title", "Réinitialiser votre mot de passe")
    ∷ (
      "auth.forgotPassword.subtitle",
      "Entrez votre courriel et nous vous enverrons un lien de réinitialisation.",
    )
    ∷ ("auth.forgotPassword.email", "Adresse courriel")
    ∷ ("auth.forgotPassword.submit", "Envoyer le lien")
    ∷ ("auth.forgotPassword.sending", "Envoi…")
    ∷ ("auth.forgotPassword.sent.title", "Vérifiez votre courriel")
    ∷ (
      "auth.forgotPassword.sent.body",
      "Si {email} est enregistré, un lien de réinitialisation vous a été envoyé. Il expire dans 1 heure.",
    )
    ∷ ("auth.forgotPassword.backToLogin", "Retour à la connexion")
    ∷ ("auth.resetPassword.title", "Définir un nouveau mot de passe")
    ∷ ("auth.resetPassword.subtitle", "Choisissez un nouveau mot de passe pour {email}.")
    ∷ ("auth.resetPassword.new", "Nouveau mot de passe")
    ∷ ("auth.resetPassword.confirm", "Confirmer le mot de passe")
    ∷ ("auth.resetPassword.submit", "Définir le mot de passe")
    ∷ ("auth.resetPassword.saving", "Enregistrement…")
    ∷ ("auth.resetPassword.success.title", "Mot de passe mis à jour")
    ∷ (
      "auth.resetPassword.success.body",
      "Votre mot de passe a été modifié. Vous pouvez maintenant vous connecter avec votre nouveau mot de passe.",
    )
    ∷ ("auth.resetPassword.success.login", "Se connecter")
    ∷ ("auth.resetPassword.invalid.title", "Lien expiré ou invalide")
    ∷ (
      "auth.resetPassword.invalid.body",
      "Ce lien de réinitialisation a expiré ou a déjà été utilisé. Demandez-en un nouveau.",
    )
    ∷ ("auth.resetPassword.invalid.request", "Demander un nouveau lien")
    ∷ ("auth.resetPassword.error.short", "Le mot de passe doit comporter au moins 8 caractères.")
    ∷ ("auth.resetPassword.error.mismatch", "Les mots de passe ne correspondent pas.")
    ∷ ("auth.resetPassword.loading", "Validation du lien…")
    ∷ ("account.mfa", "Authentification à deux facteurs")
    ∷ (
      "account.mfa.subtitle",
      "Ajoutez une couche de protection supplémentaire avec une application d’authentification.",
    )
    ∷ ("account.mfa.enabled", "Application d’authentification active")
    ∷ (
      "account.mfa.enabled.detail",
      "Votre compte est protégé par l’authentification à deux facteurs (TOTP).",
    )
    ∷ ("account.mfa.disabled", "Aucune méthode à deux facteurs configurée")
    ∷ ("account.mfa.add", "Configurer une application d’authentification")
    ∷ ("account.mfa.remove", "Supprimer")
    ∷ ("account.mfa.remove.confirm.title", "Supprimer l’application d’authentification\u{a0}?")
    ∷ (
      "account.mfa.remove.confirm.body",
      "Cela désactivera l’authentification à deux facteurs sur votre compte. Confirmez avec votre mot de passe actuel ou un code d’authentification.",
    )
    ∷ ("account.mfa.remove.password", "Mot de passe actuel")
    ∷ ("account.mfa.remove.code", "— ou — Code de l’authentificateur")
    ∷ ("account.mfa.remove.submit", "Supprimer l’application")
    ∷ ("account.mfa.setup.step1.title", "Scannez ce code QR")
    ∷ (
      "account.mfa.setup.step1.body",
      "Ouvrez votre application d’authentification (Google Authenticator, Authy, 1Password…) et scannez le code QR ci-dessous.",
    )
    ∷ (
      "account.mfa.setup.step1.manual",
      "Impossible de scanner\u{a0}? Entrez cette clé manuellement\u{a0}:",
    )
    ∷ ("account.mfa.setup.step1.next", "J’ai scanné — Continuer")
    ∷ ("account.mfa.setup.step2.title", "Vérifiez votre code")
    ∷ (
      "account.mfa.setup.step2.body",
      "Entrez le code à 6 chiffres affiché dans votre application pour confirmer la configuration.",
    )
    ∷ ("account.mfa.setup.step2.label", "Code de l’application")
    ∷ ("account.mfa.setup.step2.submit", "Vérifier et activer")
    ∷ ("account.mfa.setup.step2.verifying", "Vérification…")
    ∷ ("account.mfa.setup.step2.error", "Code invalide. Vérifiez votre application et réessayez.")
    ∷ ("account.mfa.setup.step3.title", "Sauvegardez vos codes de récupération")
    ∷ (
      "account.mfa.setup.step3.body",
      "Si vous perdez l’accès à votre application, vous pouvez utiliser l’un de ces codes pour vous connecter. Chaque code ne fonctionne qu’une seule fois. Conservez-les en lieu sûr — ils ne seront plus affichés.",
    )
    ∷ ("account.mfa.setup.step3.copy", "Copier tous les codes")
    ∷ ("account.mfa.setup.step3.copied", "Copié\u{a0}!")
    ∷ ("account.mfa.setup.step3.done", "J’ai sauvegardé mes codes — Terminé")
    ∷ ("account.mfa.recovery.regen", "Régénérer les codes de récupération")
    ∷ (
      "account.mfa.recovery.regen.body",
      "Entrez votre code d’authentification pour générer un nouveau jeu de codes. Vos anciens codes seront immédiatement invalidés.",
    )
    ∷ ("account.mfa.recovery.regen.submit", "Générer de nouveaux codes")
    ∷ ("account.mfa.label.default", "Application d’authentification")
    ∷ []
