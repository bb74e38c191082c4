-- ===== src/I18n/Strings/Integrations.antt =====
-- frontend/src/lib/i18n/strings/integrations.ts
use clerq.Prelude.{String, List, [], ◌∷◌}

abbrev pub english : List (String × String)
english =
    ("integrations.title", "Integrations")
    ∷ (
      "integrations.subtitle",
      "App-wide connections to external services. Managed by super-admins.",
    )
    ∷ ("integrations.set", "set")
    ∷ ("integrations.configured", "Configured")
    ∷ ("integrations.email.title", "Email (Resend)")
    ∷ (
      "integrations.email.desc",
      "Sending (invites, replies) and inbound document intake via Resend.",
    )
    ∷ ("integrations.apiKey", "Resend API key")
    ∷ (
      "integrations.apiKey.help",
      "Used to send mail and fetch inbound attachments. Leave blank to keep the current key.",
    )
    ∷ ("integrations.fromAddress", "From address")
    ∷ ("integrations.fromName", "From name")
    ∷ ("integrations.inbound", "Inbound (receiving)")
    ∷ ("integrations.inboundDomain", "Inbound domain")
    ∷ ("integrations.inboundDomain.help", "Mailboxes are issued on this domain, e.g. {address}.")
    ∷ ("integrations.webhookSecret", "Inbound webhook secret")
    ∷ (
      "integrations.webhookSecret.help",
      "The Svix signing secret (whsec_…) from the Resend webhook. Without it, inbound signatures are NOT verified.",
    )
    ∷ (
      "integrations.setup.intro",
      "In Resend, add a webhook for the email.received event pointing at this URL, then add the MX record to your DNS.",
    )
    ∷ ("integrations.setup.webhookUrl", "Webhook URL (email.received)")
    ∷ ("integrations.setup.mx", "Inbound MX record (add in DNS)")
    ∷ ("integrations.sendTest", "Send test email")
    ∷ ("integrations.testing", "Sending…")
    ∷ ("integrations.testOk", "Test email sent.")
    ∷ ("integrations.tab", "Integrations")
    ∷ ("integrations.tab.tenants", "Tenants & users")
    ∷ ("admin.tabShort.tenants", "Tenants")
    ∷ []

abbrev pub french : List (String × String)
french =
    ("integrations.title", "Intégrations")
    ∷ (
      "integrations.subtitle",
      "Connexions à des services externes, valables pour toute l’application. Gérées par les super-administrateurs.",
    )
    ∷ ("integrations.set", "défini")
    ∷ ("integrations.configured", "Configuré")
    ∷ ("integrations.email.title", "Courriel (Resend)")
    ∷ (
      "integrations.email.desc",
      "Envoi (invitations, réponses) et réception de documents par Resend.",
    )
    ∷ ("integrations.apiKey", "Clé API Resend")
    ∷ (
      "integrations.apiKey.help",
      "Sert à envoyer les courriels et récupérer les pièces jointes entrantes. Laisser vide pour conserver la clé actuelle.",
    )
    ∷ ("integrations.fromAddress", "Adresse d’expéditeur")
    ∷ ("integrations.fromName", "Nom d’expéditeur")
    ∷ ("integrations.inbound", "Réception")
    ∷ ("integrations.inboundDomain", "Domaine de réception")
    ∷ (
      "integrations.inboundDomain.help", "Les boîtes sont créées sur ce domaine, p. ex. {address}.",
    )
    ∷ ("integrations.webhookSecret", "Secret du webhook entrant")
    ∷ (
      "integrations.webhookSecret.help",
      "Le secret de signature Svix (whsec_…) du webhook Resend. Sans lui, les signatures entrantes ne sont PAS vérifiées.",
    )
    ∷ (
      "integrations.setup.intro",
      "Dans Resend, ajoutez un webhook pour l’événement email.received pointant vers cette URL, puis ajoutez l’enregistrement MX à votre DNS.",
    )
    ∷ ("integrations.setup.webhookUrl", "URL du webhook (email.received)")
    ∷ ("integrations.setup.mx", "Enregistrement MX entrant (à ajouter au DNS)")
    ∷ ("integrations.sendTest", "Envoyer un courriel test")
    ∷ ("integrations.testing", "Envoi…")
    ∷ ("integrations.testOk", "Courriel test envoyé.")
    ∷ ("integrations.tab", "Intégrations")
    ∷ ("integrations.tab.tenants", "Locataires et utilisateurs")
    ∷ ("admin.tabShort.tenants", "Locataires")
    ∷ []
