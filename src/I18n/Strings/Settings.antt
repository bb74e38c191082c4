-- ===== src/I18n/Strings/Settings.antt =====
-- frontend/src/lib/i18n/strings/settings.ts
use clerq.Prelude.{String, List, [], ◌∷◌}

abbrev pub english : List (String × String)
english =
    ("settings.title", "Settings")
    ∷ ("settings.language", "Language")
    ∷ ("settings.language.label", "Interface language")
    ∷ ("settings.language.en", "English")
    ∷ ("settings.language.en.desc", "Use English throughout")
    ∷ ("settings.language.fr", "Français")
    ∷ ("settings.language.fr.desc", "Quebec French throughout")
    ∷ ("settings.appearance", "Appearance")
    ∷ ("settings.theme", "Theme")
    ∷ ("settings.theme.light", "Light")
    ∷ ("settings.theme.light.desc", "Always use light mode")
    ∷ ("settings.theme.dark", "Dark")
    ∷ ("settings.theme.dark.desc", "Always use dark mode")
    ∷ ("settings.theme.system", "System")
    ∷ ("settings.theme.system.desc", "Follow OS preference")
    ∷ ("settings.openrouter", "OpenRouter")
    ∷ ("settings.apiKey", "API Key")
    ∷ ("settings.apiKey.set", "API key is set")
    ∷ ("settings.apiKey.help", "Used for all AI vision calls. Get a key at openrouter.ai.")
    ∷ ("settings.model", "Default model")
    ∷ ("settings.model.fetching", "Fetching models…")
    ∷ ("settings.model.available", "{count} models available")
    ∷ ("settings.saveChanges", "Save changes")
    ∷ ("settings.test", "Test connection")
    ∷ ("settings.testing", "Testing…")
    ∷ ("settings.saved", "Saved")
    ∷ ("settings.connected", "Connected — model replied: \"{response}\"")
    ∷ ("settings.saveFailed", "Failed to save: {error}")
    ∷ ("settings.section.account", "Account")
    ∷ ("settings.section.appearance", "Appearance")
    ∷ ("settings.section.language", "Language")
    ∷ ("settings.section.ai", "AI")
    ∷ ("settings.section.account.desc", "Profile and password")
    ∷ ("settings.section.appearance.desc", "Theme")
    ∷ ("settings.section.language.desc", "Interface language")
    ∷ ("settings.section.ai.desc", "OpenRouter API key & model")
    ∷ []

abbrev pub french : List (String × String)
french =
    ("settings.title", "Paramètres")
    ∷ ("settings.language", "Langue")
    ∷ ("settings.language.label", "Langue de l’interface")
    ∷ ("settings.language.en", "English")
    ∷ ("settings.language.en.desc", "Tout afficher en anglais")
    ∷ ("settings.language.fr", "Français")
    ∷ ("settings.language.fr.desc", "Tout afficher en français québécois")
    ∷ ("settings.appearance", "Apparence")
    ∷ ("settings.theme", "Thème")
    ∷ ("settings.theme.light", "Clair")
    ∷ ("settings.theme.light.desc", "Toujours utiliser le mode clair")
    ∷ ("settings.theme.dark", "Sombre")
    ∷ ("settings.theme.dark.desc", "Toujours utiliser le mode sombre")
    ∷ ("settings.theme.system", "Système")
    ∷ ("settings.theme.system.desc", "Suivre la préférence du système")
    ∷ ("settings.openrouter", "OpenRouter")
    ∷ ("settings.apiKey", "Clé API")
    ∷ ("settings.apiKey.set", "La clé API est configurée")
    ∷ (
      "settings.apiKey.help",
      "Utilisée pour tous les appels de vision IA. Obtenez une clé sur openrouter.ai.",
    )
    ∷ ("settings.model", "Modèle par défaut")
    ∷ ("settings.model.fetching", "Récupération des modèles…")
    ∷ ("settings.model.available", "{count} modèles disponibles")
    ∷ ("settings.saveChanges", "Enregistrer les modifications")
    ∷ ("settings.test", "Tester la connexion")
    ∷ ("settings.testing", "Test en cours…")
    ∷ ("settings.saved", "Enregistré")
    ∷ ("settings.connected", "Connecté — le modèle a répondu : « {response} »")
    ∷ ("settings.saveFailed", "Échec de l’enregistrement : {error}")
    ∷ ("settings.section.account", "Compte")
    ∷ ("settings.section.appearance", "Apparence")
    ∷ ("settings.section.language", "Langue")
    ∷ ("settings.section.ai", "IA")
    ∷ ("settings.section.account.desc", "Profil et mot de passe")
    ∷ ("settings.section.appearance.desc", "Thème")
    ∷ ("settings.section.language.desc", "Langue de l’interface")
    ∷ ("settings.section.ai.desc", "Clé API et modèle OpenRouter")
    ∷ []
