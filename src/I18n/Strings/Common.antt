-- ===== src/I18n/Strings/Common.antt =====
-- frontend/src/lib/i18n/strings/common.ts
use clerq.Prelude.{String, List, [], ◌∷◌}

abbrev pub english : List (String × String)
english =
    ("nav.workspace", "Workspace")
    ∷ ("nav.cases", "Cases")
    ∷ ("nav.configure", "Configure")
    ∷ ("nav.dashboard", "Dashboard")
    ∷ ("nav.checks", "Checks")
    ∷ ("nav.workflows", "Workflows")
    ∷ ("nav.library", "Library")
    ∷ ("nav.mail", "Mail")
    ∷ ("nav.settings", "Settings")
    ∷ ("nav.help", "Help")
    ∷ ("nav.insights", "Insights")
    ∷ ("brand.beta", "beta")
    ∷ ("btn.save", "Save")
    ∷ ("btn.saving", "Saving…")
    ∷ ("btn.cancel", "Cancel")
    ∷ ("btn.delete", "Delete")
    ∷ ("btn.remove", "Remove")
    ∷ ("btn.run", "Run")
    ∷ ("btn.close", "Close")
    ∷ ("btn.add", "Add")
    ∷ ("btn.addMore", "Add more")
    ∷ ("btn.edit", "Edit")
    ∷ ("btn.create", "Create")
    ∷ ("btn.creating", "Creating…")
    ∷ ("btn.upload", "Upload")
    ∷ ("btn.uploading", "Uploading…")
    ∷ ("btn.search", "Search…")
    ∷ ("btn.open", "Open")
    ∷ ("btn.back", "Back")
    ∷ ("btn.retry", "Retry")
    ∷ ("btn.stop", "Stop")
    ∷ ("btn.view", "View")
    ∷ ("btn.done", "Done")
    ∷ ("btn.confirm", "Confirm")
    ∷ ("btn.restore", "Restore")
    ∷ ("status.pending", "Pending")
    ∷ ("status.ready", "Queued")
    ∷ ("status.running", "Running")
    ∷ ("status.succeeded", "Succeeded")
    ∷ ("status.completed", "Completed")
    ∷ ("status.failed", "Failed")
    ∷ ("status.skipped", "Skipped")
    ∷ ("status.waiting", "Waiting")
    ∷ ("status.cancelled", "Cancelled")
    ∷ ("verdict.pass", "Pass")
    ∷ ("verdict.fail", "Fail")
    ∷ ("verdict.uncertain", "Uncertain")
    ∷ ("verdict.needs_review", "Needs review")
    ∷ ("verdict.not_applicable", "N/A")
    ∷ ("common.loading", "Loading…")
    ∷ ("common.none", "None")
    ∷ ("common.untitled", "Untitled")
    ∷ ("common.confidence", "Confidence")
    ∷ ("common.evidence", "Evidence")
    ∷ ("common.required", "Required")
    ∷ ("common.optional", "Optional")
    ∷ []

abbrev pub french : List (String × String)
french =
    ("nav.workspace", "Espace de travail")
    ∷ ("nav.cases", "Dossiers")
    ∷ ("nav.configure", "Configurer")
    ∷ ("nav.dashboard", "Tableau de bord")
    ∷ ("nav.checks", "Vérifications")
    ∷ ("nav.workflows", "Flux de travail")
    ∷ ("nav.library", "Bibliothèque")
    ∷ ("nav.mail", "Courriel")
    ∷ ("nav.settings", "Paramètres")
    ∷ ("nav.help", "Aide")
    ∷ ("nav.insights", "Indicateurs")
    ∷ ("brand.beta", "bêta")
    ∷ ("btn.save", "Enregistrer")
    ∷ ("btn.saving", "Enregistrement…")
    ∷ ("btn.cancel", "Annuler")
    ∷ ("btn.delete", "Supprimer")
    ∷ ("btn.remove", "Retirer")
    ∷ ("btn.run", "Exécuter")
    ∷ ("btn.close", "Fermer")
    ∷ ("btn.add", "Ajouter")
    ∷ ("btn.addMore", "Ajouter d’autres")
    ∷ ("btn.edit", "Modifier")
    ∷ ("btn.create", "Créer")
    ∷ ("btn.creating", "Création…")
    ∷ ("btn.upload", "Téléverser")
    ∷ ("btn.uploading", "Téléversement…")
    ∷ ("btn.search", "Rechercher…")
    ∷ ("btn.open", "Ouvrir")
    ∷ ("btn.back", "Retour")
    ∷ ("btn.retry", "Réessayer")
    ∷ ("btn.stop", "Arrêter")
    ∷ ("btn.view", "Voir")
    ∷ ("btn.done", "Terminé")
    ∷ ("btn.confirm", "Confirmer")
    ∷ ("btn.restore", "Restaurer")
    ∷ ("status.pending", "En attente")
    ∷ ("status.ready", "En file")
    ∷ ("status.running", "En cours")
    ∷ ("status.succeeded", "Réussi")
    ∷ ("status.completed", "Terminé")
    ∷ ("status.failed", "Échoué")
    ∷ ("status.skipped", "Ignoré")
    ∷ ("status.waiting", "En pause")
    ∷ ("status.cancelled", "Annulé")
    ∷ ("verdict.pass", "Conforme")
    ∷ ("verdict.fail", "Non conforme")
    ∷ ("verdict.uncertain", "Incertain")
    ∷ ("verdict.needs_review", "À réviser")
    ∷ ("verdict.not_applicable", "S. O.")
    ∷ ("common.loading", "Chargement…")
    ∷ ("common.none", "Aucun")
    ∷ ("common.untitled", "Sans titre")
    ∷ ("common.confidence", "Confiance")
    ∷ ("common.evidence", "Justification")
    ∷ ("common.required", "Obligatoire")
    ∷ ("common.optional", "Facultatif")
    ∷ []
