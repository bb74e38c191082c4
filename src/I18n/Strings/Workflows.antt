-- ===== src/I18n/Strings/Workflows.antt =====
-- frontend/src/lib/i18n/strings/workflows.ts
use clerq.Prelude.{String, List, [], ◌∷◌}

abbrev pub english : List (String × String)
english =
    ("workflows.title", "Workflows")
    ∷ ("workflows.hideArchived", "Hide archived")
    ∷ ("workflows.showArchived", "Show archived")
    ∷ ("workflows.new", "New workflow")
    ∷ ("workflows.namePlaceholder", "Workflow name…")
    ∷ ("workflows.empty.archived.title", "No archived workflows")
    ∷ ("workflows.empty.title", "No workflows yet")
    ∷ ("workflows.empty.archived.hint", "Archived workflows will appear here")
    ∷ ("workflows.empty.hint", "Create one to start processing documents")
    ∷ ("workflows.col.name", "Name")
    ∷ ("workflows.col.version", "Ver.")
    ∷ ("workflows.col.nodes", "Nodes")
    ∷ ("workflows.col.updated", "Updated")
    ∷ ("workflows.col.status", "Status")
    ∷ ("workflows.col.run", "Run")
    ∷ ("workflows.col.steps", "Steps")
    ∷ ("workflows.col.date", "Date")
    ∷ ("workflows.archivedBadge", "archived")
    ∷ ("workflows.star.add", "Add to dashboard")
    ∷ ("workflows.star.remove", "Remove from dashboard")
    ∷ ("workflows.inbox.enable", "Enable email inbox")
    ∷ ("workflows.inbox.disable", "Email inbox: {address} — click to disable")
    ∷ ("workflows.inbox.edit", "Email inbox: {address} — click to edit")
    ∷ ("workflows.inbox.saveAddress", "Save address")
    ∷ ("workflows.inbox.copyAddress", "Copy address")
    ∷ ("workflows.inbox.disableShort", "Disable")
    ∷ ("workflows.inbox.addressFailed", "Could not save the address.")
    ∷ ("workflows.action.runHistory", "Run history")
    ∷ ("workflows.action.unarchive", "Unarchive")
    ∷ ("workflows.action.archive", "Archive")
    ∷ ("workflows.runs.crumb", "Runs")
    ∷ ("workflows.runs.empty", "No runs yet")
    ∷ ("workflows.runs.emptyHint", "Trigger a run from the workflow editor.")
    ∷ ("workflows.runs.viewLogs", "View logs")
    ∷ ("workflows.runs.logsTitle", "Run #{id} · {node} — Logs")
    ∷ ("workflows.node.input", "Document Input")
    ∷ ("workflows.node.email_input", "Email Input")
    ∷ ("workflows.node.pdf_to_images", "PDF → Images")
    ∷ ("workflows.node.ai", "AI")
    ∷ ("workflows.node.validate_documents", "Validate Documents")
    ∷ ("workflows.node.output", "Collect Output")
    ∷ ("workflows.node.send_email", "Send Email")
    ∷ ("workflows.node.show_results", "Show Results")
    ∷ ("workflows.versions.title", "Version history")
    ∷ ("workflows.versions.subtitle", "Each save creates a new version")
    ∷ ("workflows.versions.empty", "No versions yet. Save the workflow to create one.")
    ∷ ("workflows.versions.current", "current")
    ∷ ("workflows.versions.nodeCount", "{n} node")
    ∷ ("workflows.versions.nodeCountPlural", "{n} nodes")
    ∷ ("workflows.versions.justNow", "just now")
    ∷ ("workflows.versions.minutesAgo", "{n}m ago")
    ∷ ("workflows.versions.hoursAgo", "{n}h ago")
    ∷ ("workflows.versions.daysAgo", "{n}d ago")
    ∷ []

abbrev pub french : List (String × String)
french =
    ("workflows.title", "Flux de travail")
    ∷ ("workflows.hideArchived", "Masquer les archivés")
    ∷ ("workflows.showArchived", "Afficher les archivés")
    ∷ ("workflows.new", "Nouveau flux")
    ∷ ("workflows.namePlaceholder", "Nom du flux…")
    ∷ ("workflows.empty.archived.title", "Aucun flux archivé")
    ∷ ("workflows.empty.title", "Aucun flux de travail")
    ∷ ("workflows.empty.archived.hint", "Les flux archivés apparaîtront ici")
    ∷ ("workflows.empty.hint", "Créez-en un pour commencer à traiter des documents")
    ∷ ("workflows.col.name", "Nom")
    ∷ ("workflows.col.version", "Vers.")
    ∷ ("workflows.col.nodes", "Nœuds")
    ∷ ("workflows.col.updated", "Mis à jour")
    ∷ ("workflows.col.status", "Statut")
    ∷ ("workflows.col.run", "Exécution")
    ∷ ("workflows.col.steps", "Étapes")
    ∷ ("workflows.col.date", "Date")
    ∷ ("workflows.archivedBadge", "archivé")
    ∷ ("workflows.star.add", "Ajouter au tableau de bord")
    ∷ ("workflows.star.remove", "Retirer du tableau de bord")
    ∷ ("workflows.inbox.enable", "Activer la boîte de réception")
    ∷ ("workflows.inbox.disable", "Boîte de réception : {address} — cliquer pour désactiver")
    ∷ ("workflows.inbox.edit", "Boîte de réception : {address} — cliquer pour modifier")
    ∷ ("workflows.inbox.saveAddress", "Enregistrer l’adresse")
    ∷ ("workflows.inbox.copyAddress", "Copier l’adresse")
    ∷ ("workflows.inbox.disableShort", "Désactiver")
    ∷ ("workflows.inbox.addressFailed", "Impossible d’enregistrer l’adresse.")
    ∷ ("workflows.action.runHistory", "Historique des exécutions")
    ∷ ("workflows.action.unarchive", "Désarchiver")
    ∷ ("workflows.action.archive", "Archiver")
    ∷ ("workflows.runs.crumb", "Exécutions")
    ∷ ("workflows.runs.empty", "Aucune exécution")
    ∷ ("workflows.runs.emptyHint", "Lancez une exécution depuis l’éditeur de flux.")
    ∷ ("workflows.runs.viewLogs", "Voir les journaux")
    ∷ ("workflows.runs.logsTitle", "Exécution #{id} · {node} — Journaux")
    ∷ ("workflows.node.input", "Entrée de document")
    ∷ ("workflows.node.email_input", "Entrée courriel")
    ∷ ("workflows.node.pdf_to_images", "PDF en images")
    ∷ ("workflows.node.ai", "IA")
    ∷ ("workflows.node.validate_documents", "Valider les documents")
    ∷ ("workflows.node.output", "Recueillir la sortie")
    ∷ ("workflows.node.send_email", "Envoyer un courriel")
    ∷ ("workflows.node.show_results", "Afficher les résultats")
    ∷ ("workflows.versions.title", "Historique des versions")
    ∷ ("workflows.versions.subtitle", "Chaque enregistrement crée une nouvelle version")
    ∷ ("workflows.versions.empty", "Aucune version. Enregistrez le flux pour en créer une.")
    ∷ ("workflows.versions.current", "actuelle")
    ∷ ("workflows.versions.nodeCount", "{n} nœud")
    ∷ ("workflows.versions.nodeCountPlural", "{n} nœuds")
    ∷ ("workflows.versions.justNow", "à l’instant")
    ∷ ("workflows.versions.minutesAgo", "il y a {n} min")
    ∷ ("workflows.versions.hoursAgo", "il y a {n} h")
    ∷ ("workflows.versions.daysAgo", "il y a {n} j")
    ∷ []
