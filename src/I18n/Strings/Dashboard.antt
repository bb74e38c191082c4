-- ===== src/I18n/Strings/Dashboard.antt =====
-- frontend/src/lib/i18n/strings/dashboard.ts
use clerq.Prelude.{String, List, [], ◌∷◌}

abbrev pub english : List (String × String)
english =
    ("dashboard.title", "Dashboard")
    ∷ ("dashboard.openInEditor", "Open in editor")
    ∷ ("dashboard.dropTitle", "Drop PDF here to run")
    ∷ ("dashboard.dropHint", "or click to upload")
    ∷ ("dashboard.clear", "clear")
    ∷ ("dashboard.dismiss", "dismiss")
    ∷ ("dashboard.reset", "reset")
    ∷ ("dashboard.runWorkflow", "Run workflow")
    ∷ ("dashboard.runningEllipsis", "Running…")
    ∷ ("dashboard.viewResults", "View results")
    ∷ ("dashboard.uploadFailed", "Upload failed")
    ∷ ("dashboard.justNow", "just now")
    ∷ ("dashboard.minutesAgo", "{mins}m ago")
    ∷ ("dashboard.hoursAgo", "{hours}h ago")
    ∷ ("dashboard.daysAgo", "{days}d ago")
    ∷ ("dashboard.lastRun", "Last run {time}")
    ∷ ("dashboard.noResultData", "No result data available.")
    ∷ ("dashboard.noFavorites", "No favorites yet")
    ∷ (
      "dashboard.noFavoritesHint",
      "Star workflows from the Workflows page to add them here as interactive widgets.",
    )
    ∷ ("dashboard.goToWorkflows", "Go to Workflows")
    ∷ ("dashboard.node.input", "Input")
    ∷ ("dashboard.node.pdf_to_images", "PDF → Images")
    ∷ ("dashboard.node.output", "Output")
    ∷ ("dashboard.node.validate_documents", "Validate")
    ∷ ("dashboard.node.show_results", "Results")
    ∷ ("dashboard.overall.pass", "Pass")
    ∷ ("dashboard.overall.fail", "Fail")
    ∷ ("dashboard.overall.needs_review", "Needs Review")
    ∷ []

abbrev pub french : List (String × String)
french =
    ("dashboard.title", "Tableau de bord")
    ∷ ("dashboard.openInEditor", "Ouvrir dans l’éditeur")
    ∷ ("dashboard.dropTitle", "Déposez un PDF ici pour lancer")
    ∷ ("dashboard.dropHint", "ou cliquez pour téléverser")
    ∷ ("dashboard.clear", "effacer")
    ∷ ("dashboard.dismiss", "ignorer")
    ∷ ("dashboard.reset", "réinitialiser")
    ∷ ("dashboard.runWorkflow", "Exécuter le flux")
    ∷ ("dashboard.runningEllipsis", "En cours…")
    ∷ ("dashboard.viewResults", "Voir les résultats")
    ∷ ("dashboard.uploadFailed", "Échec du téléversement")
    ∷ ("dashboard.justNow", "à l’instant")
    ∷ ("dashboard.minutesAgo", "il y a {mins} min")
    ∷ ("dashboard.hoursAgo", "il y a {hours} h")
    ∷ ("dashboard.daysAgo", "il y a {days} j")
    ∷ ("dashboard.lastRun", "Dernière exécution {time}")
    ∷ ("dashboard.noResultData", "Aucune donnée de résultat disponible.")
    ∷ ("dashboard.noFavorites", "Aucun favori pour l’instant")
    ∷ (
      "dashboard.noFavoritesHint",
      "Marquez des flux de travail d’une étoile depuis la page Flux de travail pour les ajouter ici comme widgets interactifs.",
    )
    ∷ ("dashboard.goToWorkflows", "Aller aux flux de travail")
    ∷ ("dashboard.node.input", "Entrée")
    ∷ ("dashboard.node.pdf_to_images", "PDF → Images")
    ∷ ("dashboard.node.output", "Sortie")
    ∷ ("dashboard.node.validate_documents", "Valider")
    ∷ ("dashboard.node.show_results", "Résultats")
    ∷ ("dashboard.overall.pass", "Conforme")
    ∷ ("dashboard.overall.fail", "Non conforme")
    ∷ ("dashboard.overall.needs_review", "À réviser")
    ∷ []
