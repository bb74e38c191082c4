-- ===== src/I18n/Strings/Cases.antt =====
-- frontend/src/lib/i18n/strings/cases.ts
use clerq.Prelude.{String, List, [], ◌∷◌}

abbrev pub english : List (String × String)
english =
    ("cases.title", "Cases")
    ∷ ("cases.empty", "No cases yet")
    ∷ (
      "cases.emptyHint",
      "Cases are created automatically when documents arrive by email or when you run a validation.",
    )
    ∷ ("cases.new", "New case")
    ∷ ("cases.search", "Search cases…")
    ∷ ("cases.filter.all", "All")
    ∷ ("cases.filter.needs_review", "Needs review")
    ∷ ("cases.filter.awaiting", "Awaiting applicant")
    ∷ ("cases.filter.closed", "Closed")
    ∷ ("cases.col.contact", "Contact")
    ∷ ("cases.col.target", "Target")
    ∷ ("cases.col.result", "Last result")
    ∷ ("cases.col.checklist", "Checklist")
    ∷ ("cases.col.activity", "Activity")
    ∷ ("cases.status.open", "Open")
    ∷ ("cases.status.awaiting_applicant", "Awaiting applicant")
    ∷ ("cases.status.under_review", "Under review")
    ∷ ("cases.status.closed_accepted", "Accepted")
    ∷ ("cases.status.closed_rejected", "Rejected")
    ∷ ("cases.detail.title", "Case")
    ∷ ("cases.detail.contact", "Contact")
    ∷ ("cases.detail.target", "Target")
    ∷ ("cases.detail.status", "Status")
    ∷ ("cases.detail.externalRef", "External ref")
    ∷ ("cases.detail.externalRefPlaceholder", "Link a client case #")
    ∷ ("cases.detail.timeline", "Timeline")
    ∷ ("cases.detail.documents", "Documents")
    ∷ ("cases.detail.checklist", "Requirements checklist")
    ∷ ("cases.detail.latestResult", "Latest result")
    ∷ ("cases.detail.noDocuments", "No documents yet")
    ∷ ("cases.detail.noTimeline", "No activity yet")
    ∷ ("cases.detail.reply", "Reply")
    ∷ ("cases.detail.addNote", "Add note")
    ∷ ("cases.detail.rerun", "Re-run")
    ∷ ("cases.detail.close", "Close case")
    ∷ ("cases.detail.reopen", "Reopen")
    ∷ ("cases.detail.closeAccepted", "Close — accepted")
    ∷ ("cases.detail.closeRejected", "Close — rejected")
    ∷ ("cases.detail.sendReply", "Send reply")
    ∷ ("cases.detail.saveNote", "Save note")
    ∷ ("cases.detail.replyPlaceholder", "Write a reply to the applicant…")
    ∷ ("cases.detail.notePlaceholder", "Add an internal note…")
    ∷ ("cases.checklist.satisfied", "Received")
    ∷ ("cases.checklist.partial", "Issues found")
    ∷ ("cases.checklist.missing", "Missing")
    ∷ ("cases.checklist.required", "required")
    ∷ ("cases.checklist.optional", "optional")
    ∷ ("cases.timeline.inbound", "Inbound")
    ∷ ("cases.timeline.outbound", "Reply sent")
    ∷ ("cases.timeline.note", "Internal note")
    ∷ ("cases.timeline.runCard", "Validation run")
    ∷ ("cases.timeline.workflowRun", "Workflow run")
    ∷ ("cases.timeline.openReport", "Open report →")
    ∷ ("cases.noContact", "No contact")
    ∷ ("cases.noTarget", "No target")
    ∷ ("cases.docCount", "{n} doc")
    ∷ ("cases.docsCount", "{n} docs")
    ∷ ("cases.quickStart", "Quick start")
    ∷ ("cases.newCaseModal.title", "New case")
    ∷ ("cases.newCaseModal.selectTarget", "Select a policy or workflow")
    ∷ ("cases.newCaseModal.contactEmail", "Contact email (optional)")
    ∷ ("cases.newCaseModal.contactName", "Contact name (optional)")
    ∷ ("cases.newCaseModal.externalRef", "External reference (optional)")
    ∷ ("cases.newCaseModal.dropFiles", "Drop documents here, or click to select")
    ∷ ("cases.newCaseModal.create", "Create & run")
    ∷ ("cases.unread", "Unread")
    ∷ []

abbrev pub french : List (String × String)
french =
    ("cases.title", "Dossiers")
    ∷ ("cases.empty", "Aucun dossier pour l'instant")
    ∷ (
      "cases.emptyHint",
      "Les dossiers sont créés automatiquement à la réception de courriels ou lors de validations.",
    )
    ∷ ("cases.new", "Nouveau dossier")
    ∷ ("cases.search", "Rechercher des dossiers…")
    ∷ ("cases.filter.all", "Tous")
    ∷ ("cases.filter.needs_review", "À réviser")
    ∷ ("cases.filter.awaiting", "En attente")
    ∷ ("cases.filter.closed", "Fermés")
    ∷ ("cases.col.contact", "Contact")
    ∷ ("cases.col.target", "Cible")
    ∷ ("cases.col.result", "Dernier résultat")
    ∷ ("cases.col.checklist", "Documents")
    ∷ ("cases.col.activity", "Activité")
    ∷ ("cases.status.open", "Ouvert")
    ∷ ("cases.status.awaiting_applicant", "En attente du demandeur")
    ∷ ("cases.status.under_review", "En révision")
    ∷ ("cases.status.closed_accepted", "Accepté")
    ∷ ("cases.status.closed_rejected", "Refusé")
    ∷ ("cases.detail.title", "Dossier")
    ∷ ("cases.detail.contact", "Contact")
    ∷ ("cases.detail.target", "Cible")
    ∷ ("cases.detail.status", "Statut")
    ∷ ("cases.detail.externalRef", "Référence externe")
    ∷ ("cases.detail.externalRefPlaceholder", "Lier un n° de dossier client")
    ∷ ("cases.detail.timeline", "Chronologie")
    ∷ ("cases.detail.documents", "Documents")
    ∷ ("cases.detail.checklist", "Liste de contrôle")
    ∷ ("cases.detail.latestResult", "Dernier résultat")
    ∷ ("cases.detail.noDocuments", "Aucun document")
    ∷ ("cases.detail.noTimeline", "Aucune activité")
    ∷ ("cases.detail.reply", "Répondre")
    ∷ ("cases.detail.addNote", "Ajouter une note")
    ∷ ("cases.detail.rerun", "Relancer")
    ∷ ("cases.detail.close", "Fermer le dossier")
    ∷ ("cases.detail.reopen", "Rouvrir")
    ∷ ("cases.detail.closeAccepted", "Fermer — accepté")
    ∷ ("cases.detail.closeRejected", "Fermer — refusé")
    ∷ ("cases.detail.sendReply", "Envoyer la réponse")
    ∷ ("cases.detail.saveNote", "Enregistrer la note")
    ∷ ("cases.detail.replyPlaceholder", "Écrire une réponse au demandeur…")
    ∷ ("cases.detail.notePlaceholder", "Ajouter une note interne…")
    ∷ ("cases.checklist.satisfied", "Reçu")
    ∷ ("cases.checklist.partial", "Problèmes")
    ∷ ("cases.checklist.missing", "Manquant")
    ∷ ("cases.checklist.required", "obligatoire")
    ∷ ("cases.checklist.optional", "facultatif")
    ∷ ("cases.timeline.inbound", "Entrant")
    ∷ ("cases.timeline.outbound", "Réponse envoyée")
    ∷ ("cases.timeline.note", "Note interne")
    ∷ ("cases.timeline.runCard", "Validation")
    ∷ ("cases.timeline.workflowRun", "Flux de travail")
    ∷ ("cases.timeline.openReport", "Ouvrir le rapport →")
    ∷ ("cases.noContact", "Aucun contact")
    ∷ ("cases.noTarget", "Aucune cible")
    ∷ ("cases.docCount", "{n} doc")
    ∷ ("cases.docsCount", "{n} docs")
    ∷ ("cases.quickStart", "Démarrage rapide")
    ∷ ("cases.newCaseModal.title", "Nouveau dossier")
    ∷ ("cases.newCaseModal.selectTarget", "Sélectionner une politique ou un flux")
    ∷ ("cases.newCaseModal.contactEmail", "Courriel du contact (facultatif)")
    ∷ ("cases.newCaseModal.contactName", "Nom du contact (facultatif)")
    ∷ ("cases.newCaseModal.externalRef", "Référence externe (facultatif)")
    ∷ ("cases.newCaseModal.dropFiles", "Déposer des documents ici, ou cliquer pour sélectionner")
    ∷ ("cases.newCaseModal.create", "Créer et lancer")
    ∷ ("cases.unread", "Non lu")
    ∷ []
