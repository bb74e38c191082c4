-- ===== src/I18n/Strings/Library.antt =====
-- frontend/src/lib/i18n/strings/library.ts
use clerq.Prelude.{String, List, [], ◌∷◌}

abbrev pub english : List (String × String)
english =
    ("library.title", "Library")
    ∷ ("library.tab.documents", "Document types")
    ∷ ("library.tab.references", "Reference lists")
    ∷ ("library.newDocumentType", "New document type")
    ∷ ("library.newReferenceList", "New reference list")
    ∷ ("library.documentTypeNamePlaceholder", "Document type name…")
    ∷ ("library.referenceListNamePlaceholder", "Reference list name…")
    ∷ ("library.col.name", "Name")
    ∷ ("library.col.description", "Description")
    ∷ ("library.col.samples", "Samples")
    ∷ ("library.col.items", "Items")
    ∷ ("library.col.updated", "Updated")
    ∷ ("library.noDocumentTypes", "No document types yet")
    ∷ ("library.noDocumentTypesHint", "Define document types to use in validation policies")
    ∷ ("library.deleteDocumentTypeConfirm", "Delete this document type?")
    ∷ ("library.noReferenceLists", "No reference lists yet")
    ∷ (
      "library.noReferenceListsHint",
      "Approved-value lists (eligible models, valid codes, accepted vendors) that a policy rule can check an extracted value against.",
    )
    ∷ ("library.deleteReferenceListConfirm", "Delete this reference list?")
    ∷ ("library.editReferenceList", "Edit reference list")
    ∷ ("library.values", "Values")
    ∷ ("library.nItems", "{count} items")
    ∷ ("library.oneItem", "1 item")
    ∷ ("library.valuesHint", "One value per line — paste a column straight from a spreadsheet.")
    ∷ ("library.descriptionOptional", "Optional")
    ∷ ("library.saved", "Saved")
    ∷ ("library.documentTypeNamePlaceholderEditor", "Document type name")
    ∷ ("library.descriptionPlaceholder", "What is this document? What purpose does it serve?")
    ∷ ("library.aiInstructions", "AI Instructions")
    ∷ (
      "library.aiInstructionsHint",
      "Tell the AI what to look for — required fields, layout, identifiers, expiry checks, name matching.",
    )
    ∷ (
      "library.aiInstructionsPlaceholder",
      "e.g. Must show full legal name, date of birth, expiry date, and a photograph. Document must not be expired. Name must not be obscured or cropped.",
    )
    ∷ ("library.sampleImages", "Sample Images")
    ∷ ("library.sampleImagesHint", "Help the AI recognize this document")
    ∷ ("library.dropImageHint", "Drop image or click to upload")
    ∷ ("library.fileTypesHint", "PNG, JPG up to 10MB")
    ∷ ("library.noSamples", "No samples yet")
    ∷ []

abbrev pub french : List (String × String)
french =
    ("library.title", "Bibliothèque")
    ∷ ("library.tab.documents", "Types de documents")
    ∷ ("library.tab.references", "Listes de référence")
    ∷ ("library.newDocumentType", "Nouveau type de document")
    ∷ ("library.newReferenceList", "Nouvelle liste de référence")
    ∷ ("library.documentTypeNamePlaceholder", "Nom du type de document…")
    ∷ ("library.referenceListNamePlaceholder", "Nom de la liste de référence…")
    ∷ ("library.col.name", "Nom")
    ∷ ("library.col.description", "Description")
    ∷ ("library.col.samples", "Échantillons")
    ∷ ("library.col.items", "Éléments")
    ∷ ("library.col.updated", "Mise à jour")
    ∷ ("library.noDocumentTypes", "Aucun type de document pour l’instant")
    ∷ (
      "library.noDocumentTypesHint",
      "Définissez des types de documents à utiliser dans les politiques de validation",
    )
    ∷ ("library.deleteDocumentTypeConfirm", "Supprimer ce type de document ?")
    ∷ ("library.noReferenceLists", "Aucune liste de référence pour l’instant")
    ∷ (
      "library.noReferenceListsHint",
      "Listes de valeurs approuvées (modèles admissibles, codes valides, fournisseurs acceptés) qu’une règle de politique peut comparer à une valeur extraite.",
    )
    ∷ ("library.deleteReferenceListConfirm", "Supprimer cette liste de référence ?")
    ∷ ("library.editReferenceList", "Modifier la liste de référence")
    ∷ ("library.values", "Valeurs")
    ∷ ("library.nItems", "{count} éléments")
    ∷ ("library.oneItem", "1 élément")
    ∷ (
      "library.valuesHint",
      "Une valeur par ligne — collez une colonne directement depuis un tableur.",
    )
    ∷ ("library.descriptionOptional", "Facultatif")
    ∷ ("library.saved", "Enregistré")
    ∷ ("library.documentTypeNamePlaceholderEditor", "Nom du type de document")
    ∷ ("library.descriptionPlaceholder", "Qu’est-ce que ce document ? À quoi sert-il ?")
    ∷ ("library.aiInstructions", "Directives pour l’IA")
    ∷ (
      "library.aiInstructionsHint",
      "Indiquez à l’IA ce qu’elle doit rechercher — champs obligatoires, mise en page, identifiants, vérifications d’expiration, correspondance des noms.",
    )
    ∷ (
      "library.aiInstructionsPlaceholder",
      "p. ex. Doit afficher le nom légal complet, la date de naissance, la date d’expiration et une photographie. Le document ne doit pas être expiré. Le nom ne doit pas être masqué ni rogné.",
    )
    ∷ ("library.sampleImages", "Images d’échantillon")
    ∷ ("library.sampleImagesHint", "Aidez l’IA à reconnaître ce document")
    ∷ ("library.dropImageHint", "Déposez une image ou cliquez pour téléverser")
    ∷ ("library.fileTypesHint", "PNG, JPG jusqu’à 10 Mo")
    ∷ ("library.noSamples", "Aucun échantillon pour l’instant")
    ∷ []
