-- ===== src/I18n/Strings/Mail.antt =====
-- frontend/src/lib/i18n/strings/mail.ts
use clerq.Prelude.{String, List, [], ◌∷◌}

abbrev pub english : List (String × String)
english =
    ("mail.compose.title", "New message")
    ∷ ("mail.field.from", "From")
    ∷ ("mail.field.to", "To")
    ∷ ("mail.field.subject", "Subject")
    ∷ ("mail.field.subjectPlaceholder", "Optional subject")
    ∷ ("mail.field.bodyPlaceholder", "Message body (optional)")
    ∷ ("mail.to.empty", "No mailboxes enabled. Enable an inbox on a policy or workflow first.")
    ∷ ("mail.to.select", "Select a mailbox…")
    ∷ ("mail.attach", "Attach PDF or image")
    ∷ ("mail.send", "Send")
    ∷ ("mail.sending", "Sending…")
    ∷ ("mail.sent", "Sent!")
    ∷ ("mail.attachToSend", "Attach a file to send")
    ∷ ("mail.inbox.title", "Messages")
    ∷ ("mail.inbox.refresh", "Sent messages and replies · refreshes every 5s")
    ∷ ("mail.inbox.emptyTitle", "No messages yet")
    ∷ (
      "mail.inbox.emptyBody",
      "Sent messages and automatic replies both appear here. Replies arrive once the validation run finishes.",
    )
    ∷ ("mail.badge.reply", "Reply")
    ∷ ("mail.badge.sent", "Sent")
    ∷ ("mail.noBody", "(no body)")
    ∷ []

abbrev pub french : List (String × String)
french =
    ("mail.compose.title", "Nouveau message")
    ∷ ("mail.field.from", "De")
    ∷ ("mail.field.to", "À")
    ∷ ("mail.field.subject", "Objet")
    ∷ ("mail.field.subjectPlaceholder", "Objet (facultatif)")
    ∷ ("mail.field.bodyPlaceholder", "Corps du message (facultatif)")
    ∷ (
      "mail.to.empty",
      "Aucune boîte de réception activée. Activez d’abord une boîte sur une politique ou un flux de travail.",
    )
    ∷ ("mail.to.select", "Sélectionnez une boîte de réception…")
    ∷ ("mail.attach", "Joindre un PDF ou une image")
    ∷ ("mail.send", "Envoyer")
    ∷ ("mail.sending", "Envoi…")
    ∷ ("mail.sent", "Envoyé !")
    ∷ ("mail.attachToSend", "Joignez un fichier pour envoyer")
    ∷ ("mail.inbox.title", "Messages")
    ∷ ("mail.inbox.refresh", "Messages envoyés et réponses · actualisé toutes les 5 s")
    ∷ ("mail.inbox.emptyTitle", "Aucun message pour le moment")
    ∷ (
      "mail.inbox.emptyBody",
      "Les messages envoyés et les réponses automatiques apparaissent ici. Les réponses arrivent une fois la vérification terminée.",
    )
    ∷ ("mail.badge.reply", "Réponse")
    ∷ ("mail.badge.sent", "Envoyé")
    ∷ ("mail.noBody", "(aucun corps)")
    ∷ []
