-- ===== src/I18n/Strings.antt =====
-- frontend/src/lib/i18n/dictionary.ts: the dictionary of the string tables, in the order of their
-- files. A key that a table lacks is not among its pairs.
pub mod Admin
pub mod Auth
pub mod Cases
pub mod Common
pub mod Dashboard
pub mod Editor
pub mod Insights
pub mod Integrations
pub mod Invite
pub mod Library
pub mod Mail
pub mod NodeConfig
pub mod Policy
pub mod Report
pub mod RunStatus
pub mod Settings
pub mod Validate
pub mod Workflows
pub mod Complete
mod Examples
use clerq.Prelude.{String, List, [], ◌∷◌}
use clerq.I18n.{Dictionary}
use clerq.I18n.Parity.{StringsModule, merge}

abbrev strings : List (String × String) → List (String × String) → StringsModule
strings en fr = record { en_strings = en; fr_strings = fr }

-- `modules`
unfoldable pub modules : List StringsModule
modules =
    strings Admin.english Admin.french
    ∷ strings Auth.english Auth.french
    ∷ strings Cases.english Cases.french
    ∷ strings Common.english Common.french
    ∷ strings Dashboard.english Dashboard.french
    ∷ strings Editor.english Editor.french
    ∷ strings Insights.english Insights.french
    ∷ strings Integrations.english Integrations.french
    ∷ strings Invite.english Invite.french
    ∷ strings Library.english Library.french
    ∷ strings Mail.english Mail.french
    ∷ strings NodeConfig.english NodeConfig.french
    ∷ strings Policy.english Policy.french
    ∷ strings Report.english Report.french
    ∷ strings RunStatus.english RunStatus.french
    ∷ strings Settings.english Settings.french
    ∷ strings Validate.english Validate.french
    ∷ strings Workflows.english Workflows.french
    ∷ []

-- `dictionary`
abbrev pub dictionary : Dictionary
dictionary = merge modules (record { english = []; french = [] })
