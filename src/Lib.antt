-- ===== src/Lib.antt =====
-- Clerq: the web client's logic.
--
-- Clerq checks documents against policies. A policy is a list of rules; a run of a workflow, or of a
-- policy, has each rule judged on the documents, and its findings are reviewed by people, who may
-- override a verdict with a reason. The server (api/, in Python) judges and stores; the client
-- (frontend/, TypeScript and React) shows, edits, reviews and exports. This library models the
-- client's own logic: what it computes from the server's answers, the state that each page keeps
-- between events, and the requests that it sends.
--
--   Prelude        lists, options, text and stable sorting, shared by all
--   Types          frontend/src/types/workflow.ts, the answers of the server
--   Report         frontend/src/components/ReportView.tsx: `validation_output` is
--                  getValidationOutput, `effective_status` effectiveStatus, and `report_head` the
--                  body of ReportView above its markup
--   Review         frontend/src/pages/ReportPage.tsx, FindingControls, with AnnotateArgs of
--                  frontend/src/api/review.ts: `step` is one event, with the request that it sends
--   Drawer         frontend/src/components/CaseReviewDrawer.tsx; Drawer.Resolve is ResolveActions
--   Export         frontend/src/lib/reportExport.ts: `csv_escape`, `export_csv`, `escape_html`,
--                  `base_filename`. Export.Reader is a reader of CSV files after RFC 4180
--   Session        frontend/src/api/client.ts and the tokens of frontend/src/context/auth.tsx
--   Account        AuthProvider of frontend/src/context/auth.tsx
--   I18n           frontend/src/context/i18n.tsx; I18n.Strings has the tables of
--                  frontend/src/lib/i18n/strings and the dictionary made of them
--   NodeConfig     frontend/src/components/NodeConfigPanel.tsx: `upstream_groups` is
--                  getUpstreamVarGroups, NodeConfig.Prompt the PromptEditor, NodeConfig.Settings
--                  what the forms of e-mail fields, conditions and gates write
--   Providers      frontend/src/context/theme.tsx, run.tsx and the language of i18n.tsx
--   PolicyEditor   frontend/src/pages/PolicyEditor.tsx: the draft, saving, and moving of rules
--   WorkflowEditor frontend/src/pages/WorkflowEditor.tsx: the canvas and its saving
--   RunPanel       frontend/src/components/RunStatusPanel.tsx, with LogViewer.tsx in RunPanel.Log and
--                  the page turning of RunOutputViewer.tsx in RunPanel.Pages
--   CasePage       frontend/src/pages/CaseDetailPage.tsx: the last verdict, the next step, and
--                  InlineComposer in CasePage.Composer
--   ValidatePage   frontend/src/pages/Validate.tsx: `handle` has handleRun and the choice of a policy;
--                  ValidatePage.RunDetail is RunDetailModal
--   Dashboard      frontend/src/pages/Dashboard.tsx, WorkflowWidget
--   Ages           the relative times of five pages
--   Insights       frontend/src/pages/Insights.tsx: fmtDuration and exportCsv
--   SignIn         frontend/src/pages/LoginPage.tsx, and ResetPasswordPage.tsx in SignIn.Reset
--   Api            frontend/src/api: `use_x` is the hook useX. Api.Base has requests, cache keys and
--                  react-query's part as the record `QueryClient`; Api.Fresh what a write makes
--                  stale; Api.Queries all queries together
--
-- The parts meet in the types. The report and the drawer read a run's results and its review; the
-- export writes what the report shows; the controls of the report and of the drawer send the
-- requests of Review; the editors save through the hooks; all requests go through Session.
--
-- Stateful code is a record and a function from an event to the next record. An event is one turn
-- of the browser's loop: something the user does, an answer that arrives, a timer that ends. Any
-- sequence of events is allowed, so answers may come in any order and at any time. React runs an
-- effect after the change that it depends on, and the models take the two as one turn.
--
-- Bounds. Numbers are natural; none of the modelled code counts near 2 ^ 53. A confidence is a whole
-- number of ten-thousandths. Decimal digits are written with the number itself, plus one, as fuel,
-- and each digit divides by ten. The search of NodeConfig for upstream nodes has one round more than
-- there are edges, since each round takes one id from the queue, and only the source of an edge, and
-- only once, is put there. All other loops follow a list.
--
-- Text that the code walks is the list of its code points, where JavaScript has UTF-16 units: the
-- lengths differ for characters beyond the first plane. An object used as a map is an association
-- list, without the names that it inherits from Object.prototype. `toUpperCase`, `toLowerCase`, the
-- texts of numbers and dates, and the translation where a page is shown by itself are parameters;
-- what SignIn needs of `toUpperCase` is its record `IsUpper`.
--
-- Not modelled: the server; the markup and styles; the pages of lists, settings
-- and administration; request bodies, beside those of reviews and policies; the JSON and print
-- exports. React Flow's list functions are
-- parameters of WorkflowEditor. The provider's own refresh(), which no page calls, and errors
-- without a config are left out of Session.
pub mod Account
pub mod Ages
pub mod Api
pub mod CasePage
pub mod Dashboard
pub mod Drawer
pub mod Export
pub mod I18n
pub mod Insights
pub mod NodeConfig
pub mod PolicyEditor
pub mod Prelude
pub mod Providers
pub mod Report
pub mod Review
pub mod RunPanel
pub mod Session
pub mod SignIn
pub mod Types
pub mod ValidatePage
pub mod WorkflowEditor
