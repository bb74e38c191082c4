-- ===== src/Drawer.antt =====
-- frontend/src/components/CaseReviewDrawer.tsx: the drawer in which the findings of a case's run are
-- resolved: their order, the page images, the first selection, and the image viewer.
pub mod Findings
pub mod Images
pub mod Viewer
pub mod Resolve
mod Examples
use clerq.Prelude.{
  ℕ, zero, suc, ◌+◌, ◌-◌, min, max, ltb, leb, ◌==◌, String, str_eq, Bool, true, false, not, ◌&&◌,
  ◌||◌, Option, none, some, List, [], ◌∷◌, ◌++◌, map, keep, length, find, some_of, lookup, truthy,
  get_or, or_else, then_get, map_get, if◌then◌else◌,
}
use clerq.Types
use clerq.Types.{Verdict, ValidationRuleResult, RunStep, PolicyRule}
use clerq.Report.{Annotations}

-- `Status`, the statuses that `RANK` lists
pub data Status : Type 0 where
  pass fail uncertain not_applicable : Status

-- `as Status`: none where the cast is wrong
abbrev pub status_of : Verdict → Option Status
status_of Verdict.pass = some Status.pass
status_of Verdict.fail = some Status.fail
status_of Verdict.uncertain = some Status.uncertain
status_of Verdict.not_applicable = some Status.not_applicable
status_of (Verdict.other s) = none

-- `RANK`
unfoldable pub rank : Status → ℕ
rank Status.fail = 0
rank Status.uncertain = 1
rank Status.pass = 2
rank Status.not_applicable = 3

pub record Finding : Type 0 where
  pub result : ValidationRuleResult
  pub idx : ℕ
  pub eff : Status

-- `annotations[r.rule_name]?.override?.status ?? r.status`
abbrev pub effective : Annotations → ValidationRuleResult → Verdict
effective anns r =
    get_or (map_get (then_get (lookup r.rule_name anns) (λ a. a.override)) (λ o. o.status)) r.status

-- The results with their places and effective statuses, from the place given. Where a status is
-- none of the listed ones, the comparison below is not a number and the order is the engine's.
unfoldable pub with_eff : Annotations → ℕ → List ValidationRuleResult → Option (List Finding)
with_eff anns idx [] = some []
with_eff anns idx (r ∷ rs) = then_get (status_of (effective anns r)) (λ eff.
    map_get (with_eff anns (suc idx) rs)
      (λ rest. record { result = r; idx = idx; eff = eff } ∷ rest))

-- `(RANK[a.eff] - RANK[b.eff]) || (a.idx - b.idx)` is not positive
abbrev pub not_after : Finding → Finding → Bool
not_after a b = if rank a.eff == rank b.eff then leb a.idx b.idx else ltb (rank a.eff) (rank b.eff)

pub insert_finding : Finding → List Finding → List Finding
insert_finding x [] = x ∷ []
insert_finding x (y ∷ ys) =
    let later = y ∷ insert_finding x ys in if not_after x y then x ∷ y ∷ ys else later

unfoldable pub sort_findings : List Finding → List Finding
unfolding insert_finding
sort_findings [] = []
sort_findings (x ∷ xs) = insert_finding x (sort_findings xs)

-- `findings`
unfoldable pub findings_of : Annotations → List ValidationRuleResult → Option (List Finding)
findings_of anns results = map_get (with_eff anns 0 results) sort_findings

-- `f.eff === 'fail' || f.eff === 'uncertain'`
abbrev pub is_problem : Finding → Bool
is_problem f = elim f.eff [ Status.fail ↦ true | Status.uncertain ↦ true | _ ↦ false ]

-- `unresolved`
unfoldable pub unresolved : List Finding → ℕ
unresolved fs = length (keep is_problem fs)

-- `push`: `seen` holds what `out` holds
unfoldable pub push : List String → String → List String
push out p = if some_of (λ q. str_eq q p) out then out else out ++ p ∷ []

unfoldable pub push_all : List String → List String → List String
unfolding push
push_all out [] = out
push_all out (p ∷ ps) = push_all (push out p) ps

-- the image paths of several documents
abbrev pub push_documents : List String → List (List String) → List String
push_documents out [] = out
push_documents out (d ∷ ds) = push_documents (push_all out d) ds

abbrev pub push_step : List String → RunStep → List String
push_step out s =
    let paths = get_or (then_get s.output_data (λ o. o.image_paths)) [] in
    let documents = get_or (then_get s.output_data (λ o. o.documents)) [] in
    push_documents (push_all out paths) documents

-- the loop of `gatherImages`, from what is gathered so far
unfoldable pub gather_from : List String → List RunStep → List String
unfolding push_all
gather_from out [] = out
gather_from out (s ∷ ss) = gather_from (push_step out s) ss

-- `gatherImages`
unfoldable pub gather_images : List RunStep → List String
unfolding gather_from
gather_images steps = gather_from [] steps

-- the rule of the requested document type
abbrev pub rule_for : Option ℕ → Option (List PolicyRule) → Option PolicyRule
rule_for doc_type rules = then_get doc_type (λ d.
    then_get rules
      (find (λ (r : PolicyRule). get_or (map_get r.document_type_id (λ t. t == d)) false)))

-- the requested rule's name, if it has a finding
abbrev pub wanted : Option ℕ → Option (List PolicyRule) → List Finding → Option String
wanted doc_type rules fs = then_get (rule_for doc_type rules) (λ r.
    if some_of (λ (f : Finding). str_eq f.result.rule_name r.name) fs then some r.name else none)

abbrev pub head_name : List Finding → Option String
head_name [] = none
head_name (f ∷ fs) = some f.result.rule_name

-- The effect that selects: what is selected stays; else the rule of the requested document type, if
-- it has a finding; else the first finding.
unfoldable pub select_first :
    Option ℕ → Option (List PolicyRule) → List Finding → Option String → Option String
select_first doc_type rules fs selected = elim (truthy selected) [
  | some s ↦ selected
  | none ↦ or_else (map_get (head_name fs) (get_or (truthy (wanted doc_type rules fs)))) selected
]

-- `Lightbox`, and `ImageLightbox` of frontend/src/pages/Validate.tsx: the key handlers and buttons
-- of the image viewer, on the number of images and the index shown.
pub data Move : Type 0 where
  right left : Move

unfoldable pub turn : ℕ → Move → ℕ → ℕ
turn count right i = min (i + 1) (count - 1)
turn count left i = max (i - 1) 0

unfoldable pub turns : ℕ → List Move → ℕ → ℕ
unfolding turn
turns count [] i = i
turns count (m ∷ ms) i = turns count ms (turn count m i)
