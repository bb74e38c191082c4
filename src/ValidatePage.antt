-- ===== src/ValidatePage.antt =====
-- frontend/src/pages/Validate.tsx: the choice of a policy, its files, and the start of a run. A file
-- is its name. `handleRun` uploads the files it was called with, one after the other; the answer to
-- the request that it waits for is an event.
pub mod Uploads
pub mod RunDetail
mod Examples
use clerq.Prelude.{
  ℕ, zero, suc, ◌==◌, String, Text, codes, includes, trim, is_empty, Bool, true, false, not, ◌&&◌,
  ◌||◌, Option, none, some, is_some, List, [], ◌∷◌, ◌++◌, keep, map, get_or, length, if◌then◌else◌,
}
use clerq.Types.{Policy}

-- what a call of `handleRun` still holds: its policy, the files that wait behind the one being
-- uploaded, and the ids it has
pub record Job : Type 0 where
  pub policy_id : ℕ
  pub waiting : List Text
  pub doc_ids : List ℕ
  -- the request for the run has been sent
  pub triggered : Bool

pub record Page : Type 0 where
  pub selected_policy_id : Option ℕ
  pub search : Text
  pub files : List Text
  pub run_error : Option Text
  pub open_run : Option ℕ
  -- `uploading` is that there is a job
  pub job : Option Job

pub data Request : Type 0 where
  upload : Text → Request
  trigger : ℕ → List ℕ → Request
  delete_policy : ℕ → Request

pub data Event : Type 0 where
  type_search : Text → Event
  select delete : ℕ → Event
  add_files : List Text → Event
  remove_file : ℕ → Event
  press_run close_run : Event
  open_listed : ℕ → Event
  -- the answers to the job's requests; an error has its message
  uploaded created : ℕ → Event
  failed : Text → Event

abbrev pub open_page : Page
open_page = record {
  selected_policy_id = none;
  search = [];
  files = [];
  run_error = none;
  open_run = none;
  job = none;
}

-- `filteredPolicies`
unfoldable pub filtered_policies : (Text → Text) → List Policy → Page → List Policy
filtered_policies lower policies p =
    keep (λ (x : Policy). includes (lower p.search) (lower x.name)) policies

-- `prev.filter((_, idx) => idx !== i)`
abbrev pub remove_at {ℓ} : {A : Type ℓ} → List A → ℕ → List A
remove_at [] i = []
remove_at (x ∷ xs) zero = xs
remove_at (x ∷ xs) (suc i) = x ∷ remove_at xs i

abbrev is_selected : ℕ → Option ℕ → Bool
is_selected id none = false
is_selected id (some s) = s == id

-- `onSelect`
abbrev select_policy : ℕ → Page → Page
select_policy id p = record p {
  selected_policy_id = if is_selected id p.selected_policy_id then none else some id;
  files = [];
  run_error = none;
}

-- `handleRun`, up to its first request; the button is disabled while there is a job
abbrev pub start_run : Option ℕ → List Text → Page → Page × List Request
start_run none files p = (p, [])
start_run (some id) [] p = (p, [])
start_run (some id) (f ∷ fs) p = (
  record p {
    run_error = none;
    job = some (record { policy_id = id; waiting = fs; doc_ids = []; triggered = false });
  },
  upload f ∷ [],
)

unfoldable pub handle_run : Page → Page × List Request
handle_run p = start_run p.selected_policy_id p.files p

-- the loop goes on with the next file, or the run is asked for
abbrev pub go_on : List Text → List ℕ → Job → Job × List Request
go_on [] ids j = (record j { doc_ids = ids; triggered = true }, trigger j.policy_id ids ∷ [])
go_on (f ∷ fs) ids j = (record j { waiting = fs; doc_ids = ids }, upload f ∷ [])

unfoldable pub on_uploaded : ℕ → Job → Job × List Request
on_uploaded id j = go_on j.waiting (j.doc_ids ++ id ∷ []) j

-- the answers, where a job waits for them
unfoldable pub take_uploaded : ℕ → Option Job → Page → Page × List Request
unfolding on_uploaded
take_uploaded id none p = (p, [])
take_uploaded id (some j) p =
    let (j', out) = on_uploaded id j in
    if j.triggered then (p, []) else (record p { job = some j' }, out)

abbrev take_created : ℕ → Option Job → Page → Page
take_created id none p = p
take_created id (some j) p =
    if j.triggered then record p { files = []; open_run = some id; job = none } else p

unfoldable pub handle : Event → Page → Page × List Request
unfolding handle_run take_uploaded
handle (type_search s) p = (record p { search = s }, [])
handle (select id) p = (select_policy id p, [])
handle (delete id) p = (
  if is_selected id p.selected_policy_id then record p { selected_policy_id = none } else p,
  delete_policy id ∷ [],
)
handle (add_files added) p =
    if is_some p.selected_policy_id then (record p { files = p.files ++ added }, []) else (p, [])
handle (remove_file i) p =
    if is_some p.selected_policy_id then (record p { files = remove_at p.files i }, []) else (p, [])
handle press_run p = if is_some p.job then (p, []) else handle_run p
handle (open_listed id) p = (record p { open_run = some id }, [])
handle close_run p = (record p { open_run = none }, [])
handle (uploaded id) p = take_uploaded id p.job p
handle (created id) p = (take_created id p.job p, [])
handle (failed message) p =
    if is_some p.job then (record p { run_error = some message; job = none }, []) else (p, [])

unfoldable pub run : List Event → Page → Page × List Request
unfolding handle
run [] p = (p, [])
run (e ∷ es) p = let (p', out) = handle e p in let (end, more) = run es p' in (end, out ++ more)
