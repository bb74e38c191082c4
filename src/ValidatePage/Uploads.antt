-- ===== src/ValidatePage/Uploads.antt =====
-- From the press of the button to the request for the run.
use clerq.Prelude.{
  ℕ, suc, ◌≡◌, refl, sym, ap, subst, ◌∙◌, Text, Bool, true, false, Option, none, some, List, [],
  ◌∷◌, ◌++◌, append_assoc, All, keep, map, length, Option-cases, inl, inr, arith,
}
use clerq.ValidatePage.{
  Job, Page, Request, upload, trigger, delete_policy, Event, type_search, select, delete, add_files,
  remove_file, press_run, close_run, open_listed, uploaded, created, failed, go_on, start_run,
  handle_run, on_uploaded, take_uploaded, handle, run,
}

-- what `handleRun` asks for
abbrev is_job : Request → Bool
is_job (upload f) = true
is_job (trigger id ids) = true
is_job (delete_policy id) = false

abbrev pub job_requests : List Request → List Request
job_requests = keep is_job

job_requests-append :
    (xs ys : List Request) → job_requests (xs ++ ys) ≡ job_requests xs ++ job_requests ys
job_requests-append [] ys = refl
job_requests-append (upload f ∷ xs) ys = ap (λ r. upload f ∷ r) (job_requests-append xs ys)
job_requests-append (trigger id ids ∷ xs) ys =
    ap (λ r. trigger id ids ∷ r) (job_requests-append xs ys)
job_requests-append (delete_policy id ∷ xs) ys = job_requests-append xs ys

-- Anything but a new press, an error, or the answer to the request for the run.
abbrev pub IsCalm : Event → Type 0
IsCalm press_run = ⊥
IsCalm (failed message) = ⊥
IsCalm (created id) = ⊥
IsCalm _ = Unit

-- the id that the server gives to a file
abbrev pub answer_id : Event → Option ℕ
answer_id (uploaded id) = some id
answer_id _ = none

abbrev with_id : Option ℕ → List ℕ → List ℕ
with_id none ids = ids
with_id (some id) ids = id ∷ ids

abbrev pub ids_of : List Event → List ℕ
ids_of [] = []
ids_of (e ∷ es) = with_id (answer_id e) (ids_of es)

-- What a step makes of a job that uploads: an answer takes it on, and all else leaves it.
abbrev IsJobStep : Job → Option ℕ → Page × List Request → Type 0
IsJobStep j none (p, out) = (p.job ≡ some j) × (job_requests out ≡ [])
IsJobStep j (some id) (p, out) =
    (p.job ≡ some (on_uploaded id j).0) × (job_requests out ≡ (on_uploaded id j).1)

job_requests-on_uploaded :
    (id : ℕ) (j : Job) → job_requests (on_uploaded id j).1 ≡ (on_uploaded id j).1
unfolding on_uploaded
job_requests-on_uploaded id j = go j.waiting
  where
    go :
        (fs : List Text)
        → job_requests (go_on fs (j.doc_ids ++ id ∷ []) j).1 ≡ (go_on fs (j.doc_ids ++ id ∷ []) j).1
    go [] = refl
    go (f ∷ fs) = refl

handle-IsJobStep :
    (e : Event) (p : Page) (j : Job)
    → IsCalm e
    → p.job ≡ some j
    → j.triggered ≡ false
    → IsJobStep j (answer_id e) (handle e p)
unfolding handle take_uploaded
handle-IsJobStep (type_search s) p j calm has busy = (has, refl)
handle-IsJobStep (select id) p j calm has busy = (has, refl)
handle-IsJobStep (delete id) p j calm has busy = (ground (arith, has), refl)
handle-IsJobStep (add_files fs) p j calm has busy = ground (arith, has)
handle-IsJobStep (remove_file i) p j calm has busy = ground (arith, has)
handle-IsJobStep press_run p j calm has busy = absurd calm
handle-IsJobStep close_run p j calm has busy = (has, refl)
handle-IsJobStep (open_listed id) p j calm has busy = (has, refl)
handle-IsJobStep (uploaded id) p j calm has busy =
    simp (has, busy) (refl, job_requests-on_uploaded id j)
handle-IsJobStep (created id) p j calm has busy = absurd calm
handle-IsJobStep (failed message) p j calm has busy = absurd calm

-- Once the run is asked for, the job only waits.
handle-IsStill :
    (e : Event) (p : Page) (j : Job)
    → IsCalm e
    → p.job ≡ some j
    → j.triggered ≡ true
    → (((handle e p).0).job ≡ some j) × (job_requests (handle e p).1 ≡ [])
unfolding handle take_uploaded
handle-IsStill (type_search s) p j calm has done = (has, refl)
handle-IsStill (select id) p j calm has done = (has, refl)
handle-IsStill (delete id) p j calm has done = (ground (arith, has), refl)
handle-IsStill (add_files fs) p j calm has done = ground (arith, has)
handle-IsStill (remove_file i) p j calm has done = ground (arith, has)
handle-IsStill press_run p j calm has done = absurd calm
handle-IsStill close_run p j calm has done = (has, refl)
handle-IsStill (open_listed id) p j calm has done = (has, refl)
handle-IsStill (uploaded id) p j calm has done = simp (has, done) (refl, refl)
handle-IsStill (created id) p j calm has done = absurd calm
handle-IsStill (failed message) p j calm has done = absurd calm

run-done :
    (es : List Event) (p : Page) (j : Job)
    → All IsCalm es
    → p.job ≡ some j
    → j.triggered ≡ true
    → job_requests (run es p).1 ≡ []
unfolding run
run-done [] p j calm has done = refl
run-done (e ∷ es) p j (now, calm) has done =
    let (has', quiet) = handle-IsStill e p j now has done in
    job_requests-append (handle e p).1 (run es (handle e p).0).1
    ∙ ap (λ r. r ++ job_requests (run es (handle e p).0).1) quiet
    ∙ run-done es (handle e p).0 j calm has' done

-- all that a job that uploads still asks for
abbrev asked : Job → List ℕ → List Request
asked j ids = map upload j.waiting ++ trigger j.policy_id (j.doc_ids ++ ids) ∷ []

abbrev IsAsked : List Event → Type 0
IsAsked es =
    (p : Page) (j : Job)
    → p.job ≡ some j
    → j.triggered ≡ false
    → length (ids_of es) ≡ suc (length j.waiting)
    → job_requests (run es p).1 ≡ asked j (ids_of es)

-- the job after an answer
after_answer :
    (es : List Event) (p : Page) (j : Job) (id : ℕ) (fs : List Text)
    → All IsCalm es
    → IsAsked es
    → p.job ≡ some (go_on fs (j.doc_ids ++ id ∷ []) j).0
    → j.triggered ≡ false
    → length (ids_of es) ≡ length fs
    → (go_on fs (j.doc_ids ++ id ∷ []) j).1 ++ job_requests (run es p).1
      ≡ map upload fs ++ trigger j.policy_id (j.doc_ids ++ id ∷ ids_of es) ∷ []
after_answer es p j id [] calm ih has busy n =
    let sent = j.doc_ids ++ id ∷ [] in
    ap (λ r. trigger j.policy_id sent ∷ r)
      (run-done es p (record j { doc_ids = sent; triggered = true }) calm has refl)
    ∙ ap (λ ids. trigger j.policy_id (j.doc_ids ++ id ∷ ids) ∷ []) (sym (empty (ids_of es) n))
  where
    empty : (xs : List ℕ) → length xs ≡ 0 → xs ≡ []
    empty [] e = refl
    empty (x ∷ xs) e = absurd (ground arith)
after_answer es p j id (f ∷ fs) calm ih has busy n =
    ap (λ r. upload f ∷ r)
      (ih p (record j { waiting = fs; doc_ids = j.doc_ids ++ id ∷ [] }) has busy n)
    ∙ ap (λ ids. upload f ∷ (map upload fs ++ trigger j.policy_id ids ∷ []))
        (append_assoc j.doc_ids (id ∷ []) (ids_of es))

run-IsAsked : (es : List Event) → All IsCalm es → IsAsked es
unfolding run on_uploaded
run-IsAsked [] calm p j has busy n = absurd (ground arith)
run-IsAsked (e ∷ es) (now, calm) p j has busy n =
    let p' = (handle e p).0 in
    let step = handle-IsJobStep e p j now has busy in
    let ih = run-IsAsked es calm in
    job_requests-append (handle e p).1 (run es p').1 ∙ elim (Option-cases (answer_id e)) [
      | inl other ↦
          let (has', quiet) = subst (λ o. IsJobStep j o (handle e p)) other step in
          ap (λ r. r ++ job_requests (run es p').1) quiet
          ∙ ih p' j has' busy (ground arith)
          ∙ ap (λ o. asked j (with_id o (ids_of es))) (sym other)
      | inr (id, answer) ↦
          let (has', out) = subst (λ o. IsJobStep j o (handle e p)) answer step in
          ap (λ r. r ++ job_requests (run es p').1) out
          ∙ after_answer es p' j id j.waiting calm ih has' busy (ground arith)
          ∙ ap (λ o. asked j (with_id o (ids_of es))) (sym answer)
    ]

-- Pressing the button with files chosen uploads each of them, one after the other in their order, and then asks
-- for one run, of the policy selected at the press and of the ids that the server gave, in the same order; where all
-- uploads are answered, and whatever is selected, added, removed or deleted meanwhile.
pub run-uploads :
    (es : List Event) (p : Page) (id : ℕ) (f : Text) (fs : List Text)
    → p.selected_policy_id ≡ some id
    → p.files ≡ f ∷ fs
    → p.job ≡ none
    → All IsCalm es
    → length (ids_of es) ≡ length (f ∷ fs)
    → job_requests (run (press_run ∷ es) p).1 ≡ map upload (f ∷ fs) ++ trigger id (ids_of es) ∷ []
unfolding run handle handle_run
run-uploads es p id f fs selected chosen idle calm n =
    let pressed : handle press_run p ≡ start_run (some id) (f ∷ fs) p =
      simp (idle, selected, chosen) in
    let p' = (start_run (some id) (f ∷ fs) p).0 in
    subst
      (λ (r : Page × List Request).
        job_requests (r.1 ++ (run es r.0).1) ≡ map upload (f ∷ fs) ++ trigger id (ids_of es) ∷ [])
      (sym pressed)
      (ap (λ r. upload f ∷ r)
        (run-IsAsked es calm p'
          (record { policy_id = id; waiting = fs; doc_ids = []; triggered = false }) refl refl n))
