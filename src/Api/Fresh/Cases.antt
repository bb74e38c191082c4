-- ===== src/Api/Fresh/Cases.antt =====
-- The writes of api/cases.ts to one case.
use clerq.Prelude.{ℕ, ◌≡◌, refl, Bool, true, false, Option, some, [], ◌∷◌, take, arith}
use clerq.Api.Base.{Key, Params, Mutation, QueryClient, refreshes, str, num, scalar, word}
use clerq.Api.Cases
use clerq.Api.Cases.{params_part}

-- The second number is the id of the case that the server answers with, where the code reads it.
pub data CaseWrite : Type 0 where
  update attach : ℕ → ℕ → CaseWrite
  run reply note : ℕ → CaseWrite

unfoldable pub case_write : CaseWrite → Mutation
unfolding Cases.use_cases Cases.use_case Cases.use_update_case Cases.use_attach_documents
    Cases.use_run_case Cases.use_reply_case Cases.use_add_note
case_write (update id answer) = Cases.use_update_case id answer
case_write (attach id answer) = Cases.use_attach_documents id answer
case_write (run id) = Cases.use_run_case id
case_write (reply id) = Cases.use_reply_case id
case_write (note id) = Cases.use_add_note id

-- the case written to
abbrev pub case_of : CaseWrite → ℕ
case_of (update id answer) = id
case_of (attach id answer) = id
case_of (run id) = id
case_of (reply id) = id
case_of (note id) = id

-- the case answered with
abbrev pub answer_of : CaseWrite → ℕ
answer_of (update id answer) = answer
answer_of (attach id answer) = answer
answer_of (run id) = id
answer_of (reply id) = id
answer_of (note id) = id

-- the writes after which the list of cases is fetched anew too
abbrev pub is_listed : CaseWrite → Bool
is_listed (update id answer) = true
is_listed (attach id answer) = false
is_listed (run id) = true
is_listed (reply id) = false
is_listed (note id) = false

module _ (client : QueryClient) where
  matching_case :
      (id : ℕ)
      → client.matches (word "cases" ∷ scalar (num id) ∷ []) (word "cases" ∷ scalar (num id) ∷ [])
        ≡ true
  matching_case id = client.matches_prefix (word "cases" ∷ scalar (num id) ∷ []) []

  matching_all : (more : Key) → client.matches (word "cases" ∷ []) (word "cases" ∷ more) ≡ true
  matching_all more = client.matches_prefix (word "cases" ∷ []) more

  -- Every write to a case goes to that case's URL. Where the server answers with the same case, its
  -- success makes the page of the case be fetched anew.
  pub case_write-refreshes :
      (w : CaseWrite)
      → answer_of w ≡ case_of w
      → (take 2 (case_write w).path ≡ str "/cases/" ∷ num (case_of w) ∷ [])
        × (refreshes client (case_write w) (Cases.use_case (some (case_of w))) ≡ true)
  unfolding case_write
  case_write-refreshes (update id answer) h = (refl, rw h (ground (arith, matching_case id)))
  case_write-refreshes (attach id answer) h = (refl, rw h (ground (arith, matching_case id)))
  case_write-refreshes (run id) h = (refl, ground (arith, matching_case id))
  case_write-refreshes (reply id) h = (refl, ground (arith, matching_case id))
  case_write-refreshes (note id) h = (refl, ground (arith, matching_case id))

  -- An update and a new run also make every list of cases be fetched anew, whatever its filters.
  case_list-refreshes :
      (w : CaseWrite) (params : Option Params)
      → is_listed w ≡ true
      → refreshes client (case_write w) (Cases.use_cases params) ≡ true
  unfolding case_write
  case_list-refreshes (update id answer) params h =
      ground (arith, matching_all (params_part params ∷ []))
  case_list-refreshes (run id) params h = ground (arith, matching_all (params_part params ∷ []))
  case_list-refreshes _ params h = cc
