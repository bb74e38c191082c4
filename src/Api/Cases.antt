-- ===== src/Api/Cases.antt =====
-- frontend/src/api/cases.ts. `answer_id` is the id of the case that the server answers with.
use clerq.Prelude.{
  str_eq, ℕ, String, Bool, true, Option, none, some, List, [], ◌∷◌, get_or, is_some, if◌then◌else◌,
  some_of, ◌||◌, ◌&&◌,
}
use clerq.Api.Base.{
  Part, nullish, str, num, opt_num, object, scalar, word, Params, Query, Mutation, post, patch,
}

abbrev pub params_part : Option Params → Part
params_part none = scalar nullish
params_part (some params) = object params

-- `useCases`
unfoldable pub use_cases : Option Params → Query
use_cases params = record {
  key = word "cases" ∷ params_part params ∷ [];
  path = str "/cases/" ∷ [];
  params = get_or params [];
  is_enabled = true;
}

-- `useCase`
unfoldable pub use_case : Option ℕ → Query
use_case id = record {
  key = word "cases" ∷ scalar (opt_num id) ∷ [];
  path = str "/cases/" ∷ opt_num id ∷ [];
  params = [];
  is_enabled = is_some id;
}

-- `useCreateCase`
unfoldable pub use_create_case : Mutation
use_create_case = record {
  method = post;
  path = str "/cases/" ∷ [];
  invalidates = (word "cases" ∷ []) ∷ [];
  sets = [];
}

-- `useUpdateCase`
unfoldable pub use_update_case : ℕ → ℕ → Mutation
use_update_case id answer_id = record {
  method = patch;
  path = str "/cases/" ∷ num id ∷ [];
  invalidates = (word "cases" ∷ scalar (num answer_id) ∷ []) ∷ (word "cases" ∷ []) ∷ [];
  sets = [];
}

-- `useAttachDocuments`
unfoldable pub use_attach_documents : ℕ → ℕ → Mutation
use_attach_documents case_id answer_id = record {
  method = post;
  path = str "/cases/" ∷ num case_id ∷ str "/documents" ∷ [];
  invalidates = (word "cases" ∷ scalar (num answer_id) ∷ []) ∷ [];
  sets = [];
}

-- `useRunCase`
unfoldable pub use_run_case : ℕ → Mutation
use_run_case case_id = record {
  method = post;
  path = str "/cases/" ∷ num case_id ∷ str "/run" ∷ [];
  invalidates = (word "cases" ∷ scalar (num case_id) ∷ []) ∷ (word "cases" ∷ []) ∷ [];
  sets = [];
}

-- `useReplyCase`
unfoldable pub use_reply_case : ℕ → Mutation
use_reply_case case_id = record {
  method = post;
  path = str "/cases/" ∷ num case_id ∷ str "/reply" ∷ [];
  invalidates = (word "cases" ∷ scalar (num case_id) ∷ []) ∷ [];
  sets = [];
}

-- `useAddNote`
unfoldable pub use_add_note : ℕ → Mutation
use_add_note case_id = record {
  method = post;
  path = str "/cases/" ∷ num case_id ∷ str "/notes" ∷ [];
  invalidates = (word "cases" ∷ scalar (num case_id) ∷ []) ∷ [];
  sets = [];
}

-- the kind and status of an event of a case's timeline, as far as polling reads them
pub record TimelineEvent : Type 0 where
  pub kind : String
  pub status : Option String

-- the `refetchInterval` of `useCase`: faster while a run of the timeline is in progress
abbrev is_run_active : TimelineEvent → Bool
is_run_active e =
    str_eq e.kind "run"
    && (str_eq (get_or e.status "") "pending" || str_eq (get_or e.status "") "running")

unfoldable pub case_poll : Option (List TimelineEvent) → ℕ
case_poll timeline = if some_of is_run_active (get_or timeline []) then 2000 else 10000
