-- ===== src/Api/Library.antt =====
-- frontend/src/api/library.ts and referenceLists.ts
use clerq.Prelude.{ℕ, true, Option, [], ◌∷◌, is_some}
use clerq.Api.Base.{str, num, opt_num, scalar, word, Query, Mutation, post, put, delete}

-- `useDocumentTypes`
unfoldable pub use_document_types : Query
use_document_types = record {
  key = word "documentTypes" ∷ [];
  path = str "/library/" ∷ [];
  params = [];
  is_enabled = true;
}

-- `useDocumentType`
unfoldable pub use_document_type : Option ℕ → Query
use_document_type id = record {
  key = word "documentTypes" ∷ scalar (opt_num id) ∷ [];
  path = str "/library/" ∷ opt_num id ∷ [];
  params = [];
  is_enabled = is_some id;
}

-- `useCreateDocumentType`
unfoldable pub use_create_document_type : Mutation
use_create_document_type = record {
  method = post;
  path = str "/library/" ∷ [];
  invalidates = (word "documentTypes" ∷ []) ∷ [];
  sets = [];
}

-- `useUpdateDocumentType`
unfoldable pub use_update_document_type : ℕ → Mutation
use_update_document_type id = record {
  method = put;
  path = str "/library/" ∷ num id ∷ [];
  invalidates = (word "documentTypes" ∷ []) ∷ (word "documentTypes" ∷ scalar (num id) ∷ []) ∷ [];
  sets = [];
}

-- `useDeleteDocumentType`
unfoldable pub use_delete_document_type : ℕ → Mutation
use_delete_document_type id = record {
  method = delete;
  path = str "/library/" ∷ num id ∷ [];
  invalidates = (word "documentTypes" ∷ []) ∷ [];
  sets = [];
}

-- `useUploadSample`
unfoldable pub use_upload_sample : ℕ → Mutation
use_upload_sample doc_type_id = record {
  method = post;
  path = str "/library/" ∷ num doc_type_id ∷ str "/samples" ∷ [];
  invalidates =
      (word "documentTypes" ∷ scalar (num doc_type_id) ∷ []) ∷ (word "documentTypes" ∷ []) ∷ [];
  sets = [];
}

-- `useDeleteSample`
unfoldable pub use_delete_sample : ℕ → ℕ → Mutation
use_delete_sample doc_type_id sample_id = record {
  method = delete;
  path = str "/library/" ∷ num doc_type_id ∷ str "/samples/" ∷ num sample_id ∷ [];
  invalidates =
      (word "documentTypes" ∷ scalar (num doc_type_id) ∷ []) ∷ (word "documentTypes" ∷ []) ∷ [];
  sets = [];
}

-- `useReferenceLists`
unfoldable pub use_reference_lists : Query
use_reference_lists = record {
  key = word "reference-lists" ∷ [];
  path = str "/reference-lists/" ∷ [];
  params = [];
  is_enabled = true;
}

-- `useCreateReferenceList`
unfoldable pub use_create_reference_list : Mutation
use_create_reference_list = record {
  method = post;
  path = str "/reference-lists/" ∷ [];
  invalidates = (word "reference-lists" ∷ []) ∷ [];
  sets = [];
}

-- `useUpdateReferenceList`
unfoldable pub use_update_reference_list : ℕ → Mutation
use_update_reference_list id = record {
  method = put;
  path = str "/reference-lists/" ∷ num id ∷ [];
  invalidates = (word "reference-lists" ∷ []) ∷ [];
  sets = [];
}

-- `useDeleteReferenceList`
unfoldable pub use_delete_reference_list : ℕ → Mutation
use_delete_reference_list id = record {
  method = delete;
  path = str "/reference-lists/" ∷ num id ∷ [];
  invalidates = (word "reference-lists" ∷ []) ∷ [];
  sets = [];
}
