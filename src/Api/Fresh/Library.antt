-- ===== src/Api/Fresh/Library.antt =====
-- The writes of api/library.ts to one document type.
use clerq.Prelude.{ℕ, ◌≡◌, true, some, [], ◌∷◌, take, arith}
use clerq.Api.Base.{Key, Mutation, QueryClient, refreshes, str, num, scalar, word}
use clerq.Api.Library

pub data TypeWrite : Type 0 where
  update remove upload_sample : ℕ → TypeWrite
  delete_sample : ℕ → ℕ → TypeWrite

unfoldable pub type_write : TypeWrite → Mutation
unfolding Library.use_document_types Library.use_document_type Library.use_update_document_type
    Library.use_delete_document_type Library.use_upload_sample Library.use_delete_sample
type_write (update id) = Library.use_update_document_type id
type_write (remove id) = Library.use_delete_document_type id
type_write (upload_sample id) = Library.use_upload_sample id
type_write (delete_sample id sample) = Library.use_delete_sample id sample

abbrev pub type_of : TypeWrite → ℕ
type_of (update id) = id
type_of (remove id) = id
type_of (upload_sample id) = id
type_of (delete_sample id sample) = id

module _ (client : QueryClient) where
  matching :
      (more : Key) → client.matches (word "documentTypes" ∷ []) (word "documentTypes" ∷ more) ≡ true
  matching more = client.matches_prefix (word "documentTypes" ∷ []) more

  -- Every write to a document type or to its samples goes to that type's URL, and its success makes
  -- the type and the list of types be fetched anew.
  pub type_write-refreshes :
      (w : TypeWrite)
      → (take 2 (type_write w).path ≡ str "/library/" ∷ num (type_of w) ∷ [])
        × (refreshes client (type_write w) (Library.use_document_type (some (type_of w))) ≡ true)
        × (refreshes client (type_write w) Library.use_document_types ≡ true)
  unfolding type_write
  type_write-refreshes (update id) = ground (arith, matching [], matching (scalar (num id) ∷ []))
  type_write-refreshes (remove id) = ground (arith, matching [], matching (scalar (num id) ∷ []))
  type_write-refreshes (upload_sample id) =
      ground (arith, matching [], matching (scalar (num id) ∷ []))
  type_write-refreshes (delete_sample id sample) =
      ground (arith, matching [], matching (scalar (num id) ∷ []))
