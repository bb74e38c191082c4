-- ===== src/Drawer/Images.antt =====
-- The page images that the drawer gathers.
use clerq.Prelude.{
  has, IsDistinct, has-append, IsDistinct-append, ◌≡◌, String, str_eq, eq_iff, ◌||◌, List, [], ◌∷◌,
  ◌++◌, arith, Bool-cases, inl, inr, get_or, then_get,
}
use clerq.Types.{RunStep}
use clerq.Drawer.{push, push_all, push_documents, push_step, gather_from, gather_images}

-- all image paths of the steps, with repetitions
abbrev pub all_of : List (List String) → List String
all_of [] = []
all_of (d ∷ ds) = d ++ all_of ds

abbrev pub paths_of : RunStep → List String
paths_of s =
    get_or (then_get s.output_data (λ o. o.image_paths)) []
    ++ all_of (get_or (then_get s.output_data (λ o. o.documents)) [])

abbrev pub paths : List RunStep → List String
paths [] = []
paths (s ∷ ss) = paths_of s ++ paths ss

push-IsDistinct : (out : List String) (p : String) → IsDistinct out → IsDistinct (push out p)
unfolding push
push-IsDistinct out p h = elim (Bool-cases (has p out)) [
  | inl e ↦ rw e h
  | inr e ↦ rw e (IsDistinct-append out p h e)
]

has-push :
    (q : String) (out : List String) (p : String) → has q (push out p) ≡ (has q out || str_eq p q)
unfolding push
has-push q out p = elim (Bool-cases (has p out)) [
  | inl e ↦ rw e (ground (arith, eq_iff p q))
  | inr e ↦ rw e (ground (arith, has-append q out (p ∷ [])))
]

push_all-IsDistinct : (ps out : List String) → IsDistinct out → IsDistinct (push_all out ps)
unfolding push_all
push_all-IsDistinct [] out h = h
push_all-IsDistinct (p ∷ ps) out h = push_all-IsDistinct ps (push out p) (push-IsDistinct out p h)

has-push_all :
    (q : String) (ps out : List String) → has q (push_all out ps) ≡ (has q out || has q ps)
unfolding push_all
has-push_all q [] out = ground arith
has-push_all q (p ∷ ps) out = ground (arith, has-push_all q ps (push out p), has-push q out p)

push_documents-IsDistinct :
    (ds : List (List String)) (out : List String)
    → IsDistinct out
    → IsDistinct (push_documents out ds)
push_documents-IsDistinct [] out h = h
push_documents-IsDistinct (d ∷ ds) out h =
    push_documents-IsDistinct ds (push_all out d) (push_all-IsDistinct d out h)

has-push_documents :
    (q : String) (ds : List (List String)) (out : List String)
    → has q (push_documents out ds) ≡ (has q out || has q (all_of ds))
has-push_documents q [] out = ground arith
has-push_documents q (d ∷ ds) out = ground (
  arith,
  has-push_documents q ds (push_all out d),
  has-push_all q d out,
  has-append q d (all_of ds),
)

push_step-IsDistinct :
    (out : List String) (s : RunStep) → IsDistinct out → IsDistinct (push_step out s)
push_step-IsDistinct out s h =
    let single = get_or (then_get s.output_data (λ o. o.image_paths)) [] in
    let documents = get_or (then_get s.output_data (λ o. o.documents)) [] in
    push_documents-IsDistinct documents (push_all out single) (push_all-IsDistinct single out h)

has-push_step :
    (q : String) (out : List String) (s : RunStep)
    → has q (push_step out s) ≡ (has q out || has q (paths_of s))
has-push_step q out s =
    let single = get_or (then_get s.output_data (λ o. o.image_paths)) [] in
    let documents = get_or (then_get s.output_data (λ o. o.documents)) [] in
    ground (
      arith,
      has-push_documents q documents (push_all out single),
      has-push_all q single out,
      has-append q single (all_of documents),
    )

gather_from-IsDistinct :
    (ss : List RunStep) (out : List String) → IsDistinct out → IsDistinct (gather_from out ss)
unfolding gather_from
gather_from-IsDistinct [] out h = h
gather_from-IsDistinct (s ∷ ss) out h =
    gather_from-IsDistinct ss (push_step out s) (push_step-IsDistinct out s h)

has-gather_from :
    (q : String) (ss : List RunStep) (out : List String)
    → has q (gather_from out ss) ≡ (has q out || has q (paths ss))
unfolding gather_from
has-gather_from q [] out = ground arith
has-gather_from q (s ∷ ss) out = ground (
  arith,
  has-gather_from q ss (push_step out s),
  has-push_step q out s,
  has-append q (paths_of s) (paths ss),
)

-- The drawer shows each page image of the run's steps, those of a step's documents included, and
-- each only once.
pub gather_images-IsDistinct :
    (steps : List RunStep)
    → IsDistinct (gather_images steps)
      × ((p : String) → has p (gather_images steps) ≡ has p (paths steps))
unfolding gather_images
gather_images-IsDistinct steps =
    (gather_from-IsDistinct steps [] tt, λ p. has-gather_from p steps [])
