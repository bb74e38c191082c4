-- ===== src/NodeConfig/Reached.antt =====
-- The search visits just the nodes before the target, and its fuel is enough.
use clerq.Prelude.{
  ℕ, zero, suc, ◌≤◌, ◌≡◌, refl, sym, subst, String, str_eq, eq_iff, Bool, true, not, ◌&&◌, ◌||◌,
  has, ◌⊎◌, inl, inr, List, [], ◌∷◌, length, arith, Bool-cases,
}
use clerq.WorkflowEditor.{Node, Edge}
use clerq.NodeConfig.{Search, visit, incoming, search, begin}
use clerq.NodeConfig.Upstream.{
  has_edge, is_node, IsBefore, next, further, has-incoming, has-visited, has-queue, unseen-le, work,
  visit-incoming-work,
}

pub search-empty :
    (nodes : List Node) (edges : List Edge) (fuel : ℕ) (s : Search)
    → s.queue ≡ []
    → search nodes edges fuel s ≡ s
unfolding search
search-empty nodes edges zero s e = refl
search-empty nodes edges (suc k) s e = ground arith

module _ (nodes : List Node) (edges : List Edge) (target : String) where
  -- an id whose incoming edges the search follows
  abbrev is_followed : String → Search → Bool
  is_followed b s = str_eq b target || (has b s.visited && is_node nodes b)

  -- Each source of an edge into a followed id has been visited, or that id waits in the queue; and
  -- all that is visited or waits lies before the target.
  pub record IsSearch (s : Search) : Type 0 where
    pub pending :
        (a b : String)
        → has_edge edges a b ≡ true
        → is_followed b s ≡ true
        → (has a s.visited || has b s.queue) ≡ true
    pub sound : (p : String) → has p s.visited ≡ true → IsBefore nodes edges target p
    pub queued :
        (p : String)
        → has p s.queue ≡ true
        → (p ≡ target) ⊎ (IsBefore nodes edges target p × (is_node nodes p ≡ true))

  abbrev round : String → List String → Search → Search
  round current rest s = visit nodes (incoming current edges) (record s { queue = rest })

  round-visited :
      (current : String) (rest : List String) (s : Search) (p : String)
      → has p (round current rest s).visited ≡ (has p s.visited || has_edge edges p current)
  round-visited current rest s p = ground (
    arith,
    has-visited nodes p (incoming current edges) (record s { queue = rest }),
    has-incoming p current edges,
  )

  round-queue :
      (current : String) (rest : List String) (s : Search) (p : String)
      → has p (round current rest s).queue
        ≡ (has p rest || (has_edge edges p current && not (has p s.visited) && is_node nodes p))
  round-queue current rest s p = ground (
    arith,
    has-queue nodes p (incoming current edges) (record s { queue = rest }),
    has-incoming p current edges,
  )

  -- a source of an edge into what the round takes from the queue
  IsBefore-edge :
      (current p : String)
      → (current ≡ target) ⊎ (IsBefore nodes edges target current × (is_node nodes current ≡ true))
      → has_edge edges p current ≡ true
      → IsBefore nodes edges target p
  IsBefore-edge current p (inl e) h = next (subst (λ c. has_edge edges p c ≡ true) e h)
  IsBefore-edge current p (inr (b, n)) h = further b n h

  round-IsSearch :
      (current : String) (rest : List String) (s : Search)
      → s.queue ≡ current ∷ rest
      → IsSearch s
      → IsSearch (round current rest s)
  round-IsSearch current rest s e h =
      let taken = h.queued current (ground (arith, eq_iff current current)) in
      let before_of =
        λ (p : String) (k : has_edge edges p current ≡ true). IsBefore-edge current p taken k in
      record {
        pending = λ a b edge followed. ground (
          arith,
          h.pending a b edge,
          round-visited current rest s a,
          round-visited current rest s b,
          round-queue current rest s b,
          eq_iff current b,
        );
        sound = λ p k. elim (Bool-cases (has p s.visited)) [
          | inl seen ↦ h.sound p seen
          | inr fresh ↦ before_of p (ground (arith, round-visited current rest s p))
        ];
        queued = λ p k. elim (Bool-cases (has p rest)) [
          | inl waits ↦ h.queued p (ground arith)
          | inr fresh ↦ inr (
            before_of p (ground (arith, round-queue current rest s p)),
            ground (arith, round-queue current rest s p),
          )
        ];
      }

  -- With enough fuel the search ends with an empty queue, and keeps what is known of it.
  search-IsSearch :
      (fuel : ℕ) (q : List String) (s : Search)
      → s.queue ≡ q
      → work edges s ≤ fuel
      → IsSearch s
      → IsSearch (search nodes edges fuel s) × ((search nodes edges fuel s).queue ≡ [])
  unfolding search
  search-IsSearch fuel [] s e k h =
      let same : search nodes edges fuel s ≡ s = search-empty nodes edges fuel s e in
      subst (λ (r : Search). IsSearch r × (r.queue ≡ [])) (sym same) (h, e)
  search-IsSearch zero (current ∷ rest) s e k h = absurd (ground arith)
  search-IsSearch (suc fuel) (current ∷ rest) s e k h =
      let r = round current rest s in
      let less = visit-incoming-work nodes edges current rest s e in
      let same : search nodes edges (suc fuel) s ≡ search nodes edges fuel r = ground arith in
      subst (λ (t : Search). IsSearch t × (t.queue ≡ [])) (sym same)
        (search-IsSearch fuel r.queue r refl (omega (arith, less))
          (round-IsSearch current rest s e h))

  begin-IsSearch : IsSearch (begin target)
  begin-IsSearch = record {
    pending = λ a b edge followed. ground (arith, eq_iff target b, eq_iff b target);
    sound = λ p k. cc;
    queued = λ p k. inl (ground (arith, eq_iff target p));
  }

  abbrev pub finished : Search
  finished = search nodes edges (suc (length edges)) (begin target)

  finished-IsSearch : IsSearch finished × (finished.queue ≡ [])
  finished-IsSearch =
      search-IsSearch (suc (length edges)) (target ∷ []) (begin target) refl
        (omega (arith, unseen-le edges [])) begin-IsSearch

  IsBefore-visited : (p : String) → IsBefore nodes edges target p → has p finished.visited ≡ true
  IsBefore-visited p (next {a} edge) =
      let (h, done) = finished-IsSearch in
      ground (arith, h.pending a target edge, eq_iff target target)
  IsBefore-visited p (further {a} {b} before node edge) =
      let (h, done) = finished-IsSearch in
      let seen = IsBefore-visited b before in ground (arith, h.pending a b edge)

  -- The search ends, and what it has visited is just what lies before the target.
  pub visited-finished :
      (p : String)
      → (finished.queue ≡ [])
        × (has p finished.visited ≡ true → IsBefore nodes edges target p)
        × (IsBefore nodes edges target p → has p finished.visited ≡ true)
  visited-finished p = let (h, done) = finished-IsSearch in (done, h.sound p, IsBefore-visited p)
