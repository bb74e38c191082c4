-- ===== src/NodeConfig/Exact.antt =====
-- The variables offered are those of the nodes before the target.
use clerq.Prelude.{
  ℕ, zero, suc, ◌≡◌, ◌↔◌, refl, sym, subst, String, str_eq, eq_iff, Bool, true, false, ◌&&◌, ◌||◌,
  has, has-append, IsDistinct, IsDistinct-append, List, [], ◌∷◌, ◌++◌, map, Option, none, some,
  length, arith, Bool-cases, Option-cases, append-nil, ◌⊎◌, inl, inr, ap,
}
use clerq.WorkflowEditor.{Node, Edge}
use clerq.NodeConfig.{
  Search, VarDef, VarGroup, vars_of, node_at, group_of, reach, visit_edge, visit, incoming, search,
  begin, upstream_groups,
}
use clerq.NodeConfig.Upstream.{IsBefore}
use clerq.NodeConfig.Reached.{visited-finished, finished, search-empty}

abbrev pub ids : List VarGroup → List String
ids = map (λ (g : VarGroup). g.node_id)

abbrev pub offers : List VarDef → Bool
offers [] = false
offers (v ∷ vs) = true

-- The workflow has the node, and its kind has variables.
abbrev pub has_vars : List Node → String → Bool
has_vars nodes id = elim (node_at nodes id) [ none ↦ false | some n ↦ offers (vars_of n) ]

ids-append : (gs hs : List VarGroup) → ids (gs ++ hs) ≡ ids gs ++ ids hs
ids-append [] hs = refl
ids-append (g ∷ gs) hs = ap (λ r. g.node_id ∷ r) (ids-append gs hs)

has-group_of :
    (p id : String) (n : Node) → has p (ids (group_of id n)) ≡ (str_eq id p && offers (vars_of n))
has-group_of p id n = ground arith

-- The groups are those of the visited nodes with variables, each once.
record IsGrouped (nodes : List Node) (s : Search) : Type 0 where
  exact : (p : String) → has p (ids s.groups) ≡ (has p s.visited && has_vars nodes p)
  distinct : IsDistinct (ids s.groups)

ids-reach :
    (nodes : List Node) (id p : String) (s : Search)
    → has p (ids (reach (node_at nodes id) id s).groups)
      ≡ (has p (ids s.groups) || (str_eq id p && has_vars nodes id))
ids-reach nodes id p s = elim (Option-cases (node_at nodes id)) [
  | inl e ↦ ground arith
  | inr (n, e) ↦ ground (
    arith,
    ids-append s.groups (group_of id n),
    has-append p (ids s.groups) (ids (group_of id n)),
    has-group_of p id n,
  )
]

reach-visited :
    (n : Option Node) (id : String) (s : Search) → (reach n id s).visited ≡ id ∷ s.visited
reach-visited none id s = refl
reach-visited (some n) id s = refl

IsDistinct-group_of :
    (ps : List String) (id : String) (n : Node)
    → IsDistinct ps
    → (has id ps ≡ false) ⊎ (offers (vars_of n) ≡ false)
    → IsDistinct (ps ++ ids (group_of id n))
IsDistinct-group_of ps id n h k = go (vars_of n) refl k
  where
    go :
        (vs : List VarDef)
        → vars_of n ≡ vs
        → (has id ps ≡ false) ⊎ (offers (vars_of n) ≡ false)
        → IsDistinct (ps ++ ids (group_of id n))
    go [] e k = rw (group_of, e) (rw (append-nil ps) h)
    go (v ∷ vs) e (inl fresh) = rw (group_of, e) (IsDistinct-append ps id h fresh)
    go (v ∷ vs) e (inr none_left) = absurd (ground arith)

IsDistinct-reach :
    (nodes : List Node) (id : String) (s : Search)
    → IsGrouped nodes s
    → has id s.visited ≡ false
    → IsDistinct (ids (reach (node_at nodes id) id s).groups)
IsDistinct-reach nodes id s h fresh = elim (Option-cases (node_at nodes id)) [
  | inl e ↦ rw e h.distinct
  | inr (n, e) ↦ rw e (
      rw (ids-append s.groups (group_of id n))
        (IsDistinct-group_of (ids s.groups) id n h.distinct (inl (ground (arith, h.exact id)))))
]

reach-IsGrouped :
    (nodes : List Node) (id : String) (s : Search)
    → IsGrouped nodes s
    → has id s.visited ≡ false
    → IsGrouped nodes (reach (node_at nodes id) id s)
reach-IsGrouped nodes id s h fresh = record {
  exact = λ p. ground (
    arith,
    ids-reach nodes id p s,
    reach-visited (node_at nodes id) id s,
    h.exact p,
    h.exact id,
    eq_iff id p,
  );
  distinct = IsDistinct-reach nodes id s h fresh;
}

visit_edge-IsGrouped :
    (nodes : List Node) (e : Edge) (s : Search)
    → IsGrouped nodes s
    → IsGrouped nodes (visit_edge nodes e s)
unfolding visit_edge
visit_edge-IsGrouped nodes e s h = elim (Bool-cases (has e.from_node s.visited)) [
  | inl seen ↦ rw seen h
  | inr fresh ↦ rw fresh (reach-IsGrouped nodes e.from_node s h fresh)
]

visit-IsGrouped :
    (nodes : List Node) (es : List Edge) (s : Search)
    → IsGrouped nodes s
    → IsGrouped nodes (visit nodes es s)
unfolding visit
visit-IsGrouped nodes [] s h = h
visit-IsGrouped nodes (e ∷ es) s h =
    visit-IsGrouped nodes es (visit_edge nodes e s) (visit_edge-IsGrouped nodes e s h)

search-IsGrouped :
    (nodes : List Node) (edges : List Edge) (fuel : ℕ) (q : List String) (s : Search)
    → s.queue ≡ q
    → IsGrouped nodes s
    → IsGrouped nodes (search nodes edges fuel s)
unfolding search
search-IsGrouped nodes edges zero q s e h = h
search-IsGrouped nodes edges (suc k) [] s e h =
    subst (IsGrouped nodes) (sym (search-empty nodes edges (suc k) s e)) h
search-IsGrouped nodes edges (suc k) (current ∷ rest) s e h =
    let r = visit nodes (incoming current edges) (record s { queue = rest }) in
    let same : search nodes edges (suc k) s ≡ search nodes edges k r = ground arith in
    subst (IsGrouped nodes) (sym same) (
      search-IsGrouped nodes edges k r.queue r refl (
        visit-IsGrouped nodes (incoming current edges) (record s { queue = rest })
          (record { exact = h.exact; distinct = h.distinct })))

-- The groups that `upstream_groups` offers: one, and only one, for each node of the workflow from which a path
-- of edges over the workflow's nodes leads to the target and whose kind has variables, and none besides,
-- cycles and edges to missing nodes included; the search has ended, with an empty queue, before its fuel does.
pub ids-upstream_groups :
    (target p : String) (nodes : List Node) (edges : List Edge)
    → ((finished nodes edges target).queue ≡ [])
      × ((has p (ids (upstream_groups target nodes edges)) ≡ true)
          ↔ (IsBefore nodes edges target p × (has_vars nodes p ≡ true)))
      × IsDistinct (ids (upstream_groups target nodes edges))
unfolding upstream_groups
ids-upstream_groups target p nodes edges =
    let (done, sound, complete) = visited-finished nodes edges target p in
    let h =
      search-IsGrouped nodes edges (suc (length edges)) (target ∷ []) (begin target) refl
        (record { exact = λ q. refl; distinct = tt }) in
    (
      done,
      (
        λ k. (sound (ground (arith, h.exact p)), ground (arith, h.exact p)),
        λ (before, offered). let seen = complete before in ground (arith, h.exact p),
      ),
      h.distinct,
    )
