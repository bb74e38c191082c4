-- ===== src/NodeConfig/Upstream.antt =====
-- The nodes before a node, and what one round of the search does.
use clerq.Prelude.{
  ℕ, ◌+◌, ◌≤◌, ◌<◌, ◌≡◌, refl, String, str_eq, eq_iff, Bool, true, false, not, ◌&&◌, ◌||◌, has,
  has-append, List, [], ◌∷◌, map, some_of, is_some, All, length, length-append, arith, Bool-cases,
  inl, inr, if◌then◌else◌,
}
use clerq.WorkflowEditor.{Node, Edge}
use clerq.NodeConfig.{Search, node_at, visit_edge, visit, incoming}

abbrev pub has_edge : List Edge → String → String → Bool
has_edge edges a b = some_of (λ (e : Edge). str_eq e.from_node a && str_eq e.to_node b) edges

abbrev pub is_node : List Node → String → Bool
is_node nodes id = is_some (node_at nodes id)

-- A path of edges leads from `a` to the target, over nodes that the workflow has.
pub data IsBefore (nodes : List Node) (edges : List Edge) (target : String) : String → Type 0 where
  next : {a : String} → has_edge edges a target ≡ true → IsBefore nodes edges target a
  further :
      {a b : String}
      → IsBefore nodes edges target b
      → is_node nodes b ≡ true
      → has_edge edges a b ≡ true
      → IsBefore nodes edges target a

abbrev pub sources : List Edge → List String
sources = map (λ (e : Edge). e.from_node)

pub has-incoming :
    (a b : String) (edges : List Edge) → has a (sources (incoming b edges)) ≡ has_edge edges a b
has-incoming a b [] = refl
has-incoming a b (e ∷ es) = ground (arith, has-incoming a b es)

visit_edge-visited :
    (nodes : List Node) (p : String) (e : Edge) (s : Search)
    → has p (visit_edge nodes e s).visited ≡ (has p s.visited || str_eq e.from_node p)
unfolding visit_edge
visit_edge-visited nodes p e s = ground (arith, eq_iff e.from_node p)

pub has-visited :
    (nodes : List Node) (p : String) (es : List Edge) (s : Search)
    → has p (visit nodes es s).visited ≡ (has p s.visited || has p (sources es))
unfolding visit visit_edge
has-visited nodes p [] s = ground arith
has-visited nodes p (e ∷ es) s =
    ground (arith, has-visited nodes p es (visit_edge nodes e s), eq_iff e.from_node p)

visit_edge-queue :
    (nodes : List Node) (p : String) (e : Edge) (s : Search)
    → has p (visit_edge nodes e s).queue
      ≡ (has p s.queue || (str_eq e.from_node p && not (has p s.visited) && is_node nodes p))
unfolding visit_edge
visit_edge-queue nodes p e s =
    ground (arith, has-append p s.queue (e.from_node ∷ []), eq_iff e.from_node p)

pub has-queue :
    (nodes : List Node) (p : String) (es : List Edge) (s : Search)
    → has p (visit nodes es s).queue
      ≡ (has p s.queue || (has p (sources es) && not (has p s.visited) && is_node nodes p))
unfolding visit visit_edge
has-queue nodes p [] s = ground arith
has-queue nodes p (e ∷ es) s =
    let s' = visit_edge nodes e s in
    ground
      (arith, has-queue nodes p es s', visit_edge-queue nodes p e s, visit_edge-visited nodes p e s)

-- the edges whose source was not visited yet
abbrev pub unseen : List String → List Edge → ℕ
unseen v [] = 0
unseen v (e ∷ es) = (if has e.from_node v then 0 else 1) + unseen v es

pub unseen-le : (edges : List Edge) (v : List String) → unseen v edges ≤ length edges
unseen-le [] v = omega arith
unseen-le (e ∷ es) v = ground (arith, unseen-le es v)

unseen-cons_le :
    (v : List String) (p : String) (edges : List Edge) → unseen (p ∷ v) edges ≤ unseen v edges
unseen-cons_le v p [] = omega arith
unseen-cons_le v p (e ∷ es) = ground (arith, unseen-cons_le v p es)

unseen-cons_lt :
    (v : List String) (p : String) (edges : List Edge)
    → has p (sources edges) ≡ true
    → has p v ≡ false
    → unseen (p ∷ v) edges < unseen v edges
unseen-cons_lt v p [] h k = cc
unseen-cons_lt v p (e ∷ es) h k = elim (Bool-cases (str_eq e.from_node p)) [
  | inl same ↦ ground (arith, unseen-cons_le v p es, eq_iff e.from_node p, eq_iff p e.from_node)
  | inr other ↦ ground (arith, unseen-cons_lt v p es, eq_iff p e.from_node, eq_iff e.from_node p)
]

-- the rounds that are left at most
abbrev pub work : List Edge → Search → ℕ
work edges s = unseen s.visited edges + length s.queue

visit_edge-work :
    (nodes : List Node) (edges : List Edge) (e : Edge) (s : Search)
    → has e.from_node (sources edges) ≡ true
    → work edges (visit_edge nodes e s) ≤ work edges s
unfolding visit_edge
visit_edge-work nodes edges e s h = elim (Bool-cases (has e.from_node s.visited)) [
  | inl seen ↦ ground arith
  | inr fresh ↦ ground (
    arith,
    unseen-cons_lt s.visited e.from_node edges h fresh,
    length-append s.queue (e.from_node ∷ []),
  )
]

pub visit-work :
    (nodes : List Node) (edges es : List Edge) (s : Search)
    → All (λ (e : Edge). has e.from_node (sources edges) ≡ true) es
    → work edges (visit nodes es s) ≤ work edges s
unfolding visit
visit-work nodes edges [] s h = omega arith
visit-work nodes edges (e ∷ es) s (p, h) =
    omega
      (arith, visit-work nodes edges es (visit_edge nodes e s) h, visit_edge-work nodes edges e s p)

All-incoming :
    (id : String) (es edges : List Edge)
    → All (λ (e : Edge). has e.from_node (sources edges) ≡ true) es
    → All (λ (e : Edge). has e.from_node (sources edges) ≡ true) (incoming id es)
All-incoming id [] edges h = tt
All-incoming id (e ∷ es) edges (p, h) = elim (Bool-cases (str_eq e.to_node id)) [
  | inl same ↦ rw same (p, All-incoming id es edges h)
  | inr other ↦ rw other (All-incoming id es edges h)
]

All-sources_cons :
    (x : Edge) (es edges : List Edge)
    → All (λ (e : Edge). has e.from_node (sources edges) ≡ true) es
    → All (λ (e : Edge). has e.from_node (sources (x ∷ edges)) ≡ true) es
All-sources_cons x [] edges h = tt
All-sources_cons x (e ∷ es) edges (p, h) = (ground arith, All-sources_cons x es edges h)

All-sources : (edges : List Edge) → All (λ (e : Edge). has e.from_node (sources edges) ≡ true) edges
All-sources [] = tt
All-sources (e ∷ es) =
    (ground (arith, eq_iff e.from_node e.from_node), All-sources_cons e es es (All-sources es))

-- One round of the search takes one id from the queue and leaves less to do.
pub visit-incoming-work :
    (nodes : List Node) (edges : List Edge) (current : String) (rest : List String) (s : Search)
    → s.queue ≡ current ∷ rest
    → work edges (visit nodes (incoming current edges) (record s { queue = rest })) < work edges s
visit-incoming-work nodes edges current rest s h = ground (
  arith,
  visit-work nodes edges (incoming current edges) (record s { queue = rest })
      (All-incoming current edges edges (All-sources edges)),
)
