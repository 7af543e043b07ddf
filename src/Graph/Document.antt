-- ===== src/Graph/Document.antt =====
-- The graph of a document: which inputs become dependencies, and what its order is worth.
use makedown.Base.{
  Option, none, some, Option-cases, if◌then◌else◌, ◌∙◌, Text, text_eq, List, [], ◌∷◌, ◌++◌, ◌≡◌,
  refl, ◌||◌, ◌⊎◌, true, not, ◌==◌, ok, err, All, All-of, All-has, has, map, filterb, append_assoc,
  append-nil, Bool-cases, inl, inr, Bool, All-mem, ap, arith,
}
use makedown.Base.Map.{Map, get, set, get-set, keys, has-keys}
use makedown.Types.{TargetBlock, BuildDoc}
use makedown.Refs.{bare_ref}
use makedown.Graph.{
  GraphNode, BuildGraph, cycle, deps_of, classify, graph_node, graph_nodes, target_names,
  build_graph,
}
use makedown.Graph.Order.{DepsFirst, topo_sort-DepsFirst}
use makedown.Graph.Cycles.{IsCycle, topo_sort-IsCycle}
use makedown.Graph.Ends.{IsClosed}
use makedown.Graph.Decides.{topo_sort_cases}

classify_lem :
    (names inputs deps sources : List Text)
    → classify names inputs (deps, sources) ≡ (
      deps ++ filterb (λ r. has names r) (map bare_ref inputs),
      sources ++ filterb (λ r. not (has names r)) (map bare_ref inputs),
    )
classify_lem names [] deps sources = rw (append-nil, append-nil)
classify_lem names (input ∷ inputs) deps sources = elim (Bool-cases (has names (bare_ref input))) [
  | inl known ↦
      rw known
        (rw (classify_lem names inputs (deps ++ bare_ref input ∷ []) sources, append_assoc) refl)
  | inr other ↦
      rw other
        (rw (classify_lem names inputs deps (sources ++ bare_ref input ∷ []), append_assoc) refl)
]

-- The dependencies of a target are its inputs that name targets, and its sources are the others;
-- both are bare, and in the order and as often as they are declared.
pub graph_node_lem :
    (names : List Text) (t : TargetBlock)
    → ((graph_node names t).deps ≡ filterb (λ r. has names r) (map bare_ref t.header.inputs))
      × ((graph_node names t).sources
          ≡ filterb (λ r. not (has names r)) (map bare_ref t.header.inputs))
unfolding graph_node
graph_node_lem names t = (
  ap (λ p. p.0) (classify_lem names t.header.inputs [] []),
  ap (λ p. p.1) (classify_lem names t.header.inputs [] []),
)

All-filterb : (p : Text → Bool) (xs : List Text) → All (λ x. p x ≡ true) (filterb p xs)
All-filterb p [] = tt
All-filterb p (x ∷ xs) = elim (Bool-cases (p x)) [
  | inl kept ↦ rw kept (kept, All-filterb p xs)
  | inr left ↦ rw left (All-filterb p xs)
]

has-keys-set :
    (m : Map Text GraphNode) (k x : Text) (v : GraphNode)
    → has (keys (set m k v)) x ≡ (k == x || has (keys m) x)
has-keys-set m k x v = ground (arith, has-keys (set m k v) x, has-keys m x, get-set m k x v)

has-keys-graph_nodes :
    (names : List Text) (ts : List TargetBlock) (m : Map Text GraphNode) (x : Text)
    → has (keys (graph_nodes names ts m)) x ≡ (has (map (λ t. t.name) ts) x || has (keys m) x)
unfolding graph_nodes
has-keys-graph_nodes names [] m x = refl
has-keys-graph_nodes names (t ∷ ts) m x = ground (
  arith,
  has-keys-graph_nodes names ts (set m t.name (graph_node names t)) x,
  has-keys-set m t.name x (graph_node names t),
)

-- Every dependency in a node map is among the names.
abbrev Within : List Text → Map Text GraphNode → Type 0
Within names m = (x : Text) → All (λ d. has names d ≡ true) (deps_of m x)

Within-set :
    (names : List Text) (m : Map Text GraphNode) (t : TargetBlock)
    → Within names m
    → Within names (set m t.name (graph_node names t))
Within-set names m t w x = elim (Bool-cases (t.name == x)) [
  | inl same ↦
      rw (get-set m t.name x (graph_node names t), same, deps_of)
        (rw ((graph_node_lem names t).0) (All-filterb (λ r. has names r) _))
  | inr other ↦ rw (get-set m t.name x (graph_node names t), other, deps_of) (w x)
]

graph_nodes-Within :
    (names : List Text) (ts : List TargetBlock) (m : Map Text GraphNode)
    → Within names m
    → Within names (graph_nodes names ts m)
unfolding graph_nodes
graph_nodes-Within names [] m w = w
graph_nodes-Within names (t ∷ ts) m w =
    graph_nodes-Within names ts (set m t.name (graph_node names t)) (Within-set names m t w)

abbrev pub nodes_of : BuildDoc → Map Text GraphNode
nodes_of doc = graph_nodes (target_names doc) doc.targets []

pub nodes_of-IsClosed : (doc : BuildDoc) → IsClosed (nodes_of doc)
unfolding get
nodes_of-IsClosed doc x =
    All-of _ _ (λ d h. ground (arith, has-keys-graph_nodes (target_names doc) doc.targets [] d))
      (deps_of (nodes_of doc) x) (graph_nodes-Within (target_names doc) doc.targets [] (λ y. tt) x)

-- The target that a name stands for: the last one of that name.
abbrev pub last_named : Text → List TargetBlock → Option TargetBlock
last_named x [] = none
last_named x (t ∷ ts) = elim (last_named x ts) [
  | some u ↦ some u
  | none ↦ if t.name == x then some t else none
]

-- The targets among the declared inputs of a name's target.
abbrev pub declared_deps : BuildDoc → Text → List Text
declared_deps doc x = elim (last_named x doc.targets) [
  | none ↦ []
  | some t ↦ filterb (λ r. has (target_names doc) r) (map bare_ref t.header.inputs)
]

deps_of-graph_nodes :
    (names : List Text) (ts : List TargetBlock) (m : Map Text GraphNode) (x : Text)
    → deps_of (graph_nodes names ts m) x ≡ elim (last_named x ts) [
      | none ↦ deps_of m x
      | some t ↦ filterb (λ r. has names r) (map bare_ref t.header.inputs)
    ]
unfolding graph_nodes
deps_of-graph_nodes names [] m x = refl
deps_of-graph_nodes names (t ∷ ts) m x =
    let rest = deps_of-graph_nodes names ts (set m t.name (graph_node names t)) x in
    elim (Option-cases (last_named x ts)) [
      | inr (u, later) ↦ rw later (rest ∙ rw later refl)
      | inl here ↦ elim (Bool-cases (t.name == x)) [
        | inl same ↦
            rw (here, same)
              (rest
                ∙ rw (here, get-set m t.name x (graph_node names t), same, deps_of)
                    ((graph_node_lem names t).0))
        | inr other ↦
            rw (here, other)
              (rest ∙ rw (here, get-set m t.name x (graph_node names t), other, deps_of) refl)
      ]
    ]

-- The dependencies of each name in the graph are the targets among the declared inputs of the last target
-- of that name, and none for a name of no target. Over these, every document has either an order in which
-- each target name stands once and behind all its dependencies, or a cycle, which is reported.
pub build_graph_lem :
    (doc : BuildDoc)
    → ((x : Text) → deps_of (nodes_of doc) x ≡ declared_deps doc x)
      × (((g : BuildGraph) × (build_graph doc ≡ ok g)
            × (g.nodes ≡ nodes_of doc)
            × DepsFirst g.nodes [] g.order
            × All (λ name. has g.order name ≡ true) (target_names doc))
          ⊎ ((names : List Text) × (build_graph doc ≡ err (cycle names))
              × IsCycle (nodes_of doc) names))
unfolding build_graph get
build_graph_lem doc = (
  deps_of-graph_nodes (target_names doc) doc.targets [],
  elim (topo_sort_cases (nodes_of doc) (nodes_of-IsClosed doc)) [
    | inl (order, e) ↦
        let (sorted, covers) = topo_sort-DepsFirst (nodes_of doc) order e in
        inl (
          record { nodes = nodes_of doc; order = order },
          rw e,
          refl,
          sorted,
          All-has order (target_names doc) (λ a h.
              All-mem (λ n. has order n ≡ true) (keys (nodes_of doc)) a covers
                (ground (arith, has-keys-graph_nodes (target_names doc) doc.targets [] a))),
        )
    | inr (names, e) ↦ inr (names, rw e, topo_sort-IsCycle (nodes_of doc) names e)
  ],
)
