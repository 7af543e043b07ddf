-- ===== src/Graph.antt =====
-- packages/engine/src/graph.ts: the dependency graph of a build document, and its topological order.
mod Tests
mod Steps
pub mod Order
pub mod Cycles
pub mod Ends
pub mod Decides
pub mod Document
use makedown.Base.{
  ℕ, zero, suc, Text, text_eq, none, some, List, [], ◌∷◌, ◌++◌, map, length, has, if◌then◌else◌,
  Result, ok, err, ◌>>=◌, for_each,
}
use makedown.Base.Map.{Map, get, set, keys}
use makedown.Types.{TargetBlock, BuildDoc}
use makedown.Refs.{bare_ref}

pub record GraphNode : Type 0 where
  pub target : TargetBlock
  pub deps : List Text
  pub sources : List Text

pub record BuildGraph : Type 0 where
  pub nodes : Map Text GraphNode
  pub order : List Text

-- `cycle p` carries the names that the message of `GraphError` joins by arrows.
pub data GraphError : Type 0 where
  cycle : List Text → GraphError
  out_of_fuel : GraphError

pub data Status : Type 0 where
  visiting done : Status

-- The two variables that the closure `visit` captures.
pub record Visit : Type 0 where
  pub order : List Text
  pub state : Map Text Status

-- The dependencies of a name; a name with no node has none.
abbrev pub deps_of : Map Text GraphNode → Text → List Text
deps_of nodes name = elim (get nodes name) [ none ↦ [] | some node ↦ node.deps ]

abbrev pub open_name : Text → Visit → Visit
open_name name st = record st { state = set st.state name visiting }

abbrev pub close_name : Text → Visit → Visit
close_name name st = record st { state = set st.state name done; order = st.order ++ name ∷ [] }

-- The recursion is on fuel; `topo_sort` gives one unit more than there are nodes.
unfoldable pub visit : Map Text GraphNode → ℕ → Text → List Text → Visit → Result GraphError Visit
visit nodes zero name path st = err out_of_fuel
visit nodes (suc fuel) name path st = elim (get st.state name) [
  | some done ↦ ok st
  | some visiting ↦ err (cycle (path ++ name ∷ []))
  | none ↦
      for_each (λ dep s. visit nodes fuel dep (path ++ name ∷ []) s) (deps_of nodes name)
        (open_name name st)
      >>= λ s. ok (close_name name s)
]

abbrev pub start : Visit
start = record { order = []; state = [] }

unfoldable pub topo_sort : Map Text GraphNode → Result GraphError (List Text)
topo_sort nodes =
    for_each (λ name s. visit nodes (suc (length (keys nodes))) name [] s) (keys nodes) start
    >>= λ s. ok s.order

-- One round of the loop over a target's inputs.
abbrev pub classify : List Text → List Text → List Text × List Text → List Text × List Text
classify names [] acc = acc
classify names (input ∷ inputs) (deps, sources) =
    let ref = bare_ref input in
    classify names inputs
      (if has names ref then (deps ++ ref ∷ [], sources) else (deps, sources ++ ref ∷ []))

unfoldable pub graph_node : List Text → TargetBlock → GraphNode
graph_node names target =
    let (deps, sources) = classify names target.header.inputs ([], []) in
    record { target = target; deps = deps; sources = sources }

unfoldable pub graph_nodes : List Text → List TargetBlock → Map Text GraphNode → Map Text GraphNode
graph_nodes names [] nodes = nodes
graph_nodes names (t ∷ ts) nodes = graph_nodes names ts (set nodes t.name (graph_node names t))

abbrev pub target_names : BuildDoc → List Text
target_names doc = map (λ t. t.name) doc.targets

unfoldable pub build_graph : BuildDoc → Result GraphError BuildGraph
build_graph doc =
    let nodes = graph_nodes (target_names doc) doc.targets [] in
    topo_sort nodes >>= λ order. ok (record { nodes = nodes; order = order })
