-- ===== src/Graph/Tests.antt =====
-- The graph of a document of two targets, each theorem at it.
use makedown.Base.{
  Text, text_eq, list_eqb, lit, none, List, [], ◌∷◌, ok, err, ◌≡◌, ◌≢◌, ◌⊎◌, ◌↔◌, refl, true, All,
  has, map, filterb, not,
}
use makedown.Base.Map.{Map, get, set, keys}
use makedown.Types.{chat, deterministic, no_sandbox, not_required, end, TargetBlock, BuildDoc}
use makedown.Refs.{bare_ref}
use makedown.Graph.{
  deps_of, GraphNode, BuildGraph, cycle, out_of_fuel, visit, topo_sort, graph_node, target_names,
  build_graph,
}
use makedown.Graph.Order.{DepsFirst, topo_sort-DepsFirst}
use makedown.Graph.Cycles.{IsCycle}
use makedown.Graph.Ends.{topo_sort-ends}
use makedown.Graph.Decides.{topo_sort-err_iff}
use makedown.Graph.Document.{
  graph_node_lem, nodes_of, nodes_of-IsClosed, declared_deps, build_graph_lem,
}

abbrev target_of : Text → List Text → TargetBlock
target_of name inputs = record {
  name = name;
  header = record {
    inputs = inputs;
    step = chat;
    model = none;
    fallback = none;
    route = none;
    system = none;
    params = end;
    output = name;
    cache = deterministic;
    agent_id = none;
    sandbox = no_sandbox;
    approval = not_required;
    transform_script = none;
    over = none;
    schema = none;
  };
  body = [];
}

abbrev notes : TargetBlock
notes = target_of (lit "n") (lit "p:head(2)" ∷ lit "f" ∷ [])

abbrev doc : BuildDoc
doc = record {
  front_matter = record { version = none; defaults = none; artifacts_dir = []; sources_dir = [] };
  targets = notes ∷ target_of (lit "p") [] ∷ [];
}

abbrev nodes : Map Text GraphNode
nodes =
    (lit "n", record { target = notes; deps = lit "p" ∷ []; sources = [] })
    ∷ (lit "p", record { target = target_of (lit "p") []; deps = []; sources = [] })
    ∷ []

build_graph_lem_example :
    ((x : Text) → deps_of (nodes_of doc) x ≡ declared_deps doc x)
    × (((g : BuildGraph) × (build_graph doc ≡ ok g)
          × (g.nodes ≡ nodes_of doc)
          × DepsFirst g.nodes [] g.order
          × All (λ name. has g.order name ≡ true) (target_names doc))
        ⊎ ((names : List Text) × (build_graph doc ≡ err (cycle names))
            × IsCycle (nodes_of doc) names))
build_graph_lem_example = build_graph_lem doc

topo_sort-err_iff_example :
    ((names : List Text) × IsCycle (nodes_of doc) names)
    ↔ ((names : List Text) × (topo_sort (nodes_of doc) ≡ err (cycle names)))
topo_sort-err_iff_example = topo_sort-err_iff (nodes_of doc) (nodes_of-IsClosed doc)

topo_sort-DepsFirst_example :
    DepsFirst nodes [] (lit "p" ∷ lit "n" ∷ [])
    × All (λ name. has (lit "p" ∷ lit "n" ∷ []) name ≡ true) (keys nodes)
unfolding topo_sort visit get set list_eqb
topo_sort-DepsFirst_example = topo_sort-DepsFirst nodes (lit "p" ∷ lit "n" ∷ []) refl

graph_node_lem_example :
    ((graph_node (lit "n" ∷ lit "p" ∷ []) notes).deps
      ≡ filterb (λ r. has (lit "n" ∷ lit "p" ∷ []) r) (map bare_ref notes.header.inputs))
    × ((graph_node (lit "n" ∷ lit "p" ∷ []) notes).sources
        ≡ filterb (λ r. not (has (lit "n" ∷ lit "p" ∷ []) r)) (map bare_ref notes.header.inputs))
graph_node_lem_example = graph_node_lem (lit "n" ∷ lit "p" ∷ []) notes

topo_sort-ends_example : topo_sort (nodes_of doc) ≢ err out_of_fuel
topo_sort-ends_example = topo_sort-ends (nodes_of doc) (nodes_of-IsClosed doc)
