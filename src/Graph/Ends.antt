-- ===== src/Graph/Ends.antt =====
-- The search ends within its fuel, and decides whether the dependencies are acyclic.
use makedown.Base.{
  ℕ, zero, suc, Text, text_eq, none, List, [], ◌∷◌, ◌++◌, ◌≡◌, ◌≢◌, refl, ◌≤◌, ◌<◌, true, err,
  length, All, All-mem, has, is_some, if◌then◌else◌, Option-cases, inl, inr, arith,
}
use makedown.Base.Map.{Map, get, set, get-set, keys}
use makedown.Graph.{
  GraphNode, Status, out_of_fuel, visiting, done, Visit, deps_of, open_name, visit, start,
  topo_sort,
}
use makedown.Graph.Steps.{visit_done, visit_cycle}
use makedown.Graph.Order.{Ordered, Later, visit_new-err, topo_sort-err}

-- Every dependency is a node, as `build_graph` makes sure.
abbrev pub IsClosed : Map Text GraphNode → Type 0
IsClosed nodes = (name : Text) → All (λ d. has (keys nodes) d ≡ true) (deps_of nodes name)

-- The names with no status yet.
abbrev unvisited : List Text → Map Text Status → ℕ
unvisited [] m = 0
unvisited (x ∷ xs) m = let rest = unvisited xs m in if is_some (get m x) then rest else suc rest

unvisited-le :
    (xs : List Text) (m n : Map Text Status)
    → ((x : Text) → get n x ≡ none → get m x ≡ none)
    → unvisited xs n ≤ unvisited xs m
unvisited-le [] m n h = omega arith
unvisited-le (x ∷ xs) m n h = ground (arith, h x, unvisited-le xs m n h)

unvisited-set_le :
    (xs : List Text) (m : Map Text Status) (name : Text) (v : Status)
    → unvisited xs (set m name v) ≤ unvisited xs m
unvisited-set_le xs m name v =
    unvisited-le xs m (set m name v) (λ x e. ground (arith, get-set m name x v))

unvisited-set_lt :
    (xs : List Text) (m : Map Text Status) (name : Text) (v : Status)
    → get m name ≡ none
    → has xs name ≡ true
    → unvisited xs (set m name v) < unvisited xs m
unvisited-set_lt [] m name v e h = cc
unvisited-set_lt (x ∷ xs) m name v e h = ground (
  arith,
  get-set m name x v,
  text_eq.beq_iff x name,
  text_eq.beq_iff name x,
  unvisited-set_le xs m name v,
  unvisited-set_lt xs m name v e,
)

unvisited-nil : (xs : List Text) → unvisited xs [] ≡ length xs
unfolding get
unvisited-nil [] = refl
unvisited-nil (x ∷ xs) = omega (arith, unvisited-nil xs)

module _ (nodes : Map Text GraphNode) (closed : IsClosed nodes) where
  left : Visit → ℕ
  left st = unvisited (keys nodes) st.state

  left-Later : (s t : Visit) → Later nodes s t → left t ≤ left s
  unfolding left
  left-Later s t l = unvisited-le (keys nodes) s.state t.state λ m e.
      elim (Option-cases (get s.state m)) [
        | inl absent ↦ absent
        | inr (visiting, f) ↦ cc ((l.open_iff m).1 f)
        | inr (done, f) ↦ cc (l.kept m f)
      ]

  visit-ends :
      (fuel : ℕ) (name : Text) (path : List Text) (st : Visit)
      → Ordered nodes st
      → has (keys nodes) name ≡ true
      → left st < fuel
      → visit nodes fuel name path st ≢ err out_of_fuel
  unfolding visit left
  visit-ends zero name path st o known enough run = absurd (omega arith)
  visit-ends (suc fuel) name path st o known enough run = elim (Option-cases (get st.state name)) [
    | inl e ↦
        let (dep, mid, is_dep, o', later, thrown) =
          visit_new-err nodes fuel name path st out_of_fuel o e run in
        visit-ends fuel dep (path ++ name ∷ []) mid o'
          (All-mem (λ d. has (keys nodes) d ≡ true) (deps_of nodes name) dep (closed name) is_dep)
          (omega (
            arith,
            unvisited-set_lt (keys nodes) st.state name visiting e known,
            left-Later (open_name name st) mid later,
          ))
          thrown
    | inr (visiting, e) ↦ cc (visit_cycle nodes fuel name path st e)
    | inr (done, e) ↦ cc (visit_done nodes fuel name path st e)
  ]

  -- The sort never runs out of fuel where every dependency is a node.
  pub topo_sort-ends : topo_sort nodes ≢ err out_of_fuel
  unfolding left
  topo_sort-ends run =
      let (name, mid, known, o, later, thrown) = topo_sort-err nodes out_of_fuel run in
      visit-ends (suc (length (keys nodes))) name [] mid o known
        (omega (arith, unvisited-nil (keys nodes), left-Later start mid later)) thrown
