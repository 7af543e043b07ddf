-- ===== src/Graph/Decides.antt =====
-- Sorting succeeds exactly where no chain of dependencies comes back to a name it has met.
use makedown.Base.{
  ℕ, suc, Text, text_eq, List, [], ◌∷◌, ◌++◌, ◌≡◌, ◌<◌, ◌⊎◌, ◌↔◌, true, false, ◌==◌, ok, err, All,
  All-mem, has, if◌then◌else◌, subst, Option-cases, Result-cases, Bool-cases, inl, inr, sym, ap,
  arith, or-eq-true,
}
use makedown.Base.Map.{Map, get, keys, has-keys}
use makedown.Graph.{GraphNode, cycle, out_of_fuel, deps_of, topo_sort}
use makedown.Graph.Order.{DepsFirst, topo_sort-DepsFirst}
use makedown.Graph.Cycles.{Chain, IsCycle, topo_sort-IsCycle}
use makedown.Graph.Ends.{IsClosed, topo_sort-ends}

-- The place of a name in an order.
abbrev place : List Text → Text → ℕ
place [] m = 0
place (x ∷ xs) m = let rest = place xs m in if x == m then 0 else suc rest

-- In an order the dependencies of a name stand at smaller places.
place-dep :
    (nodes : Map Text GraphNode) (seen order : List Text) (name dep : Text)
    → DepsFirst nodes seen order
    → has order name ≡ true
    → has (deps_of nodes name) dep ≡ true
    → (has seen dep ≡ true) ⊎ (has order dep ≡ true) × (place order dep < place order name)
place-dep nodes seen [] name dep o h d = cc
place-dep nodes seen (x ∷ order) name dep o h d = elim (Bool-cases (x == name)) [
  | inl same ↦
      let e = (text_eq.beq_iff x name).0 same in
      inl (
        All-mem (λ a. has seen a ≡ true) (deps_of nodes x) dep o.1
          (subst (λ n. has (deps_of nodes n) dep ≡ true) (sym e) d))
  | inr other ↦
      ground (arith, place-dep nodes (x ∷ seen) order name dep o.2, text_eq.beq_iff x name)
]

module _ (nodes : Map Text GraphNode) (order : List Text) (sorted : DepsFirst nodes [] order)
    (covers : All (λ name. has order name ≡ true) (keys nodes)) where
  place-chain :
      (first : Text) (path : List Text) (last : Text)
      → has order first ≡ true
      → Chain nodes (first ∷ path ++ last ∷ [])
      → place order last < place order first
  place-chain first [] last h c = ground (arith, place-dep nodes [] order first last sorted h c.0)
  place-chain first (x ∷ path) last h c = ground (
    arith,
    place-dep nodes [] order first x sorted h c.0,
    λ (k : has order x ≡ true). place-chain x path last k c.1,
  )

  -- A name with a dependency is a node.
  ordered_of_dep : (name dep : Text) → has (deps_of nodes name) dep ≡ true → has order name ≡ true
  ordered_of_dep name dep d = elim (Option-cases (get nodes name)) [
    | inl absent ↦ cc (rw (absent, deps_of) at d)
    | inr (node, found) ↦
        All-mem (λ n. has order n ≡ true) (keys nodes) name covers
          (ground (arith, has-keys nodes name))
  ]

  head_dep :
      (first : Text) (path : List Text) (last : Text)
      → Chain nodes (first ∷ path ++ last ∷ [])
      → (dep : Text) × (has (deps_of nodes first) dep ≡ true)
  head_dep first [] last c = (last, c.0)
  head_dep first (x ∷ path) last c = (x, c.0)

  back :
      (first : Text) (path : List Text) (last : Text)
      → (first == last) ≡ true
      → Chain nodes (first ∷ path ++ last ∷ [])
      → ⊥
  back first path last same c =
      let (dep, d) = head_dep first path last c in
      let e = (text_eq.beq_iff first last).0 same in
      omega (arith, place-chain first path last (ordered_of_dep first dep d) c, ap (place order) e)

  pub no_return :
      (path : List Text) (last : Text) → Chain nodes (path ++ last ∷ []) → has path last ≡ true → ⊥
  no_return [] last c h = cc
  no_return (p ∷ []) last c h = elim (or-eq-true (p == last) false h) [
    | inl same ↦ back p [] last same c
    | inr later ↦ cc
  ]
  no_return (p ∷ q ∷ path) last c h = elim (or-eq-true (p == last) (has (q ∷ path) last) h) [
    | inl same ↦ back p (q ∷ path) last same c
    | inr later ↦ no_return (q ∷ path) last c.1 later
  ]

-- With every dependency a node, the sort either gives an order or reports a cycle.
pub topo_sort_cases :
    (nodes : Map Text GraphNode)
    → IsClosed nodes
    → ((order : List Text) × (topo_sort nodes ≡ ok order))
      ⊎ ((names : List Text) × (topo_sort nodes ≡ err (cycle names)))
topo_sort_cases nodes closed = elim (Result-cases (topo_sort nodes)) [
  | inl (order, e) ↦ inl (order, e)
  | inr (cycle names, e) ↦ inr (names, e)
  | inr (out_of_fuel, e) ↦ absurd (topo_sort-ends nodes closed e)
]

-- Where every dependency is a node, the sort throws a cycle exactly if the dependencies have one.
pub topo_sort-err_iff :
    (nodes : Map Text GraphNode)
    → IsClosed nodes
    → ((names : List Text) × IsCycle nodes names)
      ↔ ((names : List Text) × (topo_sort nodes ≡ err (cycle names)))
topo_sort-err_iff nodes closed = (
  λ (names, c). elim (topo_sort_cases nodes closed) [
    | inl (order, e) ↦
        let (sorted, covers) = topo_sort-DepsFirst nodes order e in
        absurd (no_return nodes order sorted covers c.path c.last c.chain c.repeats)
    | inr thrown ↦ thrown
  ],
  λ (names, e). (names, topo_sort-IsCycle nodes names e),
)
