-- ===== src/Graph/Cycles.antt =====
-- The names that a `GraphError` reports lie on a cycle of dependencies.
use makedown.Base.{
  ℕ, zero, suc, Text, text_eq, none, some, List, [], ◌∷◌, ◌++◌, ◌≡◌, ◌↔◌, true, err, length, has,
  has-snoc, Option-cases, inl, inr, arith,
}
use makedown.Base.Map.{Map, get, get-set, keys}
use makedown.Graph.{
  GraphNode, cycle, visiting, done, Visit, deps_of, open_name, visit, start, topo_sort,
}
use makedown.Graph.Steps.{visit_done, visit_cycle}
use makedown.Graph.Order.{Ordered, Later, visit_new-err, topo_sort-err}

-- Each name depends on the one behind it.
abbrev pub Chain : Map Text GraphNode → List Text → Type 0
Chain nodes [] = Unit
Chain nodes (x ∷ []) = Unit
Chain nodes (x ∷ y ∷ rest) = (has (deps_of nodes x) y ≡ true) × Chain nodes (y ∷ rest)

-- A chain of dependencies that ends at a name which it has met before.
pub record IsCycle (nodes : Map Text GraphNode) (names : List Text) : Type 0 where
  pub path : List Text
  pub last : Text
  pub split : names ≡ path ++ last ∷ []
  pub chain : Chain nodes (path ++ last ∷ [])
  pub repeats : has path last ≡ true

Chain-snoc :
    (nodes : Map Text GraphNode) (path : List Text) (x y : Text)
    → Chain nodes (path ++ x ∷ [])
    → has (deps_of nodes x) y ≡ true
    → Chain nodes ((path ++ x ∷ []) ++ y ∷ [])
Chain-snoc nodes [] x y h d = (d, tt)
Chain-snoc nodes (p ∷ []) x y h d = (h.0, (d, tt))
Chain-snoc nodes (p ∷ q ∷ path) x y h d = (h.0, Chain-snoc nodes (q ∷ path) x y h.1 d)

module _ (nodes : Map Text GraphNode) where
  -- The names in progress are those of the path.
  abbrev OnPath : List Text → Visit → Type 0
  OnPath path st = (m : Text) → (get st.state m ≡ some visiting) ↔ (has path m ≡ true)

  OnPath-open :
      (name : Text) (path : List Text) (st : Visit)
      → OnPath path st
      → OnPath (path ++ name ∷ []) (open_name name st)
  OnPath-open name path st h m =
      ground
        (arith, get-set st.state name m visiting, h m, has-snoc path name m, text_eq.beq_iff name m)

  OnPath-Later : (path : List Text) (s t : Visit) → Later nodes s t → OnPath path s → OnPath path t
  OnPath-Later path s t l h m =
      (λ v. (h m).0 ((l.open_iff m).0 v), λ v. (l.open_iff m).1 ((h m).1 v))

  IsTraced : ℕ → Type 0
  IsTraced fuel =
      (name : Text) (path : List Text) (st : Visit) (names : List Text)
      → Ordered nodes st
      → OnPath path st
      → Chain nodes (path ++ name ∷ [])
      → visit nodes fuel name path st ≡ err (cycle names)
      → IsCycle nodes names

  visit_new-cycle :
      (fuel : ℕ) (name : Text) (path : List Text) (st : Visit) (names : List Text)
      → IsTraced fuel
      → Ordered nodes st
      → OnPath path st
      → Chain nodes (path ++ name ∷ [])
      → get st.state name ≡ none
      → visit nodes (suc fuel) name path st ≡ err (cycle names)
      → IsCycle nodes names
  unfolding IsTraced
  visit_new-cycle fuel name path st names ih o h c e run =
      let (dep, mid, is_dep, o', later, thrown) =
        visit_new-err nodes fuel name path st (cycle names) o e run in
      ih dep (path ++ name ∷ []) mid names o'
        (OnPath-Later (path ++ name ∷ []) (open_name name st) mid later
          (OnPath-open name path st h))
        (Chain-snoc nodes path name dep c is_dep) thrown

  visit-IsTraced : (fuel : ℕ) → IsTraced fuel
  unfolding visit IsTraced
  visit-IsTraced zero name path st names o h c run = cc
  visit-IsTraced (suc fuel) name path st names o h c run = elim (Option-cases (get st.state name)) [
    | inl e ↦ visit_new-cycle fuel name path st names (visit-IsTraced fuel) o h c e run
    | inr (visiting, e) ↦ record {
      path = path;
      last = name;
      split = cc (visit_cycle nodes fuel name path st e);
      chain = c;
      repeats = (h name).0 e;
    }
    | inr (done, e) ↦ cc (visit_done nodes fuel name path st e)
  ]

-- What is reported as a cycle is one.
pub topo_sort-IsCycle :
    (nodes : Map Text GraphNode) (names : List Text)
    → topo_sort nodes ≡ err (cycle names)
    → IsCycle nodes names
unfolding IsTraced get
topo_sort-IsCycle nodes names run =
    let (name, mid, _, o, later, thrown) = topo_sort-err nodes (cycle names) run in
    visit-IsTraced nodes (suc (length (keys nodes))) name [] mid names o
      (OnPath-Later nodes [] start mid later (λ m. (λ h. cc, λ h. cc))) tt thrown
