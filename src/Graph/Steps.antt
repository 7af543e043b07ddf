-- ===== src/Graph/Steps.antt =====
-- What one call of `visit` does, case by case.
use makedown.Base.{
  ℕ, suc, Text, text_eq, none, some, List, [], ◌∷◌, ◌++◌, ◌≡◌, Result, ok, err, ◌>>=◌, for_each,
}
use makedown.Base.Map.{Map, get}
use makedown.Graph.{
  GraphNode, GraphError, cycle, visiting, done, Visit, deps_of, open_name, close_name, visit,
}

module _ (nodes : Map Text GraphNode) (fuel : ℕ) (name : Text) (path : List Text) (st : Visit) where
  abbrev pub children : Result GraphError Visit
  children =
      for_each (λ dep s. visit nodes fuel dep (path ++ name ∷ []) s) (deps_of nodes name)
        (open_name name st)

  pub visit_done : get st.state name ≡ some done → visit nodes (suc fuel) name path st ≡ ok st
  unfolding visit
  visit_done e = rw (e, visit)

  pub visit_cycle :
      get st.state name ≡ some visiting
      → visit nodes (suc fuel) name path st ≡ err (cycle (path ++ name ∷ []))
  unfolding visit
  visit_cycle e = rw (e, visit)

  pub visit_new :
      get st.state name ≡ none
      → visit nodes (suc fuel) name path st ≡ (children >>= λ s. ok (close_name name s))
  unfolding visit
  visit_new e = rw (e, visit)
