-- ===== src/Graph/Order.antt =====
-- The topological order: a name stands behind its dependencies, and no name stands twice.
use makedown.Base.{
  ℕ, zero, suc, Text, text_eq, none, some, List, [], ◌∷◌, ◌++◌, ◌≡◌, refl, ◌||◌, ◌↔◌, false, true,
  ok, err, ◌>>=◌, >>=-eq-ok, ok-injective, for_each, Keeps, for_each-Keeps, for_each-err,
  map-eq-err, All-has, length, All, All-of, has, has-snoc, Option-cases, eq_refl, inl, inr, sym,
  ◌∙◌, arith,
}
use makedown.Base.Map.{Map, get, get-set, keys}
use makedown.Graph.{
  GraphNode, GraphError, visiting, done, Visit, deps_of, open_name, close_name, visit, start,
  topo_sort,
}
use makedown.Graph.Steps.{visit_done, visit_cycle, visit_new, children}

-- Read from the left: each name is new, and its dependencies have been read before it.
abbrev pub DepsFirst : Map Text GraphNode → List Text → List Text → Type 0
DepsFirst nodes seen [] = Unit
DepsFirst nodes seen (name ∷ rest) =
    (has seen name ≡ false)
    × All (λ d. has seen d ≡ true) (deps_of nodes name)
    × DepsFirst nodes (name ∷ seen) rest

DepsFirst-snoc :
    (nodes : Map Text GraphNode) (seen xs : List Text) (name : Text)
    → DepsFirst nodes seen xs
    → has seen name ≡ false
    → has xs name ≡ false
    → All (λ d. (has seen d || has xs d) ≡ true) (deps_of nodes name)
    → DepsFirst nodes seen (xs ++ name ∷ [])
DepsFirst-snoc nodes seen [] name h new absent deps =
    (new, All-of _ _ (λ d e. ground arith) (deps_of nodes name) deps, tt)
DepsFirst-snoc nodes seen (x ∷ xs) name h new absent deps = (
  h.0,
  h.1,
  DepsFirst-snoc nodes (x ∷ seen) xs name h.2 (ground arith) (ground arith)
      (All-of _ _ (λ d e. ground arith) (deps_of nodes name) deps),
)

module _ (nodes : Map Text GraphNode) where
  pub record Ordered (st : Visit) : Type 0 where
    pub ordered : DepsFirst nodes [] st.order
    pub done_iff : (m : Text) → (get st.state m ≡ some done) ↔ (has st.order m ≡ true)

  -- What a call of `visit` leaves alone.
  pub record Later (s t : Visit) : Type 0 where
    pub kept : (m : Text) → get s.state m ≡ some done → get t.state m ≡ some done
    pub open_iff : (m : Text) → (get t.state m ≡ some visiting) ↔ (get s.state m ≡ some visiting)

  abbrev pub IsDone : Text → Visit → Type 0
  IsDone name s = get s.state name ≡ some done

  Later-trans : (s t u : Visit) → Later s t → Later t u → Later s u
  Later-trans s t u a b = record {
    kept = λ m h. b.kept m (a.kept m h);
    open_iff = λ m.
        (λ h. (a.open_iff m).0 ((b.open_iff m).0 h), λ h. (b.open_iff m).1 ((a.open_iff m).1 h));
  }

  Later-refl : (s : Visit) → Later s s
  Later-refl s = record { kept = λ m h. h; open_iff = λ m. (λ h. h, λ h. h) }

  pub Ordered-open :
      (name : Text) (st : Visit)
      → get st.state name ≡ none
      → Ordered st
      → Ordered (open_name name st)
  Ordered-open name st e h = record {
    ordered = h.ordered;
    done_iff =
        λ m. ground (arith, get-set st.state name m visiting, h.done_iff m, text_eq.beq_iff name m);
  }

  Ordered-close :
      (name : Text) (st : Visit)
      → get st.state name ≡ some visiting
      → All (λ d. get st.state d ≡ some done) (deps_of nodes name)
      → Ordered st
      → Ordered (close_name name st)
  Ordered-close name st e deps h = record {
    ordered =
        DepsFirst-snoc nodes [] st.order name h.ordered refl (ground (arith, h.done_iff name))
          (All-of _ _ (λ d e. (h.done_iff d).0 e) (deps_of nodes name) deps);
    done_iff = λ m. ground (
      arith,
      get-set st.state name m done,
      h.done_iff m,
      text_eq.beq_iff name m,
      has-snoc st.order name m,
    );
  }

  -- A whole visit of a new name, around the visits of its dependencies.
  Later-visit :
      (name : Text) (st mid : Visit)
      → get st.state name ≡ none
      → Later (open_name name st) mid
      → Later st (close_name name mid)
  Later-visit name st mid e l = record {
    kept = λ m h. ground (
      arith,
      get-set mid.state name m done,
      get-set st.state name m visiting,
      text_eq.beq_iff name m,
      l.kept m,
    );
    open_iff = λ m. ground (
      arith,
      get-set mid.state name m done,
      get-set st.state name m visiting,
      text_eq.beq_iff name m,
      l.open_iff m,
    );
  }

  abbrev pub IsSound : ℕ → Type 0
  IsSound fuel =
      (name : Text) (path : List Text) (st st' : Visit)
      → Ordered st
      → visit nodes fuel name path st ≡ ok st'
      → Ordered st' × Later st st' × IsDone name st'

  pub loop_sound :
      (fuel : ℕ) (path : List Text)
      → IsSound fuel
      → Keeps Ordered Later IsDone (λ dep s. visit nodes fuel dep path s)
  loop_sound fuel path ih = record {
    round = λ name s t h e. ih name path s t h e;
    same = Later-refl;
    trans = Later-trans;
    lasts = λ name s t h l. l.kept name h;
  }

  visit_new-Ordered :
      (fuel : ℕ) (name : Text) (path : List Text) (st st' : Visit)
      → IsSound fuel
      → get st.state name ≡ none
      → Ordered st
      → (children nodes fuel name path st >>= λ s. ok (close_name name s)) ≡ ok st'
      → Ordered st' × Later st st' × IsDone name st'
  visit_new-Ordered fuel name path st st' ih e h run =
      let (mid, looped, closed) = >>=-eq-ok (children nodes fuel name path st) _ run in
      let (ordered, later, deps) =
        for_each-Keeps Ordered Later IsDone _ (loop_sound fuel (path ++ name ∷ []) ih)
          (deps_of nodes name) (open_name name st) mid (Ordered-open name st e h) looped in
      let still_open =
        (later.open_iff name).1
          (ground (arith, get-set st.state name name visiting, eq_refl name)) in
      rw (← (ok-injective closed)) (
        Ordered-close name mid still_open deps ordered,
        Later-visit name st mid e later,
        ground (arith, get-set mid.state name name done, eq_refl name),
      )

  pub visit-Ordered : (fuel : ℕ) → IsSound fuel
  unfolding visit
  visit-Ordered zero name path st st' h run = cc
  visit-Ordered (suc fuel) name path st st' h run = elim (Option-cases (get st.state name)) [
    | inl e ↦
        visit_new-Ordered fuel name path st st' (visit-Ordered fuel) e h
          (sym (visit_new nodes fuel name path st e) ∙ run)
    | inr (visiting, e) ↦ cc (visit_cycle nodes fuel name path st e)
    | inr (done, e) ↦
        let same = ok-injective (sym (visit_done nodes fuel name path st e) ∙ run) in
        rw (← same) (h, Later-refl st, e)
  ]

  pub Ordered-start : Ordered start
  unfolding get
  Ordered-start = record { ordered = tt; done_iff = λ m. (λ h. cc, λ h. cc) }

module _ (nodes : Map Text GraphNode) where
  -- A visit of a new name that throws does so in the visit of a dependency.
  pub visit_new-err :
      (fuel : ℕ) (name : Text) (path : List Text) (st : Visit) (thrown : GraphError)
      → Ordered nodes st
      → get st.state name ≡ none
      → visit nodes (suc fuel) name path st ≡ err thrown
      → (dep : Text) × (mid : Visit) × (has (deps_of nodes name) dep ≡ true)
        × Ordered nodes mid
        × Later nodes (open_name name st) mid
        × (visit nodes fuel dep (path ++ name ∷ []) mid ≡ err thrown)
  visit_new-err fuel name path st thrown o e run =
      for_each-err (Ordered nodes) (Later nodes) (IsDone nodes)
        (λ dep. has (deps_of nodes name) dep ≡ true) _
        (loop_sound nodes fuel (path ++ name ∷ []) (visit-Ordered nodes fuel)) (deps_of nodes name)
        (open_name name st) thrown (Ordered-open nodes name st e o)
        (All-has (deps_of nodes name) (deps_of nodes name) (λ a h. h))
        (map-eq-err (children nodes fuel name path st) _
          (sym (visit_new nodes fuel name path st e) ∙ run))

  pub topo_sort-err :
      (thrown : GraphError)
      → topo_sort nodes ≡ err thrown
      → (name : Text) × (mid : Visit) × (has (keys nodes) name ≡ true)
        × Ordered nodes mid
        × Later nodes start mid
        × (visit nodes (suc (length (keys nodes))) name [] mid ≡ err thrown)
  unfolding topo_sort
  topo_sort-err thrown run =
      let fuel = suc (length (keys nodes)) in
      for_each-err (Ordered nodes) (Later nodes) (IsDone nodes)
        (λ name. has (keys nodes) name ≡ true) _
        (loop_sound nodes fuel [] (visit-Ordered nodes fuel)) (keys nodes) start thrown
        (Ordered-start nodes) (All-has (keys nodes) (keys nodes) (λ a h. h))
        (map-eq-err (for_each (λ name s. visit nodes fuel name [] s) (keys nodes) start) _ run)

-- A sorted order lists every node, each behind the nodes it depends on, and nothing twice.
pub topo_sort-DepsFirst :
    (nodes : Map Text GraphNode) (order : List Text)
    → topo_sort nodes ≡ ok order
    → DepsFirst nodes [] order × All (λ name. has order name ≡ true) (keys nodes)
unfolding topo_sort
topo_sort-DepsFirst nodes order run =
    let fuel = suc (length (keys nodes)) in
    let (last, looped, e) =
      >>=-eq-ok (for_each (λ name s. visit nodes fuel name [] s) (keys nodes) start) _ run in
    let (ordered, _, all_done) =
      for_each-Keeps (Ordered nodes) (Later nodes) (IsDone nodes) _
        (loop_sound nodes fuel [] (visit-Ordered nodes fuel)) (keys nodes) start last
        (Ordered-start nodes) looped in
    rw (← (ok-injective e))
      (ordered.ordered, All-of _ _ (λ name. (ordered.done_iff name).0) (keys nodes) all_done)
