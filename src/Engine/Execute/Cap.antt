-- ===== src/Engine/Execute/Cap.antt =====
-- packages/engine/src/build.ts, executeMap: the cap on the fan-out bounds the completions asked for.
use makedown.Base.{
  ℕ, ◌+◌, ◌≤◌, Text, Option, none, some, List, [], ◌∷◌, length, length-append, Result, ok, err, ◌≡◌,
  refl, arith, or_default,
}
use makedown.Types.{TargetBlock, Provenance}
use makedown.Providers.Errors.{CompletionRequest}
use makedown.Engine.Cas.{Bytes}
use makedown.Engine.World.{World, Build, BuildError, lift, gets, continue, ◌>>=◌}
use makedown.Engine.World.Keeps.{Keeps, Keeps-modify, Keeps-lift, Keeps-asks, keeps_rules}
use makedown.Engine.Context.{Context, Provider, Outputs}
use makedown.Engine.Plan.{TargetPlan}
use makedown.Engine.Artifact.{
  complete, need_provider, render_prompt, render_some, render_system, put_object, write_output,
  record_provenance, store_artifact, request,
}
use makedown.Engine.Execute.Fanout.{
  Totals, no_totals, add_result, default_map_fanout_cap, map_item, map_items, map_provenance,
  check_fanout, execute_map,
}

-- An operation that asks for at most `n` completions, whether it returns or throws.
record Asks {A : Type 0} (n : ℕ) (m : Build A) : Type 0 where
  pub at : (w : World) → length (m w).1.completions ≤ length w.completions + n

Keeps-Asks :
    {A : Type 0} (m : Build A)
    → ((c : List CompletionRequest) → Keeps (λ w. w.completions ≡ c) m)
    → Asks 0 m
Keeps-Asks m k = record { at = λ w. ground (arith, (k w.completions).at w refl) }

Asks-continue :
    {A B : Type 0} (n k : ℕ) (r : Result BuildError A) (f : A → Build B) (w : World)
    → ((a : A) → r ≡ ok a → Asks n (f a))
    → length (continue r f w).1.completions ≤ length w.completions + n
Asks-continue n k (ok a) f w h = (h a refl).at w
Asks-continue n k (err e) f w h = omega arith

Asks-bind :
    {A B : Type 0} (n k : ℕ) (m : Build A) (f : A → Build B)
    → Asks n m
    → ((a : A) → Asks k (f a))
    → Asks (n + k) (m >>= f)
unfolding ◌>>=◌
Asks-bind n k m f am af = record {
  at = λ w. let (r, w') = m w in omega (arith, am.at w, Asks-continue k k r f w' (λ a e. af a));
}

module _ {A B : Type 0} (n : ℕ) where
  Asks-seq :
      (m : Build A) (f : A → Build B)
      → ((c : List CompletionRequest) → Keeps (λ w. w.completions ≡ c) m)
      → ((a : A) → Asks n (f a))
      → Asks n (m >>= f)
  Asks-seq m f k af = record {
    at = λ w. omega (arith, (Asks-bind 0 n m f (Keeps-Asks m k) af).at w);
  }

  Asks-lift :
      (r : Result BuildError A) (f : A → Build B)
      → ((a : A) → r ≡ ok a → Asks n (f a))
      → Asks n (lift r >>= f)
  unfolding ◌>>=◌ lift
  Asks-lift r f af = record { at = λ w. Asks-continue n n r f w af }

module _ (ctx : Context) where
  complete-Asks : (provider : Provider) (req : CompletionRequest) → Asks 1 (complete provider req)
  unfolding complete
  complete-Asks provider req = record {
    at = λ w. omega (arith, length-append w.completions (req ∷ []));
  }

  module _ (c : List CompletionRequest) where
    render_system-same :
        (t : TargetBlock) (outputs : Outputs) (item s : Option Text)
        → Keeps (λ w. w.completions ≡ c) (render_some ctx outputs item s)
    render_system-same t outputs item none = search keeps_rules
    render_system-same t outputs item (some s) = search keeps_rules

    store_artifact-same :
        (t : TargetBlock) (tp : TargetPlan) (content : Bytes) (p : World → Provenance)
        → Keeps (λ w. w.completions ≡ c) (store_artifact ctx t tp content p)
    unfolding store_artifact put_object write_output record_provenance
    store_artifact-same t tp content p = search (keeps_rules, Keeps-modify) depth 20

  map_item-Asks :
      (provider : Provider) (t : TargetBlock) (outputs : Outputs) (item : Text)
      → Asks 1 (map_item ctx provider t outputs item)
  unfolding map_item render_prompt render_system
  map_item-Asks provider t outputs item =
      Asks-seq 1 _ _ (λ c. Keeps-asks _)
        (λ prompt.
          Asks-seq 1 _ _ (λ c. render_system-same c t outputs (some item) _)
            (λ system. complete-Asks provider (request t system prompt)))

  map_items-Asks :
      (provider : Provider) (t : TargetBlock) (outputs : Outputs) (items : List Text) (acc : Totals)
      → Asks (length items) (map_items ctx provider t outputs items acc)
  unfolding map_items
  map_items-Asks provider t outputs [] acc = Keeps-Asks _ (λ c. search keeps_rules)
  map_items-Asks provider t outputs (item ∷ items) acc = record {
    at = λ w. omega (
      arith,
      (Asks-bind 1 (length items) _ _ (map_item-Asks provider t outputs item)
            (λ r. map_items-Asks provider t outputs items (add_result acc r))).at
          w,
    );
  }

  check_fanout-le :
      (t : TargetBlock) (items : List Text) (u : Unit {0})
      → check_fanout ctx t items ≡ ok u
      → length items ≤ or_default ctx.max_map_fanout default_map_fanout_cap
  unfolding check_fanout
  check_fanout-le t items u h = ground arith

  store_totals : TargetBlock → TargetPlan → Totals → Build (Unit {0})
  store_totals t tp totals = do
    duration ← gets ctx.duration
    store_artifact ctx t tp (ctx.encode (ctx.stringify totals.results))
        (map_provenance ctx t tp totals duration)

  capped-Asks :
      (t : TargetBlock) (tp : TargetPlan) (outputs : Outputs) (provider : Provider)
      (items : List Text)
      → length items ≤ or_default ctx.max_map_fanout default_map_fanout_cap
      → Asks
          (or_default ctx.max_map_fanout default_map_fanout_cap)
          (map_items ctx provider t outputs items no_totals >>= store_totals t tp)
  unfolding store_totals
  capped-Asks t tp outputs provider items within =
      let stored : (totals : Totals) → Asks 0 (store_totals t tp totals) =
        λ totals. Keeps-Asks _ (λ c. search (keeps_rules, store_artifact-same c)) in
      let all =
        Asks-bind (length items) 0 (map_items ctx provider t outputs items no_totals)
          (store_totals t tp) (map_items-Asks provider t outputs items no_totals) stored in
      record { at = λ v. omega (arith, within, all.at v) }

-- A map step asks for at most as many completions as the cap on the fan-out, whatever the list it
-- reads and whether it returns or throws.
pub execute_map-cap :
    (ctx : Context) (t : TargetBlock) (tp : TargetPlan) (outputs : Outputs) (w : World)
    → length (execute_map ctx t tp outputs w).1.completions
      ≤ length w.completions + or_default ctx.max_map_fanout default_map_fanout_cap
unfolding execute_map need_provider store_totals
execute_map-cap ctx t tp outputs w =
    let cap = or_default ctx.max_map_fanout default_map_fanout_cap in
    (Asks-seq cap _ _ (λ c. Keeps-lift _)
        λ provider.
          Asks-seq cap _ _ (λ c. Keeps-lift _)
            λ over.
              Asks-seq cap _ _ (λ c. Keeps-asks _)
                λ content. Asks-lift cap (check_fanout ctx t (ctx.parse_list content)) _ λ u within.
                  capped-Asks ctx t tp outputs provider (ctx.parse_list content)
                    (check_fanout-le ctx t (ctx.parse_list content) u within)).at
      w
