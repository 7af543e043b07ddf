-- ===== src/Tenancy/Analytics/Totals.antt =====
-- The buckets of each breakdown add up to the totals.
use makedown.Base.{
  ℕ, ◌+◌, ◌%◌, All, Text, text_eq, Bool, ◌==◌, or_default, List, [], ◌∷◌, take, length, filterb,
  ◌≡◌, refl, arith, Bool-cases, inl, inr,
}
use makedown.Base.Map.{get, set, values}
use makedown.Tenancy.Store.{ProvenanceRow, Store}
use makedown.Tenancy.Analytics.{
  AnalyticsRange, AnalyticsBucket, AnalyticsTotals, empty_bucket, with_row, Buckets, fold,
  fold_rows, total_rows, no_totals, round6, insert, sort_by, by_cost_desc, no_model_key,
  in_selection, aggregate_rows, aggregate_provenance_for_org,
}

abbrev pub sum : (AnalyticsBucket → ℕ) → List AnalyticsBucket → ℕ
sum f [] = 0
sum f (b ∷ bs) = f b + sum f bs

abbrev pub sum_rows : (ProvenanceRow → ℕ) → List ProvenanceRow → ℕ
sum_rows g [] = 0
sum_rows g (r ∷ rs) = g r + sum_rows g rs

-- A sum that was rounded, as every sum is from the start: rounding it with one more cost rounds the cost.
abbrev IsRounded : ℕ → Type 0
IsRounded n = n % 1000000 ≡ 0

round6-IsRounded : (n : ℕ) → IsRounded (round6 n)
round6-IsRounded n = omega arith

round6-add : (n c : ℕ) → IsRounded n → round6 (n + c) ≡ n + round6 c
round6-add n c h = omega (arith, h)

-- One measure of a bucket, what a row adds to it, and what holds of every bucket that rows were added to.
module _ (f : AnalyticsBucket → ℕ) (g : ProvenanceRow → ℕ) (P : AnalyticsBucket → Type 0)
    (P_empty : (k : Text) → P (empty_bucket k))
    (P_row : (k : Text) (b : AnalyticsBucket) (r : ProvenanceRow) → P (with_row k b r))
    (f_empty : (k : Text) → f (empty_bucket k) ≡ 0)
    (f_row : (k : Text) (b : AnalyticsBucket) (r : ProvenanceRow)
      → P b
      → f (with_row k b r) ≡ f b + g r) where
  fold-P :
      (acc : Buckets) (k : Text) (r : ProvenanceRow)
      → All P (values acc)
      → All P (values (fold acc k r))
  unfolding fold get set
  fold-P [] k r h = (P_row k (empty_bucket k) r, tt)
  fold-P ((j, b) ∷ acc) k r h = elim (Bool-cases (j == k)) [
    | inl same ↦ rw same (P_row k b r, h.1)
    | inr other ↦ rw other (h.0, fold-P acc k r h.1)
  ]

  sum-fold :
      (acc : Buckets) (k : Text) (r : ProvenanceRow)
      → All P (values acc)
      → sum f (values (fold acc k r)) ≡ sum f (values acc) + g r
  unfolding fold get set
  sum-fold [] k r h = ground (arith, f_empty k, f_row k (empty_bucket k) r (P_empty k))
  sum-fold ((j, b) ∷ acc) k r h = elim (Bool-cases (j == k)) [
    | inl same ↦ rw same ground (arith, f_row k b r h.0)
    | inr other ↦ rw other ground (arith, sum-fold acc k r h.1)
  ]

  sum-fold_rows :
      (key : ProvenanceRow → Text) (acc : Buckets) (rs : List ProvenanceRow)
      → All P (values acc)
      → sum f (values (fold_rows key acc rs)) ≡ sum f (values acc) + sum_rows g rs
  unfolding fold_rows
  sum-fold_rows key acc [] h = omega arith
  sum-fold_rows key acc (r ∷ rs) h = omega (
    arith,
    sum-fold_rows key (fold acc (key r) r) rs (fold-P acc (key r) r h),
    sum-fold acc (key r) r h,
  )

sum-insert :
    (f : AnalyticsBucket → ℕ) (after : AnalyticsBucket → AnalyticsBucket → Bool)
    (b : AnalyticsBucket) (bs : List AnalyticsBucket)
    → sum f (insert after b bs) ≡ f b + sum f bs
sum-insert f after b [] = refl
sum-insert f after b (c ∷ bs) = ground (arith, sum-insert f after b bs)

sum-sort_by :
    (f : AnalyticsBucket → ℕ) (after : AnalyticsBucket → AnalyticsBucket → Bool)
    (bs : List AnalyticsBucket)
    → sum f (sort_by after bs) ≡ sum f bs
unfolding sort_by
sum-sort_by f after [] = refl
sum-sort_by f after (b ∷ bs) =
    omega (arith, sum-insert f after b (sort_by after bs), sum-sort_by f after bs)

abbrev pub one : ProvenanceRow → ℕ
one r = 1

-- What the rows of a selection come to.
abbrev pub Totals : AnalyticsTotals → List ProvenanceRow → Type 0
Totals t rs =
    (t.tokens_input ≡ sum_rows (λ r. r.tokens_input) rs)
    × (t.tokens_output ≡ sum_rows (λ r. r.tokens_output) rs)
    × (t.cost_usd ≡ sum_rows (λ r. round6 r.cost_usd) rs)
    × (t.runs ≡ length rs)

-- The buckets add up to the totals in every measure.
abbrev pub AddsUp : AnalyticsTotals → List AnalyticsBucket → Type 0
AddsUp t bs =
    (sum (λ b. b.tokens_input) bs ≡ t.tokens_input)
    × (sum (λ b. b.tokens_output) bs ≡ t.tokens_output)
    × (sum (λ b. b.cost_usd) bs ≡ t.cost_usd)
    × (sum (λ b. b.runs) bs ≡ t.runs)

total_rows_lem :
    (t : AnalyticsTotals) (rs : List ProvenanceRow)
    → IsRounded t.cost_usd
    → ((total_rows t rs).tokens_input ≡ t.tokens_input + sum_rows (λ r. r.tokens_input) rs)
      × ((total_rows t rs).tokens_output ≡ t.tokens_output + sum_rows (λ r. r.tokens_output) rs)
      × ((total_rows t rs).cost_usd ≡ t.cost_usd + sum_rows (λ r. round6 r.cost_usd) rs)
      × ((total_rows t rs).runs ≡ t.runs + sum_rows one rs)
unfolding total_rows
total_rows_lem t [] h = (omega arith, omega arith, omega arith, omega arith)
total_rows_lem t (r ∷ rs) h =
    let (a, b, c, d) =
      total_rows_lem
        (record {
          tokens_input = t.tokens_input + r.tokens_input;
          tokens_output = t.tokens_output + r.tokens_output;
          cost_usd = round6 (t.cost_usd + r.cost_usd);
          runs = t.runs + 1;
        })
        rs (round6-IsRounded (t.cost_usd + r.cost_usd)) in
    (omega arith, omega arith, omega (arith, c, round6-add t.cost_usd r.cost_usd h), omega arith)

sum_rows-one : (rs : List ProvenanceRow) → sum_rows one rs ≡ length rs
sum_rows-one [] = refl
sum_rows-one (r ∷ rs) = omega (arith, sum_rows-one rs)

-- A sorted breakdown by any key adds up.
breakdown-AddsUp :
    (key : ProvenanceRow → Text) (after : AnalyticsBucket → AnalyticsBucket → Bool)
    (rs : List ProvenanceRow)
    → AddsUp (total_rows no_totals rs) (sort_by after (values (fold_rows key [] rs)))
breakdown-AddsUp key after rs =
    let bs = values (fold_rows key [] rs) in
    let (a, b, c, d) = total_rows_lem no_totals rs refl in
    (
      omega (
        arith,
        sum-sort_by (λ b. b.tokens_input) after bs,
        sum-fold_rows (λ b. b.tokens_input) (λ r. r.tokens_input) (λ _. Unit) (λ k. tt)
            (λ k b r. tt) (λ k. refl) (λ k b r h. refl) key [] rs tt,
      ),
      omega (
        arith,
        sum-sort_by (λ b. b.tokens_output) after bs,
        sum-fold_rows (λ b. b.tokens_output) (λ r. r.tokens_output) (λ _. Unit) (λ k. tt)
            (λ k b r. tt) (λ k. refl) (λ k b r h. refl) key [] rs tt,
      ),
      omega (
        arith,
        sum-sort_by (λ b. b.cost_usd) after bs,
        sum-fold_rows (λ b. b.cost_usd) (λ r. round6 r.cost_usd) (λ b. IsRounded b.cost_usd)
            (λ k. refl) (λ k b r. round6-IsRounded (b.cost_usd + r.cost_usd)) (λ k. refl)
            (λ k b r h. round6-add b.cost_usd r.cost_usd h) key [] rs tt,
      ),
      omega (
        arith,
        sum-sort_by (λ b. b.runs) after bs,
        sum-fold_rows (λ b. b.runs) one (λ _. Unit) (λ k. tt) (λ k b r. tt) (λ k. refl)
            (λ k b r h. refl) key [] rs tt,
      ),
    )

pub aggregate_provenance_for_org-AddsUp :
    (locale_after : Text → Text → Bool) (s : Store) (org_id : Text) (range : AnalyticsRange)
    → let b = aggregate_provenance_for_org locale_after s org_id range in
      Totals b.totals (filterb (in_selection org_id range) (values s.provenance))
      × AddsUp b.totals b.by_workspace
      × AddsUp b.totals b.by_model
      × AddsUp b.totals b.by_target
      × AddsUp b.totals b.by_day
unfolding aggregate_provenance_for_org aggregate_rows
aggregate_provenance_for_org-AddsUp locale_after s org_id range =
    let rows = filterb (in_selection org_id range) (values s.provenance) in
    let (a, b, c, d) = total_rows_lem no_totals rows refl in
    (
      (omega arith, omega arith, omega arith, omega (arith, sum_rows-one rows)),
      breakdown-AddsUp (λ r. r.workspace_id) by_cost_desc rows,
      breakdown-AddsUp (λ r. or_default r.model no_model_key) by_cost_desc rows,
      breakdown-AddsUp (λ r. r.target) by_cost_desc rows,
      breakdown-AddsUp (λ r. take 10 r.produced_at) (λ a b. locale_after a.key b.key) rows,
    )
