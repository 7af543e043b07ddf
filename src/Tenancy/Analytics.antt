-- ===== src/Tenancy/Analytics.antt =====
-- apps/server/src/tenancy: analytics.ts, and aggregateProvenanceForOrg of memory-store.ts. A cost is a
-- whole number of 10 ^ -12 dollars, where the code has a double; `localeCompare` is an argument.
pub mod Totals
use makedown.Base.{
  text_ltb, ℕ, zero, suc, ◌+◌, ◌*◌, ◌/◌, Text, text_eq, nat_eq, lit, Bool, true, false, not, ◌&&◌,
  ◌||◌, ◌==◌, ltb, leb, Option, none, some, or_default, List, [], ◌∷◌, take, filterb, if◌then◌else◌,
}
use makedown.Base.Map.{Map, get, set, values}
use makedown.Tenancy.Store.{ProvenanceRow, Store}

pub record AnalyticsRange : Type 0 where
  pub from : Option Text
  pub to : Option Text

pub record AnalyticsBucket : Type 0 where
  pub key : Text
  pub tokens_input : ℕ
  pub tokens_output : ℕ
  pub cost_usd : ℕ
  pub runs : ℕ

pub record AnalyticsTotals : Type 0 where
  pub tokens_input : ℕ
  pub tokens_output : ℕ
  pub cost_usd : ℕ
  pub runs : ℕ

pub record AnalyticsBreakdowns : Type 0 where
  pub totals : AnalyticsTotals
  pub by_workspace : List AnalyticsBucket
  pub by_model : List AnalyticsBucket
  pub by_target : List AnalyticsBucket
  pub by_day : List AnalyticsBucket

abbrev pub no_model_key : Text
no_model_key = lit "(none)"

abbrev pub from_bound : Option Text → Text → Bool
from_bound none at = true
from_bound (some from) at = not (text_ltb at from)

abbrev pub to_bound : Option Text → Text → Bool
to_bound none at = true
to_bound (some to) at = text_ltb at to

abbrev pub in_selection : Text → AnalyticsRange → ProvenanceRow → Bool
in_selection org_id range r =
    r.org_id == org_id && from_bound range.from r.produced_at && to_bound range.to r.produced_at

abbrev pub no_totals : AnalyticsTotals
no_totals = record { tokens_input = 0; tokens_output = 0; cost_usd = 0; runs = 0 }

-- To six decimals of a dollar, `Math.round` going up at a half.
abbrev pub round6 : ℕ → ℕ
round6 value = (value + 500000) / 1000000 * 1000000

abbrev pub empty_bucket : Text → AnalyticsBucket
empty_bucket key = record { key = key; tokens_input = 0; tokens_output = 0; cost_usd = 0; runs = 0 }

abbrev pub with_row : Text → AnalyticsBucket → ProvenanceRow → AnalyticsBucket
with_row key b r = record {
  key = key;
  tokens_input = b.tokens_input + r.tokens_input;
  tokens_output = b.tokens_output + r.tokens_output;
  cost_usd = round6 (b.cost_usd + r.cost_usd);
  runs = b.runs + 1;
}

abbrev pub Buckets : Type 0
Buckets = Map Text AnalyticsBucket

unfoldable pub fold : Buckets → Text → ProvenanceRow → Buckets
fold acc key r = set acc key (with_row key (or_default (get acc key) (empty_bucket key)) r)

-- The loop over the rows, for one of the four keys, and for the totals.
unfoldable pub fold_rows : (ProvenanceRow → Text) → Buckets → List ProvenanceRow → Buckets
fold_rows key acc [] = acc
fold_rows key acc (r ∷ rs) = fold_rows key (fold acc (key r) r) rs

unfoldable pub total_rows : AnalyticsTotals → List ProvenanceRow → AnalyticsTotals
total_rows t [] = t
total_rows t (r ∷ rs) =
    total_rows
      (record {
        tokens_input = t.tokens_input + r.tokens_input;
        tokens_output = t.tokens_output + r.tokens_output;
        cost_usd = round6 (t.cost_usd + r.cost_usd);
        runs = t.runs + 1;
      })
      rs

-- `sort`, which keeps the order of what compares as equal; `after x y` says that `x` goes behind `y`.
abbrev pub insert :
    (AnalyticsBucket → AnalyticsBucket → Bool)
    → AnalyticsBucket
    → List AnalyticsBucket
    → List AnalyticsBucket
insert after x [] = x ∷ []
insert after x (y ∷ ys) = let rest = insert after x ys in if after x y then y ∷ rest else x ∷ y ∷ ys

unfoldable pub sort_by :
    (AnalyticsBucket → AnalyticsBucket → Bool) → List AnalyticsBucket → List AnalyticsBucket
sort_by after [] = []
sort_by after (x ∷ xs) = insert after x (sort_by after xs)

abbrev pub by_cost_desc : AnalyticsBucket → AnalyticsBucket → Bool
by_cost_desc a b = ltb a.cost_usd b.cost_usd

-- `locale_after s t` is `s.localeCompare(t) > 0`.
module _ (locale_after : Text → Text → Bool) where
  unfoldable pub aggregate_rows : List ProvenanceRow → AnalyticsBreakdowns
  aggregate_rows rows =
      let buckets : (ProvenanceRow → Text) → List AnalyticsBucket =
        λ key. values (fold_rows key [] rows) in
      record {
        totals = total_rows no_totals rows;
        by_workspace = sort_by by_cost_desc (buckets (λ r. r.workspace_id));
        by_model = sort_by by_cost_desc (buckets (λ r. or_default r.model no_model_key));
        by_target = sort_by by_cost_desc (buckets (λ r. r.target));
        by_day = sort_by (λ a b. locale_after a.key b.key) (buckets (λ r. take 10 r.produced_at));
      }

  unfoldable pub aggregate_provenance_for_org : Store → Text → AnalyticsRange → AnalyticsBreakdowns
  aggregate_provenance_for_org s org_id range =
      aggregate_rows (filterb (in_selection org_id range) (values s.provenance))
