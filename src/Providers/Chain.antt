-- ===== src/Providers/Chain.antt =====
-- packages/providers/src/fallback.ts: the ordered candidate chain of a request.
pub mod Members
pub mod Sorted
use makedown.Base.{
  ℕ, suc, Text, text_eq, Bool, true, false, Option, none, some, List, [], ◌∷◌, ◌++◌, map, has, ltb,
  leb, nat_eq, ◌==◌, if◌then◌else◌,
}
use makedown.Types.{RoutePolicy, strict, cost_aware}
use makedown.Providers.Pricing.{blended_price}

pub record Entry : Type 0 where
  pub ref : Text
  pub index : ℕ
  pub price : Option ℕ

-- The comparator of the sort, as "not behind": no price stands for an infinite one.
abbrev pub by_price : ℕ → ℕ → Option ℕ → Option ℕ → Bool
by_price i j (some p) (some q) = if p == q then leb i j else ltb p q
by_price i j (some p) none = true
by_price i j none (some q) = false
by_price i j none none = leb i j

abbrev pub not_behind : Entry → Entry → Bool
not_behind a b = by_price a.index b.index a.price b.price

abbrev pub entries_from : (Text → Option ℕ) → ℕ → List Text → List Entry
entries_from price i [] = []
entries_from price i (ref ∷ refs) =
    record { ref = ref; index = i; price = price ref } ∷ entries_from price (suc i) refs

-- `Array.prototype.sort`: the comparator orders all entries, so every sort gives the same list.
unfoldable pub insert_entry : Entry → List Entry → List Entry
insert_entry a [] = a ∷ []
insert_entry a (b ∷ bs) =
    let rest = insert_entry a bs in if not_behind a b then a ∷ b ∷ bs else b ∷ rest

unfoldable pub sort_entries : List Entry → List Entry
sort_entries [] = []
sort_entries (a ∷ as') = insert_entry a (sort_entries as')

unfoldable pub sort_by_cost : List Text → Text → List Text
unfolding sort_entries insert_entry
sort_by_cost refs default_provider =
    map (λ e. e.ref)
      (sort_entries (entries_from (λ ref. blended_price ref default_provider) 0 refs))

-- The loop of `dedupe`. The set `seen` holds just what `out` holds, so it is read off it.
abbrev pub dedupe_from : List Text → List Text → List Text
dedupe_from out [] = out
dedupe_from out (ref ∷ refs) = dedupe_from (if has out ref then out else out ++ ref ∷ []) refs

unfoldable pub dedupe : List Text → List Text
dedupe refs = dedupe_from [] refs

abbrev pub alternatives : Option (List Text) → List Text
alternatives none = []
alternatives (some refs) = refs

abbrev pub ordered_alternatives : List Text → Option RoutePolicy → Text → List Text
ordered_alternatives refs (some cost_aware) default_provider = sort_by_cost refs default_provider
ordered_alternatives refs _ default_provider = refs

unfoldable pub build_chain : Text → Option (List Text) → Option RoutePolicy → Text → List Text
unfolding dedupe sort_by_cost
build_chain model fallback route default_provider =
    dedupe (model ∷ ordered_alternatives (alternatives fallback) route default_provider)
