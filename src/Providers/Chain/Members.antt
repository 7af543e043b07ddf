-- ===== src/Providers/Chain/Members.antt =====
-- Which models a chain holds: the declared ones, each once, the primary first.
use makedown.Base.{
  ℕ, suc, Text, text_eq, false, Option, none, some, List, [], ◌∷◌, ◌++◌, map, has, has-snoc, ◌||◌,
  ◌==◌, ◌≡◌, refl, sym, ap, ◌∙◌, append-nil, if◌then◌else◌, Bool-cases, inl, inr, append_assoc,
  arith,
}
use makedown.Types.{RoutePolicy, strict, cost_aware}
use makedown.Providers.Pricing.{blended_price}
use makedown.Providers.Chain.{
  Entry, entries_from, insert_entry, sort_entries, sort_by_cost, dedupe_from, alternatives,
  ordered_alternatives, build_chain,
}

-- No element stands twice.
abbrev pub IsDistinct : List Text → Type 0
IsDistinct [] = Unit
IsDistinct (x ∷ xs) = (has xs x ≡ false) × IsDistinct xs

IsDistinct-snoc :
    (xs : List Text) (x : Text) → IsDistinct xs → has xs x ≡ false → IsDistinct (xs ++ x ∷ [])
IsDistinct-snoc [] x d h = (refl, tt)
IsDistinct-snoc (y ∷ ys) x d h = (
  ground (arith, has-snoc ys x y, text_eq.beq_iff x y, text_eq.beq_iff y x),
  IsDistinct-snoc ys x d.1 (ground arith),
)

dedupe_from-IsDistinct : (out refs : List Text) → IsDistinct out → IsDistinct (dedupe_from out refs)
dedupe_from-IsDistinct out [] d = d
dedupe_from-IsDistinct out (r ∷ refs) d = elim (Bool-cases (has out r)) [
  | inl old ↦ rw old (dedupe_from-IsDistinct out refs d)
  | inr new ↦ rw new (dedupe_from-IsDistinct (out ++ r ∷ []) refs (IsDistinct-snoc out r d new))
]

has-dedupe_from :
    (out refs : List Text) (a : Text) → has (dedupe_from out refs) a ≡ (has out a || has refs a)
has-dedupe_from out [] a = ground arith
has-dedupe_from out (r ∷ refs) a = ground (
  arith,
  has-dedupe_from (if has out r then out else out ++ r ∷ []) refs a,
  has-snoc out r a,
  text_eq.beq_iff r a,
)

-- What is there stays in front.
dedupe_from-prefix :
    (out refs : List Text) → (rest : List Text) × (dedupe_from out refs ≡ out ++ rest)
dedupe_from-prefix out [] = ([], sym (append-nil out))
dedupe_from-prefix out (r ∷ refs) = elim (Bool-cases (has out r)) [
  | inl old ↦ rw old (dedupe_from-prefix out refs)
  | inr new ↦
      let (rest, e) = dedupe_from-prefix (out ++ r ∷ []) refs in
      (r ∷ rest, rw new (e ∙ append_assoc out (r ∷ []) rest))
]

has-insert_entry :
    (a : Entry) (es : List Entry) (x : Text)
    → has (map (λ e. e.ref) (insert_entry a es)) x ≡ (a.ref == x || has (map (λ e. e.ref) es) x)
unfolding insert_entry
has-insert_entry a [] x = refl
has-insert_entry a (b ∷ bs) x = ground (arith, has-insert_entry a bs x)

has-sort_entries :
    (es : List Entry) (x : Text)
    → has (map (λ e. e.ref) (sort_entries es)) x ≡ has (map (λ e. e.ref) es) x
unfolding sort_entries
has-sort_entries [] x = refl
has-sort_entries (a ∷ es) x =
    ground (arith, has-insert_entry a (sort_entries es) x, has-sort_entries es x)

refs-entries_from :
    (price : Text → Option ℕ) (i : ℕ) (refs : List Text)
    → map (λ e. e.ref) (entries_from price i refs) ≡ refs
refs-entries_from price i [] = refl
refs-entries_from price i (r ∷ refs) = ap (λ t. r ∷ t) (refs-entries_from price (suc i) refs)

has-ordered_alternatives :
    (refs : List Text) (route : Option RoutePolicy) (p x : Text)
    → has (ordered_alternatives refs route p) x ≡ has refs x
unfolding sort_by_cost
has-ordered_alternatives refs none p x = refl
has-ordered_alternatives refs (some strict) p x = refl
has-ordered_alternatives refs (some cost_aware) p x =
    let price : Text → Option ℕ = λ ref. blended_price ref p in
    has-sort_entries (entries_from price 0 refs) x
    ∙ ap (λ l. has l x) (refs-entries_from price 0 refs)

-- A chain starts with the declared model, holds the declared model and fallbacks and nothing else,
-- and holds none twice, whatever the route.
pub build_chain_lem :
    (model : Text) (fallback : Option (List Text)) (route : Option RoutePolicy) (p : Text)
    → ((rest : List Text) × (build_chain model fallback route p ≡ model ∷ rest))
      × IsDistinct (build_chain model fallback route p)
      × ((x : Text)
          → has (build_chain model fallback route p) x
            ≡ (model == x || has (alternatives fallback) x))
unfolding build_chain
build_chain_lem model fallback route p =
    let alts = ordered_alternatives (alternatives fallback) route p in
    (
      dedupe_from-prefix (model ∷ []) alts,
      dedupe_from-IsDistinct [] (model ∷ alts) tt,
      λ x. ground (
        arith,
        has-dedupe_from [] (model ∷ alts) x,
        has-ordered_alternatives (alternatives fallback) route p x,
      ),
    )
