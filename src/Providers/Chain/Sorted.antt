-- ===== src/Providers/Chain/Sorted.antt =====
-- The order of the fallbacks under `route: cost-aware`.
use mathlib.Core.List.{Perm}
use mathlib.Core.List.Perm
use makedown.Base.{
  ℕ, ◌≤◌, ◌<◌, ◌⊎◌, Text, text_eq, true, false, Option, none, some, List, [], ◌∷◌, map, ◌≡◌, refl,
  All, All-of, Bool-cases, inl, inr, arith,
}
use makedown.Providers.Pricing.{blended_price}
use makedown.Providers.Chain.{
  Entry, by_price, not_behind, entries_from, insert_entry, sort_entries, sort_by_cost,
}

by_price_total : (i j : ℕ) (p q : Option ℕ) → by_price i j p q ≡ false → by_price j i q p ≡ true
by_price_total i j (some p) (some q) h = ground arith
by_price_total i j (some p) none h = ground arith
by_price_total i j none (some q) h = refl
by_price_total i j none none h = ground arith

by_price_trans :
    (i j k : ℕ) (p q r : Option ℕ)
    → by_price i j p q ≡ true
    → by_price j k q r ≡ true
    → by_price i k p r ≡ true
by_price_trans i j k (some p) (some q) (some r) h g = ground arith
by_price_trans i j k (some p) (some q) none h g = refl
by_price_trans i j k (some p) none (some r) h g = ground arith
by_price_trans i j k (some p) none none h g = refl
by_price_trans i j k none (some q) r h g = ground arith
by_price_trans i j k none none (some r) h g = ground arith
by_price_trans i j k none none none h g = ground arith

-- What may stand in front: a price that is not higher, a known price in front of none, and the earlier
-- place where the prices are equal or both unknown.
abbrev pub InFront : ℕ → ℕ → Option ℕ → Option ℕ → Type 0
InFront i j (some p) (some q) = (p ≤ q) × ((p < q) ⊎ (i ≤ j))
InFront i j (some p) none = Unit
InFront i j none (some q) = ⊥
InFront i j none none = i ≤ j

by_price-InFront : (i j : ℕ) (p q : Option ℕ) → by_price i j p q ≡ true → InFront i j p q
by_price-InFront i j (some p) (some q) h = ground arith
by_price-InFront i j (some p) none h = tt
by_price-InFront i j none (some q) h = cc
by_price-InFront i j none none h = ground arith

-- No entry stands in front of one that the comparator puts before it.
abbrev IsSorted : List Entry → Type 0
IsSorted [] = Unit
IsSorted (a ∷ es) = All (λ b. not_behind a b ≡ true) es × IsSorted es

All-insert_entry :
    (c a : Entry) (es : List Entry)
    → not_behind c a ≡ true
    → All (λ b. not_behind c b ≡ true) es
    → All (λ b. not_behind c b ≡ true) (insert_entry a es)
unfolding insert_entry
All-insert_entry c a [] h k = (h, tt)
All-insert_entry c a (b ∷ bs) h k = elim (Bool-cases (not_behind a b)) [
  | inl front ↦ rw front (h, (k.0, k.1))
  | inr behind ↦ rw behind (k.0, All-insert_entry c a bs h k.1)
]

insert_entry-IsSorted : (a : Entry) (es : List Entry) → IsSorted es → IsSorted (insert_entry a es)
unfolding insert_entry
insert_entry-IsSorted a [] h = (tt, tt)
insert_entry-IsSorted a (b ∷ bs) h = elim (Bool-cases (not_behind a b)) [
  | inl front ↦ rw front (
    (
      front,
      All-of _ _ (λ c bc. by_price_trans a.index b.index c.index a.price b.price c.price front bc)
          bs h.0,
    ),
    h,
  )
  | inr behind ↦ rw behind (
    All-insert_entry b a bs (by_price_total a.index b.index a.price b.price behind) h.0,
    insert_entry-IsSorted a bs h.1,
  )
]

sort_entries-IsSorted : (es : List Entry) → IsSorted (sort_entries es)
unfolding sort_entries
sort_entries-IsSorted [] = tt
sort_entries-IsSorted (a ∷ es) =
    insert_entry-IsSorted a (sort_entries es) (sort_entries-IsSorted es)

insert_entry-perm : (a : Entry) (es : List Entry) → Perm (insert_entry a es) (a ∷ es)
unfolding insert_entry
insert_entry-perm a [] = Perm.refl _
insert_entry-perm a (b ∷ bs) = elim (Bool-cases (not_behind a b)) [
  | inl front ↦ rw front (Perm.refl _)
  | inr behind ↦ rw behind (Perm.trans (Perm.cons b (insert_entry-perm a bs)) (Perm.swap _ _ _))
]

sort_entries-perm : (es : List Entry) → Perm (sort_entries es) es
unfolding sort_entries
sort_entries-perm [] = Perm.refl _
sort_entries-perm (a ∷ es) =
    Perm.trans (insert_entry-perm a (sort_entries es)) (Perm.cons a (sort_entries-perm es))

-- Every entry may stand in front of all that are behind it.
abbrev pub IsCheapestFirst : List Entry → Type 0
IsCheapestFirst [] = Unit
IsCheapestFirst (a ∷ es) =
    All (λ b. InFront a.index b.index a.price b.price) es × IsCheapestFirst es

IsSorted-IsCheapestFirst : (es : List Entry) → IsSorted es → IsCheapestFirst es
IsSorted-IsCheapestFirst [] h = tt
IsSorted-IsCheapestFirst (a ∷ es) (here, rest) = (
  All-of _ _ (λ b. by_price-InFront a.index b.index a.price b.price) es here,
  IsSorted-IsCheapestFirst es rest,
)

-- The sort only reorders the references with their prices and places; a cheaper one comes first,
-- an unpriced one last, and among equal prices the one that is declared first.
pub sort_by_cost_lem :
    (refs : List Text) (p : Text)
    → (es : List Entry) × (sort_by_cost refs p ≡ map (λ e. e.ref) es)
      × Perm es (entries_from (λ ref. blended_price ref p) 0 refs)
      × IsCheapestFirst es
unfolding sort_by_cost
sort_by_cost_lem refs p =
    let es = entries_from (λ ref. blended_price ref p) 0 refs in
    (
      sort_entries es,
      refl,
      sort_entries-perm es,
      IsSorted-IsCheapestFirst (sort_entries es) (sort_entries-IsSorted es),
    )
