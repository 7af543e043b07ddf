-- ===== src/Base/Map.antt =====
-- JavaScript's `Map`: entries in insertion order; setting a present key keeps its place.
use makedown.Base.Tests.{if◌then◌else◌, is_some, some_inj, Bool-cases}
use makedown.Base.Equality.{Eq, ◌==◌, eq_refl}
use makedown.Base.Lists.{has, All}
use mathlib.Core.Path.{◌≡◌, refl, sym, subst}
use mathlib.Core.Option.{Option, none, some}
use mathlib.Core.Logic.{inl, inr}
use mathlib.Core.List.{List, [], ◌∷◌}
use native.Mathlib.Omega.{arith}

abbrev pub Map {ℓ κ} : Type ℓ → Type κ → Type (ℓ ⊔ κ)
Map K V = List (K × V)

module _ {ℓ κ} {K : Type ℓ} {V : Type κ} where
  abbrev pub keys : Map K V → List K
  keys [] = []
  keys ((k, v) ∷ m) = k ∷ keys m

  abbrev pub values : Map K V → List V
  values [] = []
  values ((k, v) ∷ m) = v ∷ values m

module _ {ℓ κ} {K : Type ℓ} {V : Type κ} ⦃e : Eq K⦄ where
  unfoldable pub get : Map K V → K → Option V
  get [] k = none
  get ((j, v) ∷ m) k = let rest = get m k in if j == k then some v else rest

  unfoldable pub set : Map K V → K → V → Map K V
  set [] k v = (k, v) ∷ []
  set ((j, w) ∷ m) k v = let rest = set m k v in if j == k then (j, v) ∷ m else (j, w) ∷ rest

  unfoldable pub delete : Map K V → K → Map K V
  delete [] k = []
  delete ((j, w) ∷ m) k = let rest = delete m k in if j == k then rest else (j, w) ∷ rest

  pub get-set :
      (m : Map K V) (k j : K) (v : V) → get (set m k v) j ≡ (if k == j then some v else get m j)
  unfolding get set
  get-set [] k j v = refl
  get-set ((i, w) ∷ m) k j v =
      ground (arith, e.beq_iff k j, e.beq_iff i k, e.beq_iff i j, get-set m k j v)

  pub get-delete : (m : Map K V) (k j : K) → get (delete m k) j ≡ (if k == j then none else get m j)
  unfolding get delete
  get-delete [] k j = ground arith
  get-delete ((i, w) ∷ m) k j =
      ground (arith, e.beq_iff k j, e.beq_iff i k, e.beq_iff i j, get-delete m k j)

  pub get-set_self : (m : Map K V) (k : K) (v : V) → get (set m k v) k ≡ some v
  get-set_self m k v = ground (arith, get-set m k k v, eq_refl k)

  pub has-keys : (m : Map K V) (k : K) → has (keys m) k ≡ is_some (get m k)
  unfolding get
  has-keys [] k = refl
  has-keys ((j, v) ∷ m) k = ground (arith, has-keys m k)

-- Each key stands once, as in every map that `set` and `delete` build.
abbrev pub DistinctKeys {ℓ κ} : {K : Type ℓ} {V : Type κ} ⦃e : Eq K⦄ → Map K V → Type κ
DistinctKeys [] = Unit
DistinctKeys ((k, v) ∷ m) = (get m k ≡ none) × DistinctKeys m

module _ {ℓ κ} {K : Type ℓ} {V : Type κ} ⦃e : Eq K⦄ where
  pub set-DistinctKeys : (m : Map K V) (k : K) (v : V) → DistinctKeys m → DistinctKeys (set m k v)
  unfolding set get
  set-DistinctKeys [] k v d = (refl, tt)
  set-DistinctKeys ((j, w) ∷ m) k v d = elim (Bool-cases (j == k)) [
    | inl same ↦ rw same (d.0, d.1)
    | inr other ↦
        rw other (
          ground (arith, get-set m k j v, e.beq_iff k j, e.beq_iff j k),
          set-DistinctKeys m k v d.1,
        )
  ]

  -- What holds of every entry is kept by setting an entry of which it holds.
  pub All-set {μ} :
      (P : K → V → Type μ) (m : Map K V) (k : K) (v : V)
      → All (λ (j, w). P j w) m
      → P k v
      → All (λ (j, w). P j w) (set m k v)
  unfolding set
  All-set P [] k v h p = (p, tt)
  All-set P ((j, w) ∷ m) k v h p = elim (Bool-cases (j == k)) [
    | inl same ↦ rw same (subst (λ i. P i v) (sym ((e.beq_iff j k).0 same)) p, h.1)
    | inr other ↦ rw other (h.0, All-set P m k v h.1 p)
  ]

  pub All-get {μ} :
      (P : K → V → Type μ) (m : Map K V) (k : K) (v : V)
      → All (λ (j, w). P j w) m
      → get m k ≡ some v
      → P k v
  unfolding get
  All-get P [] k v h g = absurd (ground arith)
  All-get P ((j, w) ∷ m) k v h g = elim (Bool-cases (j == k)) [
    | inl same ↦
        subst (λ i. P i v) ((e.beq_iff j k).0 same) (subst (P j) (some_inj (rw same at g)) h.0)
    | inr other ↦ All-get P m k v h.1 (rw other at g)
  ]
