-- ===== src/Base/Lists.antt =====
-- Lists: native lengths, Boolean membership (`Array.includes`), and predicates on every element.
use Prim.Native.Nat.{ℕ, zero, suc, ◌+◌}
use mathlib.Core.Path.{◌≡◌, refl, subst}
use mathlib.Core.Logic.{◌↔◌, ◌⊎◌, inl, inr}
use mathlib.Core.Bool.{Bool, true, false, ◌||◌}
use mathlib.Core.Option.{Option, none, some}
use mathlib.Core.List.{List, [], ◌∷◌, ◌++◌, map}
use native.Mathlib.Omega.{arith}
use makedown.Base.Tests.{if◌then◌else◌, or-eq-true}
use makedown.Base.Equality.{Eq, ◌==◌}

module _ {ℓ} {A : Type ℓ} where
  abbrev pub length : List A → ℕ
  length [] = 0
  length (x ∷ xs) = suc (length xs)

  pub length-append : (xs ys : List A) → length (xs ++ ys) ≡ length xs + length ys
  length-append [] ys = omega arith
  length-append (x ∷ xs) ys = omega (arith, length-append xs ys)

  pub List-cases : (xs : List A) → (xs ≡ []) ⊎ ((x : A) × (rest : List A) × (xs ≡ x ∷ rest))
  List-cases [] = inl refl
  List-cases (x ∷ xs) = inr (x, xs, refl)

  abbrev pub take : ℕ → List A → List A
  take zero xs = []
  take (suc n) [] = []
  take (suc n) (x ∷ xs) = x ∷ take n xs

  abbrev pub drop : ℕ → List A → List A
  drop zero xs = xs
  drop (suc n) [] = []
  drop (suc n) (x ∷ xs) = drop n xs

  abbrev pub filterb : (A → Bool) → List A → List A
  filterb p [] = []
  filterb p (x ∷ xs) = let rest = filterb p xs in if p x then x ∷ rest else rest

  abbrev pub find : (A → Bool) → List A → Option A
  find p [] = none
  find p (x ∷ xs) = let rest = find p xs in if p x then some x else rest

  abbrev pub any : (A → Bool) → List A → Bool
  any p [] = false
  any p (x ∷ xs) = p x || any p xs

pub length-map {ℓ κ} :
    {A : Type ℓ} {B : Type κ} (f : A → B) (xs : List A) → length (map f xs) ≡ length xs
length-map f [] = refl
length-map f (x ∷ xs) = omega (arith, length-map f xs)

-- `xs.includes(a)`, and membership in a `Set` kept as the list of what was added.
module _ {ℓ} {A : Type ℓ} ⦃e : Eq A⦄ where
  abbrev pub has : List A → A → Bool
  has [] a = false
  has (x ∷ xs) a = x == a || has xs a

  pub has-append : (xs ys : List A) (a : A) → has (xs ++ ys) a ≡ (has xs a || has ys a)
  has-append [] ys a = refl
  has-append (x ∷ xs) ys a = ground (arith, has-append xs ys a)

  pub has-snoc :
      (xs : List A) (x a : A) → (has (xs ++ x ∷ []) a ≡ true) ↔ ((has xs a ≡ true) ⊎ (x ≡ a))
  has-snoc xs x a = ground (arith, has-append xs (x ∷ []) a, e.beq_iff x a)

-- A predicate of every element, as nested pairs.
abbrev pub All {ℓ κ} : {A : Type ℓ} → (A → Type κ) → List A → Type κ
All P [] = Unit
All P (x ∷ xs) = P x × All P xs

module _ {ℓ κ} {A : Type ℓ} (P : A → Type κ) where
  pub All-append : (xs ys : List A) → All P xs → All P ys → All P (xs ++ ys)
  All-append [] ys hx hy = hy
  All-append (x ∷ xs) ys hx hy = (hx.0, All-append xs ys hx.1 hy)

  pub All-of {κ'} : (Q : A → Type κ') (f : (a : A) → Q a → P a) (xs : List A) → All Q xs → All P xs
  All-of Q f [] h = tt
  All-of Q f (x ∷ xs) h = (f x h.0, All-of Q f xs h.1)

pub All-both {ℓ κ κ' κ''} :
    {A : Type ℓ} (P : A → Type κ) (Q : A → Type κ') (R : A → Type κ'')
    (f : (a : A) → P a → Q a → R a) (xs : List A)
    → All P xs
    → All Q xs
    → All R xs
All-both P Q R f [] hp hq = tt
All-both P Q R f (x ∷ xs) hp hq = (f x hp.0 hq.0, All-both P Q R f xs hp.1 hq.1)

module _ {ℓ} {A : Type ℓ} ⦃e : Eq A⦄ where
  -- Every element of a list is in it.
  pub All-has :
      (xs ys : List A)
      → ((a : A) → has ys a ≡ true → has xs a ≡ true)
      → All (λ a. has xs a ≡ true) ys
  All-has xs [] f = tt
  All-has xs (y ∷ ys) f =
      (f y (ground (arith, e.beq_iff y y)), All-has xs ys (λ a h. f a (ground arith)))

  pub All-mem {κ} : (P : A → Type κ) (xs : List A) (a : A) → All P xs → has xs a ≡ true → P a
  All-mem P [] a h m = cc
  All-mem P (x ∷ xs) a h m = elim (or-eq-true (x == a) (has xs a) m) [
    | inl same ↦ subst P ((e.beq_iff x a).0 same) h.0
    | inr later ↦ All-mem P xs a h.1 later
  ]
