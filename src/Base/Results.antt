-- ===== src/Base/Results.antt =====
-- Fallible code: a value or the error that was thrown.
use mathlib.Core.Path.{◌≡◌, refl, subst, ◌∙◌}
use mathlib.Core.Bool.{Bool, true, false}
use makedown.Base.Tests.{if◌then◌else◌}
use mathlib.Core.Logic.{◌⊎◌, inl, inr}
use mathlib.Core.List.{List, [], ◌∷◌}
use makedown.Base.Lists.{All}

pub data Result {ℓ κ} (E : Type ℓ) (A : Type κ) : Type (ℓ ⊔ κ) where
  ok : A → Result E A
  err : E → Result E A

module _ {ℓ κ μ} {E : Type ℓ} {A : Type κ} {B : Type μ} where
  infixl 5 ◌>>=◌
  abbrev pub ◌>>=◌ : Result E A → (A → Result E B) → Result E B
  ok a >>= f = f a
  err e >>= f = err e

  infixl 5 ◌>>◌
  abbrev pub ◌>>◌ : Result E A → Result E B → Result E B
  r >> next = r >>= λ _. next

  -- Inversion of a successful bind, for proofs where the parts stay shut.
  pub >>=-eq-ok :
      (r : Result E A) (k : A → Result E B) {c : B}
      → (r >>= k) ≡ ok c
      → (a : A) × (r ≡ ok a) × (k a ≡ ok c)
  >>=-eq-ok (ok a) k h = (a, refl, h)
  >>=-eq-ok (err e) k h = cc

-- The error of one part, as an error of the whole.
abbrev pub map_err {ℓ κ μ} :
    {E : Type ℓ} {F : Type κ} {A : Type μ} → (E → F) → Result E A → Result F A
map_err f (ok a) = ok a
map_err f (err e) = err (f e)

pub map_err-ok {ℓ κ μ} :
    {E : Type ℓ} {F : Type κ} {A : Type μ} (f : E → F) (r : Result E A) {a : A}
    → map_err f r ≡ ok a
    → r ≡ ok a
map_err-ok f (ok b) h = cc
map_err-ok f (err e) h = cc

-- An error of a step that cannot throw is the error of what came before.
pub map-eq-err {ℓ κ μ} :
    {E : Type ℓ} {A : Type κ} {B : Type μ} (m : Result E A) (f : A → B) {e : E}
    → (m >>= λ a. ok (f a)) ≡ err e
    → m ≡ err e
map-eq-err (ok a) f h = cc
map-eq-err (err e) f h = cc

-- What a test gives that throws or passes.
pub data Passed : Type 0 where
  passed : Passed

abbrev pub check {ℓ} : {E : Type ℓ} → Bool → E → Result E Passed
check true e = ok passed
check false e = err e

-- A test that passes.
pub check-ok {ℓ κ} :
    {E : Type ℓ} {B : Type κ} (b : Bool) (e : E) (next : Result E B) {c : B}
    → (check b e >> next) ≡ ok c
    → (b ≡ true) × (next ≡ ok c)
check-ok true e next h = (refl, h)
check-ok false e next h = cc

-- `if (b) throw e`, passed.
pub if-ok {ℓ κ} :
    {E : Type ℓ} {A : Type κ} (b : Bool) (e : E) (r : Result E A) {a : A}
    → (if b then err e else r) ≡ ok a
    → (b ≡ false) × (r ≡ ok a)
if-ok true e r h = cc
if-ok false e r h = (refl, h)

-- An assertion that passes.
pub passed-ok {ℓ κ} :
    {E : Type ℓ} {B : Type κ} (r : Result E Passed) (next : Result E B) {c : B}
    → (r >> next) ≡ ok c
    → (r ≡ ok passed) × (next ≡ ok c)
passed-ok (ok passed) next h = (refl, h)
passed-ok (err e) next h = cc

-- A loop whose body may throw: `for (const x of xs) { s = body(s, x) }`.
module _ {ℓ κ μ} {E : Type ℓ} {A : Type κ} {S : Type μ} where
  abbrev pub for_each : (A → S → Result E S) → List A → S → Result E S
  for_each body [] s = ok s
  for_each body (x ∷ xs) s = body x s >>= for_each body xs

-- What holds after such a loop: `P` is kept by each round, `R` relates the states before and after,
-- and `Q x` holds from the round of `x` on.
pub record Keeps {ℓ κ μ ν} {E : Type ℓ} {A : Type κ} {S : Type μ} (P : S → Type ν)
    (R : S → S → Type ν) (Q : A → S → Type ν) (body : A → S → Result E S)
    : Type (ℓ ⊔ κ ⊔ μ ⊔ ν) where
  pub round : (x : A) (s t : S) → P s → body x s ≡ ok t → P t × R s t × Q x t
  pub same : (s : S) → R s s
  pub trans : (s t u : S) → R s t → R t u → R s u
  pub lasts : (x : A) (s t : S) → Q x s → R s t → Q x t

pub ok-injective {ℓ κ} :
    {E : Type ℓ} {A : Type κ} {a b : A} → ◌≡◌ {A = Result E A} (ok a) (ok b) → a ≡ b
ok-injective h = cc

pub Result-cases {ℓ κ} :
    {E : Type ℓ} {A : Type κ} (r : Result E A) → ((a : A) × (r ≡ ok a)) ⊎ ((e : E) × (r ≡ err e))
Result-cases (ok a) = inl (a, refl)
Result-cases (err e) = inr (e, refl)

-- What holds of a result's value, where there is one.
module _ {ℓ κ μ} {E : Type ℓ} {A : Type κ} (P : A → Type μ) where
  abbrev pub OnOk : Result E A → Type μ
  OnOk (ok a) = P a
  OnOk (err e) = Unit

  pub OnOk-ok : (r : Result E A) (a : A) → OnOk r → r ≡ ok a → P a
  OnOk-ok (ok b) a p e = subst P (ok-injective e) p
  OnOk-ok (err x) a p e = cc

  pub OnOk-bind {ν} :
      {B : Type ν} (r : Result E B) (k : B → Result E A)
      → ((b : B) → r ≡ ok b → OnOk (k b))
      → OnOk (r >>= k)
  OnOk-bind (ok b) k h = h b refl
  OnOk-bind (err e) k h = tt

  pub OnOk-check :
      (b : Bool) (e : E) (next : Result E A) → (b ≡ true → OnOk next) → OnOk (check b e >> next)
  OnOk-check true e next h = h refl
  OnOk-check false e next h = tt

  pub OnOk-passed :
      (r : Result E Passed) (next : Result E A) → (r ≡ ok passed → OnOk next) → OnOk (r >> next)
  OnOk-passed (ok passed) next h = h refl
  OnOk-passed (err e) next h = tt

  pub OnOk-if : (b : Bool) (r q : Result E A) → OnOk r → OnOk q → OnOk (if b then r else q)
  OnOk-if true r q x y = x
  OnOk-if false r q x y = y

pub for_each-Keeps {ℓ κ μ ν} :
    {E : Type ℓ} {A : Type κ} {S : Type μ} (P : S → Type ν) (R : S → S → Type ν)
    (Q : A → S → Type ν) (body : A → S → Result E S)
    → Keeps P R Q body
    → (xs : List A) (s t : S) → P s
    → for_each body xs s ≡ ok t
    → P t × R s t × All (λ x. Q x t) xs
for_each-Keeps P R Q body k [] s t p h = let e = ok-injective h in rw (← e) (p, k.same s, tt)
for_each-Keeps P R Q body k (x ∷ xs) s t p h =
    let (u, first, rest) = >>=-eq-ok (body x s) (for_each body xs) h in
    let (pu, ru, qu) = k.round x s u p first in
    let (pt, rt, qt) = for_each-Keeps P R Q body k xs u t pu rest in
    (pt, k.trans s u t ru rt, (k.lasts x u t qu rt, qt))

-- A loop that throws does so in a round of one of its elements, from a state that the rounds before kept.
pub for_each-err {ℓ κ μ ν} :
    {E : Type ℓ} {A : Type κ} {S : Type μ} (P : S → Type ν) (R : S → S → Type ν)
    (Q : A → S → Type ν) (W : A → Type ν) (body : A → S → Result E S)
    → Keeps P R Q body
    → (xs : List A) (s : S) (e : E) → P s
    → All W xs
    → for_each body xs s ≡ err e
    → (x : A) × (t : S) × W x × P t × R s t × (body x t ≡ err e)
for_each-err P R Q W body k [] s e p w h = cc
for_each-err P R Q W body k (x ∷ xs) s e p w h = elim (Result-cases (body x s)) [
  | inl (t, done) ↦
      let (pt, rt, _) = k.round x s t p done in
      let (y, u, wy, pu, ru, thrown) = for_each-err P R Q W body k xs t e pt w.1 (rw done at h) in
      (y, u, wy, pu, k.trans s t u rt ru, thrown)
  | inr (e', thrown) ↦ (x, s, w.0, p, k.same s, thrown ∙ (rw thrown at h))
]
