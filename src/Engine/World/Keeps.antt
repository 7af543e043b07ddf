-- ===== src/Engine/World/Keeps.antt =====
-- Invariants of the operations of a build, one rule for each way to put one together.
use makedown.Base.{Bool, true, false, Result, ok, err, if◌then◌else◌}
use makedown.Engine.World.{
  World, Build, BuildError, pure, throw, lift, gets, asks, modify, continue, ◌>>=◌,
}

-- `m` keeps `P`, whether it returns or throws.
pub record Keeps {ℓ} {A : Type ℓ} (P : World → Type 0) (m : Build A) : Type ℓ where
  pub at : (w : World) → P w → P (m w).1

module _ {ℓ} {A : Type ℓ} {P : World → Type 0} where
  pub Keeps-pure : (a : A) → Keeps P (pure a)
  unfolding pure
  Keeps-pure a = record { at = λ w h. h }

  pub Keeps-throw : (e : BuildError) → Keeps P (throw {A = A} e)
  unfolding throw
  Keeps-throw e = record { at = λ w h. h }

  pub Keeps-lift : (r : Result BuildError A) → Keeps P (lift r)
  unfolding lift
  Keeps-lift r = record { at = λ w h. h }

  pub Keeps-gets : (f : World → A) → Keeps P (gets f)
  unfolding gets
  Keeps-gets f = record { at = λ w h. h }

  pub Keeps-asks : (f : World → Result BuildError A) → Keeps P (asks f)
  unfolding asks
  Keeps-asks f = record { at = λ w h. h }

  pub Keeps-if : (b : Bool) (m n : Build A) → Keeps P m → Keeps P n → Keeps P (if b then m else n)
  Keeps-if true m n km kn = km
  Keeps-if false m n km kn = kn

module _ {ℓ κ} {A : Type ℓ} {B : Type κ} {P : World → Type 0} where
  Keeps-continue :
      (r : Result BuildError A) (f : A → Build B) (w : World)
      → ((a : A) → Keeps P (f a))
      → P w
      → P (continue r f w).1
  Keeps-continue (ok a) f w kf h = (kf a).at w h
  Keeps-continue (err e) f w kf h = h

  pub Keeps-bind :
      (m : Build A) (f : A → Build B) → Keeps P m → ((a : A) → Keeps P (f a)) → Keeps P (m >>= f)
  unfolding ◌>>=◌
  Keeps-bind m f km kf = record {
    at = λ w h. let (r, w') = m w in Keeps-continue r f w' kf (km.at w h);
  }

pub Keeps-modify :
    {P : World → Type 0} (f : World → World) → ((w : World) → P w → P (f w)) → Keeps P (modify f)
unfolding modify
Keeps-modify f k = record { at = k }

pub ruleset keeps_rules =
    (Keeps-pure, Keeps-throw, Keeps-lift, Keeps-gets, Keeps-asks, Keeps-if, Keeps-bind)
