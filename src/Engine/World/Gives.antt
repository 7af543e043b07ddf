-- ===== src/Engine/World/Gives.antt =====
-- What holds after an operation of a build that returned.
use makedown.Base.{Result, ok, ◌≡◌, subst, ap}
use makedown.Engine.World.{World, Build, BuildError, ◌>>=◌, bind-eq-ok}
use makedown.Engine.World.Keeps.{Keeps}

pub record Gives {ℓ} {A : Type ℓ} (Q : A → World → Type 0) (m : Build A) : Type ℓ where
  pub at : (w : World) (a : A) (w' : World) → m w ≡ (ok a, w') → Q a w'

module _ {ℓ} {A : Type ℓ} {P : World → Type 0} (m : Build A) where
  pub Keeps-at : Keeps P m → {w w' : World} {r : Result BuildError A} → m w ≡ (r, w') → P w → P w'
  Keeps-at k {w} e h = subst P (ap (λ q. q.1) e) (k.at w h)

module _ {ℓ κ} {A : Type ℓ} {B : Type κ} where
  pub Gives-last :
      {Q : B → World → Type 0} (m : Build A) (f : A → Build B)
      → ((a : A) → Gives Q (f a))
      → Gives Q (m >>= f)
  Gives-last m f g = record {
    at = λ w b w'' h. let (a, w', _, rest) = bind-eq-ok m f w h in (g a).at w' b w'' rest;
  }

  pub Gives-first :
      {P : World → Type 0} (m : Build A) (f : A → Build B)
      → Gives (λ a. P) m
      → ((a : A) → Keeps P (f a))
      → Gives (λ b. P) (m >>= f)
  Gives-first m f g k = record {
    at = λ w b w'' h.
        let (a, w', first, rest) = bind-eq-ok m f w h in
        Keeps-at (f a) (k a) rest (g.at w a w' first);
  }

-- What holds after an operation that returned, from a state where `P` holds.
pub record Ends {ℓ} {A : Type ℓ} (P : World → Type 0) (Q : A → World → Type 0) (m : Build A)
    : Type ℓ where
  pub at : (w : World) (a : A) (w' : World) → P w → m w ≡ (ok a, w') → Q a w'

module _ {ℓ κ} {A : Type ℓ} {B : Type κ} {P : World → Type 0} {Q : B → World → Type 0} where
  pub Ends-seq :
      (m : Build A) (f : A → Build B) → Keeps P m → ((a : A) → Ends P Q (f a)) → Ends P Q (m >>= f)
  Ends-seq m f k g = record {
    at = λ w b w'' p h.
        let (a, w', first, rest) = bind-eq-ok m f w h in
        (g a).at w' b w'' (Keeps-at m k first p) rest;
  }
