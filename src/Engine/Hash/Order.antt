-- ===== src/Engine/Hash/Order.antt =====
-- `<` on strings is a strict linear order.
use makedown.Base.{
  Text, text_eq, nat_eq, list_eqb, text_ltb, true, false, not, ◌==◌, [], ◌∷◌, ◌≡◌, refl, arith,
}

pub text_ltb_total : (s t : Text) → (s == t) ≡ false → text_ltb t s ≡ not (text_ltb s t)
unfolding list_eqb
text_ltb_total [] [] h = cc
text_ltb_total [] (d ∷ t) h = refl
text_ltb_total (c ∷ s) [] h = refl
text_ltb_total (c ∷ s) (d ∷ t) h = ground (arith, text_ltb_total s t)

-- `s ≤ t < u`
pub text_ltb_trans :
    (s t u : Text) → text_ltb t s ≡ false → text_ltb t u ≡ true → text_ltb s u ≡ true
text_ltb_trans s [] [] h k = cc
text_ltb_trans [] [] (e ∷ u) h k = refl
text_ltb_trans (c ∷ s) [] (e ∷ u) h k = cc
text_ltb_trans [] (d ∷ t) [] h k = cc
text_ltb_trans [] (d ∷ t) (e ∷ u) h k = refl
text_ltb_trans (c ∷ s) (d ∷ t) [] h k = cc
text_ltb_trans (c ∷ s) (d ∷ t) (e ∷ u) h k = ground (arith, text_ltb_trans s t u)
