-- ===== src/Engine/Hash/Canonical.antt =====
-- Canonical JSON does not see the order of an object's keys.
use makedown.Base.{
  Text, text_eq, false, ◌==◌, or_default, List, [], ◌∷◌, ◌≡◌, refl, ap, ◌∙◌, sym, arith,
}
use makedown.Types.{Approval, Json, arr, obj, Items, nil, cons, Fields, end, field, RecipeHeader}
use makedown.Engine.Hash.Order.{text_ltb_total, text_ltb_trans}
use makedown.Engine.Hash.{
  insert_field, sort_json, sort_items, sort_fields, texts, normalize_header, join_segments,
  aux_segment, canonical_json, compute_identity_hash,
}

-- The same data: keys of an object that differ may change places, at any depth.
mutual
  pub data SameJson : Json → Json → Type 0 where
    same : (v : Json) → SameJson v v
    same_arr : (is js : Items) → SameItems is js → SameJson (arr is) (arr js)
    same_obj : (fs gs : Fields) → SameFields fs gs → SameJson (obj fs) (obj gs)

  pub data SameItems : Items → Items → Type 0 where
    same_nil : SameItems nil nil
    same_cons :
        (v w : Json) (is js : Items)
        → SameJson v w
        → SameItems is js
        → SameItems (cons v is) (cons w js)

  pub data SameFields : Fields → Fields → Type 0 where
    same_end : SameFields end end
    same_field :
        (k : Text) (v w : Json) (fs gs : Fields)
        → SameJson v w
        → SameFields fs gs
        → SameFields (field k v fs) (field k w gs)
    swapped :
        (k j : Text) (v w : Json) (fs : Fields)
        → (k == j) ≡ false
        → SameFields (field k v (field j w fs)) (field j w (field k v fs))
    chained : (fs gs hs : Fields) → SameFields fs gs → SameFields gs hs → SameFields fs hs

insert_field-swap :
    (k j : Text) (v w : Json) (fs : Fields)
    → (k == j) ≡ false
    → insert_field k v (insert_field j w fs) ≡ insert_field j w (insert_field k v fs)
unfolding insert_field
insert_field-swap k j v w end h = ground (arith, text_ltb_total k j h)
insert_field-swap k j v w (field i u fs) h = ground (
  arith,
  text_ltb_total k j h,
  insert_field-swap k j v w fs h,
  text_ltb_trans k i j,
  text_ltb_trans j i k,
)

mutual
  SameJson-sort : (v w : Json) → SameJson v w → sort_json v ≡ sort_json w
  SameJson-sort _ _ (same v) = refl
  SameJson-sort _ _ (same_arr is js h) = ap arr (SameItems-sort is js h)
  SameJson-sort _ _ (same_obj fs gs h) = ap obj (SameFields-sort fs gs h)

  SameItems-sort : (is js : Items) → SameItems is js → sort_items is ≡ sort_items js
  SameItems-sort _ _ same_nil = refl
  SameItems-sort _ _ (same_cons v w is js h hs) =
      ap (λ x. cons x (sort_items is)) (SameJson-sort v w h)
      ∙ ap (cons (sort_json w)) (SameItems-sort is js hs)

  SameFields-sort : (fs gs : Fields) → SameFields fs gs → sort_fields fs ≡ sort_fields gs
  SameFields-sort _ _ same_end = refl
  SameFields-sort _ _ (same_field k v w fs gs h hs) =
      ap (λ x. insert_field k x (sort_fields fs)) (SameJson-sort v w h)
      ∙ ap (insert_field k (sort_json w)) (SameFields-sort fs gs hs)
  SameFields-sort _ _ (swapped k j v w fs h) =
      insert_field-swap k j (sort_json v) (sort_json w) (sort_fields fs) h
  SameFields-sort _ _ (chained fs gs hs p q) = SameFields-sort fs gs p ∙ SameFields-sort gs hs q

-- A target's identity does not depend on where its artifact is written, on its approval, or on the order
-- of the keys of its parameters, at any depth.
pub compute_identity_hash-SameFields :
    (stringify : Json → Text) (sha256 : Text → Text) (inputs : List Text) (h : RecipeHeader)
    (body : Text) (aux : List Text) (output : Text) (approval : Approval) (params : Fields)
    → SameFields h.params params
    → compute_identity_hash stringify sha256 inputs
        (record h { output = output; approval = approval; params = params })
        body
        aux
      ≡ compute_identity_hash stringify sha256 inputs h body aux
unfolding compute_identity_hash canonical_json
compute_identity_hash-SameFields stringify sha256 inputs h body aux output approval params
      same_params =
    ap
      (λ ps. sha256 (
        join_segments (
          canonical_json stringify (arr (texts inputs))
          ∷ canonical_json stringify (normalize_header h)
          ∷ body
          ∷ or_default h.model []
          ∷ stringify (obj ps)
          ∷ aux_segment stringify aux)))
      (sym (SameFields-sort h.params params same_params))
