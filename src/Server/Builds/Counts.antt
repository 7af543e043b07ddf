-- ===== src/Server/Builds/Counts.antt =====
-- How often an id stands in a list and under the keys of a map.
use makedown.Base.{
  ◌+◌, ◌≤◌, Text, text_eq, true, false, none, is_some, List, [], ◌∷◌, ◌++◌, has, if◌then◌else◌,
  ◌==◌, ◌≡◌, refl, arith,
}
use makedown.Base.Map.{Map, get, set, delete, keys}
use makedown.Server.Builds.{count, clear_timer}

pub count-append : (id : Text) (xs ys : List Text) → count id (xs ++ ys) ≡ count id xs + count id ys
count-append id [] ys = omega arith
count-append id (x ∷ xs) ys = ground (arith, count-append id xs ys)

module _ {V : Type 0} where
  pub count-keys_append :
      (id : Text) (xs ys : Map Text V)
      → count id (keys (xs ++ ys)) ≡ count id (keys xs) + count id (keys ys)
  count-keys_append id [] ys = omega arith
  count-keys_append id ((k, v) ∷ xs) ys = ground (arith, count-keys_append id xs ys)

  pub count-none : (m : Map Text V) (id : Text) → count id (keys m) ≡ 0 → get m id ≡ none
  unfolding get
  count-none [] id h = refl
  count-none ((k, v) ∷ m) id h = ground (arith, count-none m id)

  pub count-pos : (m : Map Text V) (id : Text) → 1 ≤ count id (keys m) → is_some (get m id) ≡ true
  unfolding get
  count-pos [] id h = absurd (omega arith)
  count-pos ((k, v) ∷ m) id h = ground (arith, count-pos m id)

  pub count-some : (m : Map Text V) (id : Text) → is_some (get m id) ≡ true → 1 ≤ count id (keys m)
  unfolding get
  count-some [] id h = cc
  count-some ((k, v) ∷ m) id h = ground (arith, count-some m id)

  pub count-delete :
      (m : Map Text V) (k id : Text)
      → count id (keys (delete m k)) ≡ (if k == id then 0 else count id (keys m))
  unfolding delete
  count-delete [] k id = ground arith
  count-delete ((j, v) ∷ m) k id =
      ground (
        arith,
        count-delete m k id,
        text_eq.beq_iff j k,
        text_eq.beq_iff j id,
        text_eq.beq_iff k id,
      )

  pub count-set :
      (m : Map Text V) (k id : Text) (v : V)
      → get m k ≡ none
      → count id (keys (set m k v)) ≡ count id (keys m) + (if k == id then 1 else 0)
  unfolding get set
  count-set [] k id v h = ground arith
  count-set ((j, w) ∷ m) k id v h =
      ground
        (arith, count-set m k id v, text_eq.beq_iff j k, text_eq.beq_iff j id, text_eq.beq_iff k id)

pub has-clear_timer :
    (timers : List Text) (k id : Text)
    → has (clear_timer timers k) id ≡ (if k == id then false else has timers id)
has-clear_timer [] k id = ground arith
has-clear_timer (t ∷ timers) k id = ground (
  arith,
  has-clear_timer timers k id,
  text_eq.beq_iff t k,
  text_eq.beq_iff t id,
  text_eq.beq_iff k id,
)
