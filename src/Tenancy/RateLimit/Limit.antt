-- ===== src/Tenancy/RateLimit/Limit.antt =====
-- How many attempts a window lets through.
use makedown.Base.{
  ℕ, suc, ◌+◌, ◌≤◌, ◌<◌, ◌≡◌, inl, inr, min, max, Text, text_eq, Bool, true, false, some, List, [],
  ◌∷◌, ◌==◌, ltb, if◌then◌else◌, All, eq_refl, ◌∙◌, Bool-cases, Option-cases, arith,
}
use makedown.Base.Map.{get, get-set, get-delete}
use makedown.Tenancy.RateLimit.{LimiterOptions, Window, Windows, opened, allow, reset}

-- Attempts at their times, by any keys.
abbrev pub Trace : Type 0
Trace = List (ℕ × Text)

abbrev pub attempts : Text → Trace → ℕ
attempts key [] = 0
attempts key ((t, j) ∷ trace) = let rest = attempts key trace in if j == key then suc rest else rest

abbrev bump : Bool → ℕ → ℕ
bump true n = suc n
bump false n = n

module _ (opts : LimiterOptions) where
  -- How many attempts of a key are let through.
  abbrev pub allowed : Text → Windows → Trace → ℕ
  allowed key windows [] = 0
  allowed key windows ((t, j) ∷ trace) =
      let rest = allowed key (allow opts windows t j).1 trace in
      if j == key then bump (allow opts windows t j).0 rest else rest

  allow-other :
      (windows : Windows) (t : ℕ) (j key : Text)
      → (j == key) ≡ false
      → get (allow opts windows t j).1 key ≡ get windows key
  unfolding allow
  allow-other windows t j key h = elim (Option-cases (get windows j)) [
    | inl e ↦ ground (arith, get-set windows j key (opened opts t))
    | inr (w, e) ↦ ground (
      arith,
      get-set windows j key (opened opts t),
      get-set windows j key (record w { count = suc w.count }),
    )
  ]

  allow_self :
      (windows : Windows) (t : ℕ) (key : Text) (w : Window)
      → get windows key ≡ some w
      → t < w.reset_at
      → ((allow opts windows t key).0 ≡ ltb w.count opts.max_attempts)
        × (get (allow opts windows t key).1 key
            ≡ some (if ltb w.count opts.max_attempts then record w { count = suc w.count } else w))
  unfolding allow
  allow_self windows t key w e h =
      ground (arith, get-set windows key key (record w { count = suc w.count }), eq_refl key)

  allow-fresh :
      (windows : Windows) (t : ℕ) (key : Text)
      → ((w : Window) → get windows key ≡ some w → w.reset_at ≤ t)
      → ((allow opts windows t key).0 ≡ true)
        × (get (allow opts windows t key).1 key ≡ some (opened opts t))
  unfolding allow
  allow-fresh windows t key h = elim (Option-cases (get windows key)) [
    | inl e ↦ ground (arith, get-set windows key key (opened opts t), eq_refl key)
    | inr (w, e) ↦ ground (arith, get-set windows key key (opened opts t), eq_refl key, h w e)
  ]

  counted :
      (key : Text) (windows : Windows) (t : ℕ) (trace : Trace) (w : Window)
      → get windows key ≡ some w
      → t < w.reset_at
      → ((w' : Window)
          → get (allow opts windows t key).1 key ≡ some w'
          → w'.reset_at ≡ w.reset_at
          → allowed key (allow opts windows t key).1 trace + w'.count
            ≡ min (attempts key trace + w'.count) (max w'.count opts.max_attempts))
      → bump (allow opts windows t key).0 (allowed key (allow opts windows t key).1 trace) + w.count
        ≡ min (suc (attempts key trace) + w.count) (max w.count opts.max_attempts)
  counted key windows t trace w e h next =
      let (let_in, now) = allow_self windows t key w e h in
      elim (Bool-cases (ltb w.count opts.max_attempts)) [
        | inl more ↦ ground (arith, next (record w { count = suc w.count }))
        | inr full ↦ ground (arith, next w)
      ]

  -- Inside a window, what is let through and what was counted add up to the attempts or the limit.
  allowed-window :
      (key : Text) (windows : Windows) (trace : Trace) (w : Window)
      → get windows key ≡ some w
      → All (λ (t, j). t < w.reset_at) trace
      → allowed key windows trace + w.count
        ≡ min (attempts key trace + w.count) (max w.count opts.max_attempts)
  allowed-window key windows [] w e h = omega arith
  allowed-window key windows ((t, j) ∷ trace) w e h = elim (Bool-cases (j == key)) [
    | inl same ↦
        let here = (text_eq.beq_iff j key).0 same in
        rw same (
          rw here (
            counted key windows t trace w e h.0
              λ w' e' r. allowed-window key (allow opts windows t key).1 trace w' e' (rw r h.1)))
    | inr other ↦ rw other (
        allowed-window key (allow opts windows t j).1 trace w
          (allow-other windows t j key other ∙ e) h.1)
  ]

-- From the attempt that opens a key's window until the window ends, the limiter lets through all the
-- attempts of the key up to the limit and no more (one if the limit is 0), whatever other keys do.
pub allow-limit :
    (opts : LimiterOptions) (key : Text) (windows : Windows) (t : ℕ) (trace : Trace)
    → ((w : Window) → get windows key ≡ some w → w.reset_at ≤ t)
    → All (λ (u, j). u < t + opts.window_ms) trace
    → allowed opts key windows ((t, key) ∷ trace)
      ≡ min (suc (attempts key trace)) (max 1 opts.max_attempts)
allow-limit opts key windows t trace fresh h =
    let (let_in, now) = allow-fresh opts windows t key fresh in
    ground (
      arith,
      eq_refl key,
      allowed-window opts key (allow opts windows t key).1 trace (opened opts t) now h,
    )

-- A key that was reset starts again: its next attempt is let through and counted as the first.
reset-allow :
    (opts : LimiterOptions) (windows : Windows) (t : ℕ) (key : Text)
    → ((allow opts (reset windows key) t key).0 ≡ true)
      × (get (allow opts (reset windows key) t key).1 key
          ≡ some (record { count = 1; reset_at = t + opts.window_ms }))
unfolding reset
reset-allow opts windows t key =
    allow-fresh opts (reset windows key) t key
      (λ w e. absurd (ground (arith, get-delete windows key key, eq_refl key)))
