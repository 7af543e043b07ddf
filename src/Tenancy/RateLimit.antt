-- ===== src/Tenancy/RateLimit.antt =====
-- apps/server/src/tenancy/rate-limit.ts: a fixed-window limiter. The clock's value is an argument.
pub mod Limit
use makedown.Base.{
  ℕ, suc, ◌+◌, Text, text_eq, Bool, true, false, ◌||◌, Option, none, some, List, [], ◌∷◌, leb,
  if◌then◌else◌,
}
use makedown.Base.Map.{Map, get, set, delete}

pub record LimiterOptions : Type 0 where
  pub max_attempts : ℕ
  pub window_ms : ℕ

pub record Window : Type 0 where
  pub count : ℕ
  pub reset_at : ℕ

abbrev pub Windows : Type 0
Windows = Map Text Window

module _ (opts : LimiterOptions) where
  abbrev pub opened : ℕ → Window
  opened t = record { count = 1; reset_at = t + opts.window_ms }

  unfoldable pub allow : Windows → ℕ → Text → Bool × Windows
  allow windows t key = elim (get windows key) [
    | none ↦ (true, set windows key (opened t))
    | some w ↦
        if leb w.reset_at t
        then (true, set windows key (opened t))
        else if leb opts.max_attempts w.count
        then (false, windows)
        else (true, set windows key (record w { count = suc w.count }))
  ]

unfoldable pub reset : Windows → Text → Windows
reset windows key = delete windows key
