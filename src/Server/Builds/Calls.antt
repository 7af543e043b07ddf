-- ===== src/Server/Builds/Calls.antt =====
-- Which calls of a list of calls are those of one listener of one job.
use makedown.Base.{
  ◌≤◌, Text, text_eq, true, false, not, ◌&&◌, List, [], ◌∷◌, ◌++◌, has, has-append, filterb,
  if◌then◌else◌, ◌==◌, ◌≡◌, refl, arith, Bool-cases, eq_refl,
}
use makedown.Server.Builds.Counts.{count-append}
use makedown.Server.Builds.{BuildStreamEvent, Call, count, add_listener, call, replay, received}

pub received-append :
    (id l : Text) (cs ds : List Call)
    → received id l (cs ++ ds) ≡ received id l cs ++ received id l ds
received-append id l [] ds = refl
received-append id l (c ∷ cs) ds = ground (arith, received-append id l cs ds)

pub received-call_other :
    (id j l : Text) (e : BuildStreamEvent) (ls : List Text)
    → (id == j) ≡ false
    → received j l (call id e ls) ≡ []
received-call_other id j l e [] h = refl
received-call_other id j l e (x ∷ ls) h = ground (arith, received-call_other id j l e ls h)

pub received-call_absent :
    (id l : Text) (e : BuildStreamEvent) (ls : List Text)
    → has ls l ≡ false
    → received id l (call id e ls) ≡ []
received-call_absent id l e [] h = refl
received-call_absent id l e (x ∷ ls) h = ground (arith, received-call_absent id l e ls)

pub has-count : (ls : List Text) (l : Text) → count l ls ≤ 0 → has ls l ≡ false
has-count [] l h = refl
has-count (x ∷ ls) l h = ground (arith, has-count ls l)

pub received-call :
    (id l : Text) (e : BuildStreamEvent) (ls : List Text)
    → has ls l ≡ true
    → count l ls ≤ 1
    → received id l (call id e ls) ≡ e ∷ []
received-call id l e [] h once = cc
received-call id l e (x ∷ ls) h once =
    ground
      (arith, received-call id l e ls, received-call_absent id l e ls, has-count ls l, eq_refl id)

pub received-replay :
    (id j l k : Text) (es : List BuildStreamEvent)
    → received j k (replay id l es) ≡ (if id == j && l == k then es else [])
received-replay id j l k [] = ground arith
received-replay id j l k (e ∷ es) = ground (arith, received-replay id j l k es)

pub has-add_listener :
    (ls : List Text) (listener l : Text)
    → (listener == l) ≡ false
    → has (add_listener ls listener) l ≡ true
    → has ls l ≡ true
has-add_listener ls listener l other h =
    ground (arith, Bool-cases (has ls listener), has-append ls (listener ∷ []) l)

pub count-absent : (ls : List Text) (l : Text) → has ls l ≡ false → count l ls ≡ 0
count-absent [] l h = refl
count-absent (x ∷ ls) l h = ground (arith, count-absent ls l)

pub count-add_listener :
    (ls : List Text) (listener l : Text) → count l ls ≤ 1 → count l (add_listener ls listener) ≤ 1
count-add_listener ls listener l h = ground (
  arith,
  Bool-cases (has ls listener),
  count-append l ls (listener ∷ []),
  count-absent ls listener,
  text_eq.beq_iff listener l,
)

pub has-left :
    (ls : List Text) (listener l : Text)
    → has (filterb (λ x. not (x == listener)) ls) l ≡ true
    → has ls l ≡ true
has-left [] listener l h = h
has-left (x ∷ ls) listener l h = ground (arith, has-left ls listener l)

pub count-left :
    (ls : List Text) (listener l : Text)
    → count l (filterb (λ x. not (x == listener)) ls) ≤ count l ls
count-left [] listener l = omega arith
count-left (x ∷ ls) listener l = ground (arith, count-left ls listener l)
