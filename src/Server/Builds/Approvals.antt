-- ===== src/Server/Builds/Approvals.antt =====
-- The promises of the approvals: each is pending until it is resolved, once.
use makedown.Base.{
  ℕ, ◌+◌, ◌≤◌, Text, text_eq, Bool, true, false, Option, none, some, is_some, List, [], ◌∷◌, has,
  has-append, if◌then◌else◌, ◌==◌, ◌≡◌, refl, ap, subst, sym, arith, inl, inr, Bool-cases, eq_refl,
}
use makedown.Base.Map.{Map, get, set, keys, get-set, get-delete}
use makedown.Engine.World.{ApprovalRequest}
use makedown.Server.Builds.Branches.{subscribe_lem, unsubscribe_lem, resolve_approval_lem}
use makedown.Server.Builds.Counts.{
  count-append, count-keys_append, count-none, count-some, count-pos, count-delete, count-set,
  has-clear_timer,
}
use makedown.Server.Builds.{
  PendingApproval, BuildStreamEvent, progress, done, error, approval_of, JobState, BuildManager,
  Step, started, progressed, requested, decided, timed_out, returned, thrown, subscribed,
  unsubscribed, Reachable, created, next, start, emit, time_out, request_approval, cleanup,
  cleanup_approvals, succeed, fail, settle, count, start_timer,
}

-- Every promise that was made is pending or was resolved, never both and never twice, and a live timer is
-- that of a pending one.
record Accounts (m : BuildManager) : Type 0 where
  balance :
      (id : Text) → count id m.promises ≡ count id (keys m.resolved) + count id (keys m.pending)
  once : (id : Text) → count id m.promises ≤ 1
  live : (id : Text) → has m.timers id ≡ true → is_some (get m.pending id) ≡ true

settle-Accounts :
    (m : BuildManager) (id : Text) (approved : Bool)
    → is_some (get m.pending id) ≡ true
    → Accounts m
    → Accounts (settle m id approved)
settle-Accounts m id approved here acc = record {
  balance = λ j. ground (
    arith,
    acc.balance j,
    acc.once j,
    acc.balance id,
    acc.once id,
    count-keys_append j m.resolved ((id, approved) ∷ []),
    count-delete m.pending id j,
    count-some m.pending id here,
    text_eq.beq_iff id j,
  );
  once = acc.once;
  live =
      λ j h. ground (arith, acc.live j, has-clear_timer m.timers id j, get-delete m.pending id j);
}

-- Only entries of the list are settled.
if-Accounts :
    (b : Bool) (m n : BuildManager) → Accounts m → Accounts n → Accounts (if b then n else m)
if-Accounts true m n p q = q
if-Accounts false m n p q = p

cleanup-Accounts :
    (job_id : Text) (es : List (Text × PendingApproval)) (m : BuildManager)
    → ((j : Text) → count j (keys es) ≤ count j (keys m.pending))
    → Accounts m
    → Accounts (cleanup job_id es m)
unfolding cleanup
cleanup-Accounts job_id [] m left acc = acc
cleanup-Accounts job_id ((id, a) ∷ es) m left acc = elim (Bool-cases (a.job_id == job_id)) [
  | inl mine ↦ rw mine (
      cleanup-Accounts job_id es (settle m id false)
        (λ j. ground (arith, left j, count-delete m.pending id j, acc.balance j, acc.once j))
        (settle-Accounts m id false (count-pos m.pending id (ground (arith, left id, eq_refl id)))
          acc))
  | inr other ↦ rw other (cleanup-Accounts job_id es m (λ j. ground (arith, left j)) acc)
]

emit-Accounts :
    (m : BuildManager) (s : JobState) (e : BuildStreamEvent) → Accounts m → Accounts (emit m s e)
unfolding emit
emit-Accounts m s e acc = record { balance = acc.balance; once = acc.once; live = acc.live }

start_timer-live :
    (timeout : Option ℕ) (timers : List Text) (id j : Text) (a : PendingApproval)
    (pending : Map Text PendingApproval)
    → (has timers j ≡ true → is_some (get pending j) ≡ true)
    → has (start_timer timeout timers id) j ≡ true
    → is_some (get (set pending id a) j) ≡ true
start_timer-live none timers id j a pending live h = ground (arith, get-set pending id j a, live h)
start_timer-live (some ms) timers id j a pending live h =
    ground (arith, get-set pending id j a, live, has-append timers (id ∷ []) j)

request-Accounts :
    (m : BuildManager) (s : JobState) (id : Text) (r : ApprovalRequest)
    → count id m.promises ≡ 0
    → Accounts m
    → Accounts (request_approval m s id r)
unfolding request_approval emit
request-Accounts m s id r new acc =
    let free = count-none m.pending id (ground (arith, acc.balance id)) in
    let a = approval_of id s.job.id r in
    record {
      balance = λ j. ground (
        arith,
        acc.balance j,
        count-append j m.promises (id ∷ []),
        count-set m.pending id j a free,
      );
      once = λ j.
          ground (arith, acc.once j, count-append j m.promises (id ∷ []), text_eq.beq_iff id j);
      live = λ j h. start_timer-live m.approval_timeout_ms m.timers id j a m.pending (acc.live j) h;
    }

Step-Accounts : (m n : BuildManager) → Step m n → Accounts m → Accounts n
unfolding start time_out cleanup_approvals succeed fail
Step-Accounts _ _ (started m id now workspace_id new) acc = record {
  balance = acc.balance;
  once = acc.once;
  live = acc.live;
}
Step-Accounts _ _ (progressed m s e runs) acc = emit-Accounts m s (progress e) acc
Step-Accounts _ _ (requested m s id r runs new) acc = request-Accounts m s id r new acc
Step-Accounts _ _ (decided m id approved) acc = elim (resolve_approval_lem m id approved) [
  | inl e ↦ subst (λ p. Accounts p.1) (sym e) acc
  | inr (a, found, e) ↦
      subst (λ p. Accounts p.1) (sym e) (settle-Accounts m id approved (ap is_some found) acc)
]
Step-Accounts _ _ (timed_out m id timer) acc = settle-Accounts m id false (acc.live id timer) acc
Step-Accounts _ _ (returned m s now r runs) acc =
    cleanup-Accounts s.job.id _ _ (λ j. omega arith) (emit-Accounts m _ (done _ _ _) acc)
Step-Accounts _ _ (thrown m s now message runs) acc =
    cleanup-Accounts s.job.id _ _ (λ j. omega arith) (emit-Accounts m _ (error message) acc)
Step-Accounts _ _ (subscribed m id listener new) acc = elim (subscribe_lem m id listener) [
  | inl e ↦ subst Accounts (sym e) acc
  | inr (s, found, e) ↦
      subst Accounts (sym e) (record { balance = acc.balance; once = acc.once; live = acc.live })
]
Step-Accounts _ _ (unsubscribed m id listener) acc = elim (unsubscribe_lem m id listener) [
  | inl e ↦ subst Accounts (sym e) acc
  | inr (s, found, e) ↦
      subst Accounts (sym e) (record { balance = acc.balance; once = acc.once; live = acc.live })
]

Reachable-Accounts : (timeout : Option ℕ) (m : BuildManager) → Reachable timeout m → Accounts m
unfolding get
Reachable-Accounts timeout _ created = record {
  balance = λ id. refl;
  once = λ id. omega arith;
  live = λ id h. cc;
}
Reachable-Accounts timeout _ (next m n reached step) =
    Step-Accounts m n step (Reachable-Accounts timeout m reached)

-- In every manager that steps lead to, the promise of an approval was made at most once, and each promise
-- that was made either waits in the map or was resolved, once: never both, and never twice.
pub Reachable-resolved :
    (timeout : Option ℕ) (m : BuildManager) (id : Text)
    → Reachable timeout m
    → (count id m.promises ≡ count id (keys m.resolved) + count id (keys m.pending))
      × (count id m.promises ≤ 1)
Reachable-resolved timeout m id reached =
    let acc = Reachable-Accounts timeout m reached in (acc.balance id, acc.once id)
