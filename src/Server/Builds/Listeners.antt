-- ===== src/Server/Builds/Listeners.antt =====
-- The calls of a job's listeners against the job's history.
use makedown.Base.{
  ℕ, Text, text_eq, Bool, true, false, Option, some, List, [], ◌∷◌, ◌++◌, has, append-nil,
  if◌then◌else◌, ◌==◌, ◌≡◌, refl, subst, sym, ◌∙◌, arith, inl, inr, ◌⊎◌, Bool-cases,
}
use makedown.Base.Map.{Map, get, set}
use makedown.Server.Builds.Branches.{subscribe_lem, unsubscribe_lem, resolve_approval_lem}
use makedown.Server.Builds.History.{cleanup-jobs}
use makedown.Server.Builds.Calls.{received-call_other, received-replay}
use makedown.Server.Builds.Heard.{
  HeardAt, Heard, write-Heard, emit-HeardAt, subscribe-HeardAt, unsubscribe-HeardAt,
}
use makedown.Server.Builds.{
  succeeded, failed, PendingApproval, BuildStreamEvent, progress, approval_pending, approval_of,
  done, error, JobState, Call, BuildManager, Step, started, progressed, requested, decided,
  timed_out, returned, thrown, subscribed, unsubscribed, Reachable, created, next, start, emit,
  time_out, request_approval, cleanup, cleanup_approvals, succeed, fail, finished, settle, call,
  replay, received,
}

if-calls :
    (b : Bool) (m n : BuildManager) → n.calls ≡ m.calls → (if b then n else m).calls ≡ m.calls
if-calls true m n e = e
if-calls false m n e = refl

cleanup-calls :
    (job_id : Text) (es : List (Text × PendingApproval)) (m : BuildManager)
    → (cleanup job_id es m).calls ≡ m.calls
unfolding cleanup
cleanup-calls job_id [] m = refl
cleanup-calls job_id ((id, a) ∷ es) m =
    cleanup-calls job_id es (if a.job_id == job_id then settle m id false else m)
    ∙ if-calls (a.job_id == job_id) m (settle m id false) refl

emit-Heard :
    (m : BuildManager) (s s' : JobState) (e : BuildStreamEvent)
    → get m.jobs s.job.id ≡ some s
    → s'.history ≡ s.history ++ e ∷ []
    → s'.listeners ≡ s.listeners
    → Heard m.jobs m.calls
    → Heard (set m.jobs s.job.id s') (m.calls ++ call s.job.id e s.listeners)
emit-Heard m s s' e found h ls heard =
    write-Heard m.jobs m.calls (call s.job.id e s.listeners) s.job.id s'
      (λ j l other. received-call_other s.job.id j l e s.listeners other)
      (emit-HeardAt s.job.id s m.calls e s' h ls (heard.at s.job.id s found)) heard

cleanup-Heard :
    (m : BuildManager) (id : Text)
    → Heard m.jobs m.calls
    → Heard (cleanup_approvals m id).jobs (cleanup_approvals m id).calls
unfolding cleanup_approvals
cleanup-Heard m id heard =
    subst (λ jobs. Heard jobs (cleanup id m.pending m).calls) (sym (cleanup-jobs id m.pending m))
      (subst (Heard m.jobs) (sym (cleanup-calls id m.pending m)) heard)

-- A job that is written without a call.
write_silent-Heard :
    (jobs : Map Text JobState) (calls : List Call) (id : Text) (s : JobState)
    → HeardAt id s calls
    → Heard jobs calls
    → Heard (set jobs id s) calls
write_silent-Heard jobs calls id s here heard = subst (Heard (set jobs id s)) (append-nil calls) (
    write-Heard jobs calls [] id s (λ j l _. refl)
      (subst (HeardAt id s) (sym (append-nil calls)) here) heard)

Step-Heard : (m n : BuildManager) → Step m n → Heard m.jobs m.calls → Heard n.jobs n.calls
unfolding start emit time_out request_approval succeed fail
Step-Heard _ _ (started m id now workspace_id new) heard =
    write_silent-Heard m.jobs m.calls id _
      (record {
        exact = λ l listens. cc;
        prefix = λ l. ([], sym (append-nil (received id l m.calls) ∙ heard.absent id l new));
        single = λ l. omega arith;
      })
      heard
Step-Heard _ _ (progressed m s e (found, runs)) heard =
    emit-Heard m s _ (progress e) found refl refl heard
Step-Heard _ _ (requested m s id r (found, runs) new) heard =
    emit-Heard m s _ (approval_pending (approval_of id s.job.id r)) found refl refl heard
Step-Heard _ _ (decided m id approved) heard = elim (resolve_approval_lem m id approved) [
  | inl e ↦ subst (λ p. Heard p.1.jobs p.1.calls) (sym e) heard
  | inr (a, found, e) ↦ subst (λ p. Heard p.1.jobs p.1.calls) (sym e) heard
]
Step-Heard _ _ (timed_out m id timer) heard = heard
Step-Heard _ _ (returned m s now r (found, runs)) heard =
    let job = finished (record s.job { result = some r; status = succeeded }) now in
    let last = done r.built r.reused r.rejected in
    cleanup-Heard (emit m (record s { job = job }) last) s.job.id (
      emit-Heard m s (record s { job = job; history = s.history ++ last ∷ [] }) last found refl refl
        heard)
Step-Heard _ _ (thrown m s now message (found, runs)) heard =
    let job = finished (record s.job { status = failed; error = some message }) now in
    cleanup-Heard (emit m (record s { job = job }) (error message)) s.job.id (
      emit-Heard m s (record s { job = job; history = s.history ++ error message ∷ [] })
        (error message) found refl refl heard)
Step-Heard _ _ (subscribed m id listener new) heard = elim (subscribe_lem m id listener) [
  | inl e ↦ subst (λ n. Heard n.jobs n.calls) (sym e) heard
  | inr (s, found, e) ↦
      subst (λ n. Heard n.jobs n.calls) (sym e)
        (write-Heard m.jobs m.calls (replay id listener s.history) id _
          (λ j l other. received-replay id j listener l s.history ∙ ground (arith, other))
          (subscribe-HeardAt id listener s m.calls new (heard.at id s found)) heard)
]
Step-Heard _ _ (unsubscribed m id listener) heard = elim (unsubscribe_lem m id listener) [
  | inl e ↦ subst (λ n. Heard n.jobs n.calls) (sym e) heard
  | inr (s, found, e) ↦
      subst (λ n. Heard n.jobs n.calls) (sym e)
        (write_silent-Heard m.jobs m.calls id _
          (unsubscribe-HeardAt id listener s m.calls (heard.at id s found)) heard)
]

Reachable-Heard :
    (timeout : Option ℕ) (m : BuildManager) → Reachable timeout m → Heard m.jobs m.calls
unfolding get
Reachable-Heard timeout _ created = record { at = λ id s g. cc; absent = λ id l g. refl }
Reachable-Heard timeout _ (next m n reached step) =
    Step-Heard m n step (Reachable-Heard timeout m reached)

-- In every manager that steps lead to, what a listener of a job was called with, in order, is the start
-- of the job's history, and all of it while the listener is subscribed, whenever it subscribed.
pub Reachable-received :
    (timeout : Option ℕ) (m : BuildManager) (id listener : Text) (s : JobState)
    → Reachable timeout m
    → get m.jobs id ≡ some s
    → (missed : List BuildStreamEvent) × (s.history ≡ received id listener m.calls ++ missed)
      × ((has s.listeners listener ≡ false) ⊎ (missed ≡ []))
Reachable-received timeout m id listener s reached found =
    let at = (Reachable-Heard timeout m reached).at id s found in
    elim (Bool-cases (has s.listeners listener)) [
      | inl listens ↦ (
        [],
        sym (append-nil (received id listener m.calls) ∙ at.exact listener listens),
        inr refl,
      )
      | inr silent ↦ let (rest, e) = at.prefix listener in (rest, e, inl silent)
    ]
