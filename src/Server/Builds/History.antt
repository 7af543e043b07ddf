-- ===== src/Server/Builds/History.antt =====
-- The history of a job against its status.
use makedown.Base.{
  ℕ, inl, inr, Text, text_eq, Bool, true, false, Option, none, some, is_some, List, [], ◌∷◌, ◌++◌,
  All, All-append, ◌≡◌, refl, subst, sym, ◌∙◌, if◌then◌else◌, ◌==◌,
}
use makedown.Base.Map.{Map, get, set, All-set, All-get}
use makedown.Engine.Run.{BuildResult}
use makedown.Server.Builds.Branches.{subscribe_lem, unsubscribe_lem, resolve_approval_lem}
use makedown.Server.Builds.{
  BuildJobStatus, running, succeeded, failed, PendingApproval, BuildStreamEvent, progress,
  approval_pending, done, error, BuildJob, JobState, BuildManager, Step, started, progressed,
  requested, decided, timed_out, returned, thrown, subscribed, unsubscribed, Reachable, created,
  next, start, emit, subscribe, unsubscribe, resolve_approval, time_out, request_approval, cleanup,
  cleanup_approvals, succeed, fail, finished, settle,
}

abbrev pub is_last : BuildStreamEvent → Bool
is_last (progress e) = false
is_last (approval_pending a) = false
is_last (done built reused rejected) = true
is_last (error message) = true

abbrev pub Going : List BuildStreamEvent → Type 0
Going = All (λ e. is_last e ≡ false)

abbrev pub Ended : BuildStreamEvent → List BuildStreamEvent → Type 0
Ended last history =
    (before : List BuildStreamEvent) × (history ≡ before ++ last ∷ []) × Going before

-- What a job says of its end, and the history that fits it.
abbrev pub Fits : BuildJobStatus → BuildJob → List BuildStreamEvent → Type 0
Fits running job h = (job.result ≡ none) × (job.error ≡ none) × (job.finished_at ≡ none) × Going h
Fits succeeded job h =
    (r : BuildResult) × (job.result ≡ some r)
    × (job.error ≡ none)
    × (is_some job.finished_at ≡ true)
    × Ended (done r.built r.reused r.rejected) h
Fits failed job h =
    (message : Text) × (job.result ≡ none)
    × (job.error ≡ some message)
    × (is_some job.finished_at ≡ true)
    × Ended (error message) h

abbrev IsFiled : Text → JobState → Type 0
IsFiled id s = (id ≡ s.job.id) × Fits s.job.status s.job s.history

abbrev AllFit : Map Text JobState → Type 0
AllFit = All (λ (id, s). IsFiled id s)

if-jobs : (b : Bool) (m n : BuildManager) → n.jobs ≡ m.jobs → (if b then n else m).jobs ≡ m.jobs
if-jobs true m n e = e
if-jobs false m n e = refl

pub cleanup-jobs :
    (job_id : Text) (es : List (Text × PendingApproval)) (m : BuildManager)
    → (cleanup job_id es m).jobs ≡ m.jobs
unfolding cleanup
cleanup-jobs job_id [] m = refl
cleanup-jobs job_id ((id, a) ∷ es) m =
    cleanup-jobs job_id es (if a.job_id == job_id then settle m id false else m)
    ∙ if-jobs (a.job_id == job_id) m (settle m id false) refl

-- The state of a running job.
module _ (jobs : Map Text JobState) (s : JobState) (fit : AllFit jobs)
    (found : get jobs s.job.id ≡ some s) (runs : s.job.status ≡ running) where
  going : Fits running s.job s.history
  going = subst (λ st. Fits st s.job s.history) runs (All-get IsFiled jobs s.job.id s fit found).1

  emit-AllFit :
      (e : BuildStreamEvent)
      → is_last e ≡ false
      → AllFit (set jobs s.job.id (record s { history = s.history ++ e ∷ [] }))
  emit-AllFit e live =
      let (r, x, f, before) = going in
      All-set IsFiled jobs s.job.id (record s { history = s.history ++ e ∷ [] }) fit
        (
          refl,
          subst (λ st. Fits st s.job (s.history ++ e ∷ [])) (sym runs)
              (r, x, f, All-append (λ e. is_last e ≡ false) s.history (e ∷ []) before (live, tt)),
        )

Step-AllFit : (m n : BuildManager) → Step m n → AllFit m.jobs → AllFit n.jobs
unfolding start emit subscribe unsubscribe resolve_approval time_out request_approval
    cleanup_approvals succeed fail
Step-AllFit _ _ (started m id now workspace_id new) fit =
    All-set IsFiled m.jobs id _ fit (refl, (refl, refl, refl, tt))
Step-AllFit _ _ (progressed m s e (found, runs)) fit =
    emit-AllFit m.jobs s fit found runs (progress e) refl
Step-AllFit _ _ (requested m s id r (found, runs) new) fit =
    emit-AllFit m.jobs s fit found runs (approval_pending _) refl
Step-AllFit _ _ (decided m id approved) fit = elim (resolve_approval_lem m id approved) [
  | inl e ↦ subst (λ p. AllFit p.1.jobs) (sym e) fit
  | inr (a, found, e) ↦ subst (λ p. AllFit p.1.jobs) (sym e) fit
]
Step-AllFit _ _ (timed_out m id live) fit = fit
Step-AllFit _ _ (returned m s now r (found, runs)) fit =
    let (_, x, _, before) = going m.jobs s fit found runs in
    let job = finished (record s.job { result = some r; status = succeeded }) now in
    let last = done r.built r.reused r.rejected in
    let ended = emit m (record s { job = job }) last in
    subst AllFit (sym (cleanup-jobs s.job.id ended.pending ended))
      (All-set IsFiled m.jobs s.job.id _ fit (refl, (r, refl, x, refl, (s.history, refl, before))))
Step-AllFit _ _ (thrown m s now message (found, runs)) fit =
    let (x, _, _, before) = going m.jobs s fit found runs in
    let job = finished (record s.job { status = failed; error = some message }) now in
    let ended = emit m (record s { job = job }) (error message) in
    subst AllFit (sym (cleanup-jobs s.job.id ended.pending ended)) (
      All-set IsFiled m.jobs s.job.id _ fit
        (refl, (message, x, refl, refl, (s.history, refl, before))))
Step-AllFit _ _ (subscribed m id listener new) fit = elim (subscribe_lem m id listener) [
  | inl e ↦ subst (λ n. AllFit n.jobs) (sym e) fit
  | inr (s, found, e) ↦
      subst (λ n. AllFit n.jobs) (sym e)
        (All-set IsFiled m.jobs id _ fit (All-get IsFiled m.jobs id s fit found))
]
Step-AllFit _ _ (unsubscribed m id listener) fit = elim (unsubscribe_lem m id listener) [
  | inl e ↦ subst (λ n. AllFit n.jobs) (sym e) fit
  | inr (s, found, e) ↦
      subst (λ n. AllFit n.jobs) (sym e)
        (All-set IsFiled m.jobs id _ fit (All-get IsFiled m.jobs id s fit found))
]

Reachable-AllFit : (timeout : Option ℕ) (m : BuildManager) → Reachable timeout m → AllFit m.jobs
Reachable-AllFit timeout _ created = tt
Reachable-AllFit timeout _ (next m n reached step) =
    Step-AllFit m n step (Reachable-AllFit timeout m reached)

-- In every manager that steps lead to, a job whose build runs has neither result nor error, and no event
-- that ends a stream; a job that ended has a finish time and either a result or an error, and its history
-- ends with the one event that says so.
pub Reachable-Fits :
    (timeout : Option ℕ) (m : BuildManager) (id : Text) (s : JobState)
    → Reachable timeout m
    → get m.jobs id ≡ some s
    → (s.job.id ≡ id) × Fits s.job.status s.job s.history
Reachable-Fits timeout m id s reached found =
    let fit = All-get IsFiled m.jobs id s (Reachable-AllFit timeout m reached) found in
    (sym fit.0, fit.1)
