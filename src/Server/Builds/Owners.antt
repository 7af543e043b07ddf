-- ===== src/Server/Builds/Owners.antt =====
-- An approval waits only while the build of its job runs.
use makedown.Base.{
  ℕ, ◌≤◌, Text, text_eq, Bool, false, Option, none, some, ◌⊎◌, List, [], ◌∷◌, ◌++◌, All, filterb,
  ◌≢◌, ◌==◌, ◌≡◌, refl, ap, subst, sym, ◌∙◌, arith, inl, inr, Bool-cases, eq_refl, some_inj,
  is_some,
}
use makedown.Base.Map.{Map, get, set, delete, keys, values, get-set, get-delete, get-set_self}
use makedown.Engine.World.{ApprovalRequest}
use makedown.Server.Builds.Branches.{subscribe_lem, unsubscribe_lem, resolve_approval_lem}
use makedown.Server.Builds.History.{cleanup-jobs}
use makedown.Server.Builds.Counts.{count-some}
use makedown.Server.Builds.Approvals.{Reachable-resolved}
use makedown.Server.Builds.Cleanup.{cleanup-kept}
use makedown.Server.Builds.{
  running, PendingApproval, approval_pending, succeeded, failed, done, error, approval_of, JobState,
  BuildManager, Step, started, progressed, requested, decided, timed_out, returned, thrown,
  subscribed, unsubscribed, Reachable, created, next, start, emit, time_out, request_approval,
  cleanup, cleanup_approvals, succeed, fail, finished, count, pending_approvals,
}

abbrev RunningJob : Map Text JobState → Text → Type 0
RunningJob jobs id = (s : JobState) × (get jobs id ≡ some s) × (s.job.status ≡ running)

abbrev Owned : Map Text JobState → Map Text PendingApproval → Type 0
Owned jobs pending =
    (id : Text) (a : PendingApproval) → get pending id ≡ some a → RunningJob jobs a.job_id

-- A job that is written with the status it had, or as a running one, leaves the running jobs running.
set-RunningJob :
    (jobs : Map Text JobState) (id j : Text) (s : JobState)
    → (RunningJob jobs id → s.job.status ≡ running)
    → RunningJob jobs j
    → RunningJob (set jobs id s) j
set-RunningJob jobs id j s keeps (old, found, runs) = elim (Bool-cases (id == j)) [
  | inl same ↦
      let here = (text_eq.beq_iff id j).0 same in
      (s, ground (arith, get-set jobs id j s), keeps (old, ap (get jobs) here ∙ found, runs))
  | inr other ↦ (old, ground (arith, get-set jobs id j s), runs)
]

same_status :
    (jobs : Map Text JobState) (id : Text) (s : JobState)
    → get jobs id ≡ some s
    → RunningJob jobs id
    → s.job.status ≡ running
same_status jobs id s found (t, g, runs) =
    ap (λ (x : JobState). x.job.status) (some_inj (sym found ∙ g)) ∙ runs

settle-Owned :
    (m : BuildManager) (id : Text) (approved : Bool)
    → Owned m.jobs m.pending
    → Owned m.jobs (delete m.pending id)
settle-Owned m id approved own j a g = own j a (ground (arith, get-delete m.pending id j))

-- The end of a job: its own approvals are gone, the others' jobs are as they were.
ended-Owned :
    (jobs : Map Text JobState) (m : BuildManager) (id : Text) (s : JobState)
    → Owned jobs m.pending
    → Owned (set jobs id s) (cleanup id m.pending m).pending
ended-Owned jobs m id s own j a g =
    let (before, other) = cleanup-kept id m j a g in
    let (t, found, runs) = own j a before in
    (
      t,
      ground (
        arith,
        get-set jobs id a.job_id s,
        text_eq.beq_iff a.job_id id,
        text_eq.beq_iff id a.job_id,
      ),
      runs,
    )

rewrite-Owned :
    (m : BuildManager) (id : Text) (s s' : JobState)
    → get m.jobs id ≡ some s
    → s'.job.status ≡ s.job.status
    → Owned m.jobs m.pending
    → Owned (set m.jobs id s') m.pending
rewrite-Owned m id s s' found same own j a g =
    set-RunningJob m.jobs id a.job_id s' (λ runs. same ∙ same_status m.jobs id s found runs)
      (own j a g)

request-Owned :
    (m : BuildManager) (s : JobState) (id : Text) (r : ApprovalRequest)
    → get m.jobs s.job.id ≡ some s
    → s.job.status ≡ running
    → Owned m.jobs m.pending
    → Owned (request_approval m s id r).jobs (request_approval m s id r).pending
unfolding request_approval emit
request-Owned m s id r found runs own j b g =
    let a = approval_of id s.job.id r in
    let s' = record s { history = s.history ++ approval_pending a ∷ [] } in
    elim (Bool-cases (id == j)) [
      | inl same ↦
          let there : some a ≡ some b = ground (arith, get-set m.pending id j a) in
          let it = some_inj there in
          (
            s',
            ap (λ (x : PendingApproval). get (set m.jobs s.job.id s') x.job_id) (sym it)
                ∙ get-set_self m.jobs s.job.id s',
            runs,
          )
      | inr other ↦
          rewrite-Owned m s.job.id s s' found refl own j b
            (ground (arith, get-set m.pending id j a))
    ]

Step-Owned : (m n : BuildManager) → Step m n → Owned m.jobs m.pending → Owned n.jobs n.pending
unfolding start emit time_out request_approval cleanup_approvals succeed fail
Step-Owned _ _ (started m id now workspace_id new) own =
    λ j a g. set-RunningJob m.jobs id a.job_id _ (λ _. refl) (own j a g)
Step-Owned _ _ (progressed m s e (found, runs)) own = rewrite-Owned m s.job.id s _ found refl own
Step-Owned _ _ (requested m s id r (found, runs) new) own = request-Owned m s id r found runs own
Step-Owned _ _ (decided m id approved) own = elim (resolve_approval_lem m id approved) [
  | inl e ↦ subst (λ p. Owned p.1.jobs p.1.pending) (sym e) own
  | inr (a, found, e) ↦
      subst (λ p. Owned p.1.jobs p.1.pending) (sym e) (settle-Owned m id approved own)
]
Step-Owned _ _ (timed_out m id timer) own = settle-Owned m id false own
Step-Owned _ _ (returned m s now r (found, runs)) own =
    let job = finished (record s.job { result = some r; status = succeeded }) now in
    let ended = emit m (record s { job = job }) (done r.built r.reused r.rejected) in
    subst (λ jobs. Owned jobs (cleanup s.job.id ended.pending ended).pending)
      (sym (cleanup-jobs s.job.id ended.pending ended)) (ended-Owned m.jobs ended s.job.id _ own)
Step-Owned _ _ (thrown m s now message (found, runs)) own =
    let job = finished (record s.job { status = failed; error = some message }) now in
    let ended = emit m (record s { job = job }) (error message) in
    subst (λ jobs. Owned jobs (cleanup s.job.id ended.pending ended).pending)
      (sym (cleanup-jobs s.job.id ended.pending ended)) (ended-Owned m.jobs ended s.job.id _ own)
Step-Owned _ _ (subscribed m id listener new) own = elim (subscribe_lem m id listener) [
  | inl e ↦ subst (λ n. Owned n.jobs n.pending) (sym e) own
  | inr (s, found, e) ↦
      subst (λ n. Owned n.jobs n.pending) (sym e) (rewrite-Owned m id s _ found refl own)
]
Step-Owned _ _ (unsubscribed m id listener) own = elim (unsubscribe_lem m id listener) [
  | inl e ↦ subst (λ n. Owned n.jobs n.pending) (sym e) own
  | inr (s, found, e) ↦
      subst (λ n. Owned n.jobs n.pending) (sym e) (rewrite-Owned m id s _ found refl own)
]

Reachable-Owned :
    (timeout : Option ℕ) (m : BuildManager) → Reachable timeout m → Owned m.jobs m.pending
unfolding get
Reachable-Owned timeout _ created = λ id a g. cc
Reachable-Owned timeout _ (next m n reached step) =
    Step-Owned m n step (Reachable-Owned timeout m reached)

-- A search by key finds every entry of a map whose keys are distinct.
All-once :
    {V : Type 0} (P : V → Type 0) (m : Map Text V)
    → ((id : Text) → count id (keys m) ≤ 1)
    → ((id : Text) (v : V) → get m id ≡ some v → P v)
    → All P (values m)
unfolding get
All-once P [] once h = tt
All-once P ((k, v) ∷ m) once h = (
  h k v (ground (arith, eq_refl k)),
  All-once P m (λ id. ground (arith, once id))
      (λ id w g. h id w (ground (arith, once id, count-some m id (ap is_some g)))),
)

filterb-none :
    {A : Type 0} (p : A → Bool) (xs : List A) → All (λ x. p x ≡ false) xs → filterb p xs ≡ []
filterb-none p [] h = refl
filterb-none p (x ∷ xs) (here, later) = rw here (filterb-none p xs later)

not_mine :
    (m : BuildManager) (id : Text) (s : JobState)
    → get m.jobs id ≡ some s
    → s.job.status ≢ running
    → (a : PendingApproval) → RunningJob m.jobs a.job_id
    → (a.job_id == id) ≡ false
not_mine m id s found ended a runs = elim (Bool-cases (a.job_id == id)) [
  | inl same ↦
      let at = (text_eq.beq_iff a.job_id id).0 same in
      absurd (ended (same_status m.jobs id s found (subst (RunningJob m.jobs) at runs)))
  | inr other ↦ other
]

-- Asked for by its job, an approval is found as among all, unless the job's id is empty.
pending_approvals-some :
    (m : BuildManager) (id : Text)
    → filterb (λ a. a.job_id == id) (pending_approvals m none) ≡ []
    → (id ≡ []) ⊎ (pending_approvals m (some id) ≡ [])
unfolding pending_approvals
pending_approvals-some m [] h = inl refl
pending_approvals-some m (c ∷ id) h = inr h

-- In every manager that steps lead to, no approval of a job waits unless the job's build runs: none of the
-- approvals that are listed is the job's, and the list for the job is empty, where its id is not empty.
pub Reachable-pending_approvals :
    (timeout : Option ℕ) (m : BuildManager) (id : Text) (s : JobState)
    → Reachable timeout m
    → get m.jobs id ≡ some s
    → s.job.status ≢ running
    → (filterb (λ a. a.job_id == id) (pending_approvals m none) ≡ [])
      × ((id ≡ []) ⊎ (pending_approvals m (some id) ≡ []))
unfolding pending_approvals
Reachable-pending_approvals timeout m id s reached found ended =
    let all =
      filterb-none (λ a. a.job_id == id) (values m.pending)
        (All-once (λ a. (a.job_id == id) ≡ false) m.pending
          (λ j. ground (arith, Reachable-resolved timeout m j reached))
          (λ j a g. not_mine m id s found ended a (Reachable-Owned timeout m reached j a g))) in
    (all, pending_approvals-some m id all)
