-- ===== src/Server/Builds.antt =====
-- apps/server/src/builds.ts: BuildManager, whose jobs emit events to their listeners and wait for approvals.
-- An event of the engine, of a timer or of a route is a step. Ids and times are arguments of the steps;
-- a job and a listener are named by an id, and a listener returns without throwing.
pub mod Branches
pub mod History
pub mod Counts
pub mod Approvals
pub mod Cleanup
pub mod Owners
pub mod Calls
pub mod Heard
pub mod Listeners
use makedown.Base.{
  ℕ, suc, ◌&&◌, Text, text_eq, Bool, true, false, not, ◌==◌, Option, none, some, List, [], ◌∷◌,
  ◌++◌, map, filterb, has, if◌then◌else◌, ◌≡◌,
}
use makedown.Base.Map.{Map, get, set, delete, values}
use makedown.Types.{StepType}
use makedown.Engine.World.{BuildEvent, ApprovalRequest}
use makedown.Engine.Run.{BuildResult}

pub data BuildJobStatus : Type 0 where
  running succeeded failed : BuildJobStatus

pub record PendingApproval : Type 0 where
  pub id : Text
  pub job_id : Text
  pub target : Text
  pub output : Text
  pub preview : Text
  pub step : StepType

pub data BuildStreamEvent : Type 0 where
  progress : BuildEvent → BuildStreamEvent
  approval_pending : PendingApproval → BuildStreamEvent
  done : (built reused rejected : List Text) → BuildStreamEvent
  error : (message : Text) → BuildStreamEvent

pub record BuildJob : Type 0 where
  pub id : Text
  pub workspace_id : Text
  pub status : BuildJobStatus
  pub result : Option BuildResult
  pub error : Option Text
  pub started_at : Text
  pub finished_at : Option Text

pub record JobState : Type 0 where
  pub job : BuildJob
  pub history : List BuildStreamEvent
  pub listeners : List Text

-- A call of a listener of a job.
pub record Call : Type 0 where
  pub job_id : Text
  pub listener : Text
  pub event : BuildStreamEvent

-- Beside the fields of the class: the live timers, the promises that were made, those that were
-- resolved with their value, and the calls of the listeners, oldest first.
pub record BuildManager : Type 0 where
  pub approval_timeout_ms : Option ℕ
  pub jobs : Map Text JobState
  pub pending : Map Text PendingApproval
  pub timers : List Text
  pub promises : List Text
  pub resolved : List (Text × Bool)
  pub calls : List Call

abbrev pub new_manager : Option ℕ → BuildManager
new_manager timeout = record {
  approval_timeout_ms = timeout;
  jobs = [];
  pending = [];
  timers = [];
  promises = [];
  resolved = [];
  calls = [];
}

unfoldable pub start : BuildManager → Text → Text → Text → BuildJob × BuildManager
start m id now workspace_id =
    let job : BuildJob = record {
      id = id;
      workspace_id = workspace_id;
      status = running;
      result = none;
      error = none;
      started_at = now;
      finished_at = none;
    } in
    (job, record m { jobs = set m.jobs id (record { job = job; history = []; listeners = [] }) })

unfoldable pub list : BuildManager → Option Text → List BuildJob
list m none = map (λ s. s.job) (values m.jobs)
list m (some workspace_id) =
    filterb (λ j. j.workspace_id == workspace_id) (map (λ s. s.job) (values m.jobs))

abbrev pub call : Text → BuildStreamEvent → List Text → List Call
call job_id event [] = []
call job_id event (l ∷ ls) =
    record { job_id = job_id; listener = l; event = event } ∷ call job_id event ls

abbrev pub replay : Text → Text → List BuildStreamEvent → List Call
replay job_id listener [] = []
replay job_id listener (e ∷ es) =
    record { job_id = job_id; listener = listener; event = e } ∷ replay job_id listener es

abbrev pub add_listener : List Text → Text → List Text
add_listener ls l = if has ls l then ls else ls ++ l ∷ []

unfoldable pub subscribe : BuildManager → Text → Text → BuildManager
subscribe m job_id listener = elim (get m.jobs job_id) [
  | none ↦ m
  | some s ↦ record m {
    jobs = set m.jobs job_id (record s { listeners = add_listener s.listeners listener });
    calls = m.calls ++ replay job_id listener s.history;
  }
]

unfoldable pub unsubscribe : BuildManager → Text → Text → BuildManager
unsubscribe m job_id listener = elim (get m.jobs job_id) [
  | none ↦ m
  | some s ↦ record m {
    jobs =
        set m.jobs job_id (record s { listeners = filterb (λ l. not (l == listener)) s.listeners });
  }
]

unfoldable pub pending_approvals : BuildManager → Option Text → List PendingApproval
pending_approvals m none = values m.pending
pending_approvals m (some []) = values m.pending
pending_approvals m (some (c ∷ job_id)) = filterb (λ a. a.job_id == c ∷ job_id) (values m.pending)

-- `state` is the one of the job in the map.
unfoldable pub emit : BuildManager → JobState → BuildStreamEvent → BuildManager
emit m s event = record m {
  jobs = set m.jobs s.job.id (record s { history = s.history ++ event ∷ [] });
  calls = m.calls ++ call s.job.id event s.listeners;
}

abbrev pub clear_timer : List Text → Text → List Text
clear_timer timers id = filterb (λ t. not (t == id)) timers

-- `pending.delete(id)` and `resolve(approved)`, the timer cleared.
abbrev pub settle : BuildManager → Text → Bool → BuildManager
settle m id approved = record m {
  pending = delete m.pending id;
  timers = clear_timer m.timers id;
  resolved = m.resolved ++ (id, approved) ∷ [];
}

unfoldable pub resolve_approval : BuildManager → Text → Bool → Bool × BuildManager
resolve_approval m id approved = elim (get m.pending id) [
  | none ↦ (false, m)
  | some _ ↦ (true, settle m id approved)
]

-- The callback of the timer that `request_approval` starts.
unfoldable pub time_out : BuildManager → Text → BuildManager
time_out m id = settle m id false

abbrev pub approval_of : Text → Text → ApprovalRequest → PendingApproval
approval_of id job_id r = record {
  id = id;
  job_id = job_id;
  target = r.target;
  output = r.output;
  preview = r.preview;
  step = r.step;
}

abbrev pub start_timer : Option ℕ → List Text → Text → List Text
start_timer none timers id = timers
start_timer (some ms) timers id = timers ++ id ∷ []

unfoldable pub request_approval : BuildManager → JobState → Text → ApprovalRequest → BuildManager
request_approval m s id request =
    let approval = approval_of id s.job.id request in
    emit
      (record m {
        promises = m.promises ++ id ∷ [];
        timers = start_timer m.approval_timeout_ms m.timers id;
        pending = set m.pending id approval;
      })
      s (approval_pending approval)

-- The approvals of a job, taken out of the map one by one and denied.
unfoldable pub cleanup : Text → List (Text × PendingApproval) → BuildManager → BuildManager
cleanup job_id [] m = m
cleanup job_id ((id, a) ∷ rest) m =
    cleanup job_id rest (if a.job_id == job_id then settle m id false else m)

unfoldable pub cleanup_approvals : BuildManager → Text → BuildManager
cleanup_approvals m job_id = cleanup job_id m.pending m

abbrev pub finished : BuildJob → Text → BuildJob
finished job now = record job { finished_at = some now }

-- The end of `run`, when `runBuild` returns and when it throws: the job is written with its last event.
unfoldable pub succeed : BuildManager → JobState → Text → BuildResult → BuildManager
succeed m s now r =
    let job = finished (record s.job { result = some r; status = succeeded }) now in
    cleanup_approvals (emit m (record s { job = job }) (done r.built r.reused r.rejected)) s.job.id

unfoldable pub fail : BuildManager → JobState → Text → Text → BuildManager
fail m s now message =
    let job = finished (record s.job { status = failed; error = some message }) now in
    cleanup_approvals (emit m (record s { job = job }) (error message)) s.job.id

-- A job of the manager, while its build runs.
abbrev pub Runs : BuildManager → JobState → Type 0
Runs m s = (get m.jobs s.job.id ≡ some s) × (s.job.status ≡ running)

abbrev pub count : Text → List Text → ℕ
count id [] = 0
count id (x ∷ xs) = let rest = count id xs in if x == id then suc rest else rest

-- The calls of one listener of one job.
abbrev pub received : Text → Text → List Call → List BuildStreamEvent
received job_id listener [] = []
received job_id listener (c ∷ cs) =
    let rest = received job_id listener cs in
    if c.job_id == job_id && c.listener == listener then c.event ∷ rest else rest

-- One step of the server. The engine calls the hooks of a job only while its build runs; `randomUUID`
-- draws an id that is new, and a subscription brings a listener of its own.
pub data Step : BuildManager → BuildManager → Type 0 where
  started :
      (m : BuildManager) (id now workspace_id : Text)
      → get m.jobs id ≡ none
      → Step m (start m id now workspace_id).1
  progressed :
      (m : BuildManager) (s : JobState) (e : BuildEvent) → Runs m s → Step m (emit m s (progress e))
  requested :
      (m : BuildManager) (s : JobState) (approval_id : Text) (r : ApprovalRequest)
      → Runs m s
      → count approval_id m.promises ≡ 0
      → Step m (request_approval m s approval_id r)
  decided :
      (m : BuildManager) (id : Text) (approved : Bool) → Step m (resolve_approval m id approved).1
  timed_out : (m : BuildManager) (id : Text) → has m.timers id ≡ true → Step m (time_out m id)
  returned :
      (m : BuildManager) (s : JobState) (now : Text) (r : BuildResult)
      → Runs m s
      → Step m (succeed m s now r)
  thrown :
      (m : BuildManager) (s : JobState) (now message : Text)
      → Runs m s
      → Step m (fail m s now message)
  subscribed :
      (m : BuildManager) (id listener : Text)
      → received id listener m.calls ≡ []
      → Step m (subscribe m id listener)
  unsubscribed : (m : BuildManager) (id listener : Text) → Step m (unsubscribe m id listener)

-- The managers that steps lead to.
pub data Reachable (timeout : Option ℕ) : BuildManager → Type 0 where
  created : Reachable timeout (new_manager timeout)
  next : (m n : BuildManager) → Reachable timeout m → Step m n → Reachable timeout n
