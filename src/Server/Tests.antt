-- ===== src/Server/Tests.antt =====
-- A job with a listener and an approval, each theorem at it.
use makedown.Base.{
  filterb, ◌==◌, ◌+◌, ◌≤◌, lit, text_eq, list_eqb, false, none, some, [], ◌∷◌, ◌++◌, List, has,
  refl, ◌≡◌, ◌⊎◌,
}
use makedown.Base.Map.{get, set, delete, keys}
use makedown.Types.{agent}
use makedown.Engine.World.{ApprovalRequest}
use makedown.Server.Builds.{
  BuildStreamEvent, approval_pending, error, BuildJob, JobState, BuildManager, Reachable, created,
  next, new_manager, start, subscribe, emit, request_approval, approval_of, cleanup,
  cleanup_approvals, fail, running, failed, started, subscribed, requested, thrown,
  pending_approvals, count, received,
}
use makedown.Server.Builds.History.{Fits, Reachable-Fits}
use makedown.Server.Builds.Approvals.{Reachable-resolved}
use makedown.Server.Builds.Owners.{Reachable-pending_approvals}
use makedown.Server.Builds.Listeners.{Reachable-received}

abbrev job : BuildJob
job = record {
  id = lit "j";
  workspace_id = lit "w";
  status = running;
  result = none;
  error = none;
  started_at = [];
  finished_at = none;
}

abbrev request : ApprovalRequest
request = record { target = lit "t"; id = []; output = []; preview = []; step = agent }

abbrev at_start : JobState
at_start = record { job = job; history = []; listeners = lit "l" ∷ [] }

abbrev begun : BuildManager
begun = subscribe (start (new_manager (some 5)) (lit "j") [] (lit "w")).1 (lit "j") (lit "l")

abbrev asked : BuildManager
asked = request_approval begun at_start (lit "a") request

abbrev question : BuildStreamEvent
question = approval_pending (approval_of (lit "a") (lit "j") request)

abbrev waiting : JobState
waiting = record { job = job; history = question ∷ []; listeners = lit "l" ∷ [] }

abbrev ended : BuildManager
ended = fail asked waiting (lit "now") (lit "stopped")

abbrev at_end : JobState
at_end = record {
  job = record job {
    status = failed;
    error = some (lit "stopped");
    finished_at = some (lit "now");
  };
  history = question ∷ error (lit "stopped") ∷ [];
  listeners = lit "l" ∷ [];
}

reached : Reachable (some 5) ended
unfolding list_eqb get set start subscribe request_approval emit
reached =
    next asked ended
      (next begun asked
        (next (start (new_manager (some 5)) (lit "j") [] (lit "w")).1 begun
          (next (new_manager (some 5)) (start (new_manager (some 5)) (lit "j") [] (lit "w")).1
            created (started (new_manager (some 5)) (lit "j") [] (lit "w") refl))
          (subscribed (start (new_manager (some 5)) (lit "j") [] (lit "w")).1 (lit "j") (lit "l")
            refl))
        (requested begun at_start (lit "a") request (refl, refl) refl))
      (thrown asked waiting (lit "now") (lit "stopped") (refl, refl))

found_end : get ended.jobs (lit "j") ≡ some at_end
unfolding list_eqb get set delete start subscribe request_approval emit fail cleanup_approvals
    cleanup
found_end = refl

Reachable-Fits_example :
    (at_end.job.id ≡ lit "j") × Fits at_end.job.status at_end.job at_end.history
Reachable-Fits_example = Reachable-Fits (some 5) ended (lit "j") at_end reached found_end

Reachable-resolved_example :
    (count (lit "a") ended.promises
      ≡ count (lit "a") (keys ended.resolved) + count (lit "a") (keys ended.pending))
    × (count (lit "a") ended.promises ≤ 1)
Reachable-resolved_example = Reachable-resolved (some 5) ended (lit "a") reached

Reachable-pending_approvals_example :
    (filterb (λ a. a.job_id == lit "j") (pending_approvals ended none) ≡ [])
    × ((lit "j" ≡ []) ⊎ (pending_approvals ended (some (lit "j")) ≡ []))
Reachable-pending_approvals_example =
    Reachable-pending_approvals (some 5) ended (lit "j") at_end reached found_end (λ e. cc)

Reachable-received_example :
    (missed : List BuildStreamEvent) × (at_end.history
      ≡ received (lit "j") (lit "l") ended.calls ++ missed)
    × ((has at_end.listeners (lit "l") ≡ false) ⊎ (missed ≡ []))
Reachable-received_example =
    Reachable-received (some 5) ended (lit "j") (lit "l") at_end reached found_end
