-- ===== src/Server/Builds/Cleanup.antt =====
-- The approvals that are left after those of a job were taken out.
use makedown.Base.{
  Text, text_eq, Bool, true, false, none, some, List, [], ◌∷◌, if◌then◌else◌, ◌==◌, ◌≡◌, ap, ◌∙◌,
  arith, inl, inr, Bool-cases, Option-cases, some_inj,
}
use makedown.Base.Map.{get, get-delete}
use makedown.Server.Builds.{PendingApproval, BuildManager, cleanup, settle}

if-before :
    (b : Bool) (m : BuildManager) (k id : Text) (a : PendingApproval)
    → get (if b then settle m k false else m).pending id ≡ some a
    → get m.pending id ≡ some a
if-before true m k id a h = ground (arith, get-delete m.pending k id)
if-before false m k id a h = h

if-gone :
    (b : Bool) (m : BuildManager) (k id : Text)
    → b ≡ true
    → (k == id) ≡ true
    → get (if b then settle m k false else m).pending id ≡ none
if-gone true m k id h same = ground (arith, get-delete m.pending k id)
if-gone false m k id h same = cc

-- What is left after a job's approvals were taken out was there before, and is not the job's.
cleanup-before :
    (job_id : Text) (es : List (Text × PendingApproval)) (m : BuildManager) (id : Text)
    (a : PendingApproval)
    → get (cleanup job_id es m).pending id ≡ some a
    → get m.pending id ≡ some a
unfolding cleanup
cleanup-before job_id [] m id a h = h
cleanup-before job_id ((k, b) ∷ es) m id a h =
    if-before (b.job_id == job_id) m k id a
      (cleanup-before job_id es (if b.job_id == job_id then settle m k false else m) id a h)

cleanup-absent :
    (job_id : Text) (es : List (Text × PendingApproval)) (m : BuildManager) (id : Text)
    → get m.pending id ≡ none
    → get (cleanup job_id es m).pending id ≡ none
cleanup-absent job_id es m id h = elim (Option-cases (get (cleanup job_id es m).pending id)) [
  | inl gone ↦ gone
  | inr (a, left) ↦ absurd (ground (arith, cleanup-before job_id es m id a left))
]

cleanup-gone :
    (job_id : Text) (es : List (Text × PendingApproval)) (m : BuildManager) (id : Text)
    (a : PendingApproval)
    → get es id ≡ some a
    → (a.job_id == job_id) ≡ true
    → get (cleanup job_id es m).pending id ≡ none
unfolding cleanup get
cleanup-gone job_id [] m id a g mine = cc
cleanup-gone job_id ((k, b) ∷ es) m id a g mine = elim (Bool-cases (k == id)) [
  | inl same ↦
      let it = some_inj (rw same at g) in
      cleanup-absent job_id es (if b.job_id == job_id then settle m k false else m) id (
        if-gone (b.job_id == job_id) m k id
          (ap (λ (x : PendingApproval). x.job_id == job_id) it ∙ mine) same)
  | inr other ↦
      cleanup-gone job_id es (if b.job_id == job_id then settle m k false else m) id a
        (rw other at g) mine
]

pub cleanup-kept :
    (job_id : Text) (m : BuildManager) (id : Text) (a : PendingApproval)
    → get (cleanup job_id m.pending m).pending id ≡ some a
    → (get m.pending id ≡ some a) × ((a.job_id == job_id) ≡ false)
cleanup-kept job_id m id a g =
    let before = cleanup-before job_id m.pending m id a g in
    (before, ground (arith, cleanup-gone job_id m.pending m id a before, g))
