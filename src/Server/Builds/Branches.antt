-- ===== src/Server/Builds/Branches.antt =====
-- What BuildManager does for an id that it has and for one that it does not.
use makedown.Base.{
  Text, text_eq, Bool, true, false, not, Option, none, some, ◌++◌, filterb, ◌==◌, ◌≡◌, ◌⊎◌, inl,
  inr, ap, Option-cases,
}
use makedown.Base.Map.{get, set}
use makedown.Server.Builds.{
  PendingApproval, JobState, BuildManager, add_listener, replay, subscribe, unsubscribe,
  resolve_approval, settle,
}

pub subscribe_lem :
    (m : BuildManager) (id listener : Text)
    → (subscribe m id listener ≡ m)
      ⊎ ((s : JobState) × (get m.jobs id ≡ some s)
          × (subscribe m id listener ≡ record m {
            jobs = set m.jobs id (record s { listeners = add_listener s.listeners listener });
            calls = m.calls ++ replay id listener s.history;
          }))
unfolding subscribe
subscribe_lem m id listener =
    let at : Option JobState → BuildManager = λ o. elim o [
      | none ↦ m
      | some s ↦ record m {
        jobs = set m.jobs id (record s { listeners = add_listener s.listeners listener });
        calls = m.calls ++ replay id listener s.history;
      }
    ] in
    elim (Option-cases (get m.jobs id)) [
      | inl missing ↦ inl (ap at missing)
      | inr (s, found) ↦ inr (s, found, ap at found)
    ]

pub unsubscribe_lem :
    (m : BuildManager) (id listener : Text)
    → (unsubscribe m id listener ≡ m)
      ⊎ ((s : JobState) × (get m.jobs id ≡ some s)
          × (unsubscribe m id listener ≡ record m {
            jobs =
                set m.jobs id
                  (record s { listeners = filterb (λ l. not (l == listener)) s.listeners });
          }))
unfolding unsubscribe
unsubscribe_lem m id listener =
    let at : Option JobState → BuildManager = λ o. elim o [
      | none ↦ m
      | some s ↦ record m {
        jobs =
            set m.jobs id (record s { listeners = filterb (λ l. not (l == listener)) s.listeners });
      }
    ] in
    elim (Option-cases (get m.jobs id)) [
      | inl missing ↦ inl (ap at missing)
      | inr (s, found) ↦ inr (s, found, ap at found)
    ]

pub resolve_approval_lem :
    (m : BuildManager) (id : Text) (approved : Bool)
    → (resolve_approval m id approved ≡ (false, m))
      ⊎ ((a : PendingApproval) × (get m.pending id ≡ some a)
          × (resolve_approval m id approved ≡ (true, settle m id approved)))
unfolding resolve_approval
resolve_approval_lem m id approved =
    let at : Option PendingApproval → Bool × BuildManager =
      λ o. elim o [ none ↦ (false, m) | some _ ↦ (true, settle m id approved) ] in
    elim (Option-cases (get m.pending id)) [
      | inl missing ↦ inl (ap at missing)
      | inr (a, found) ↦ inr (a, found, ap at found)
    ]
