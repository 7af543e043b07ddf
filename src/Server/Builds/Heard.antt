-- ===== src/Server/Builds/Heard.antt =====
-- What the listeners of a job have heard, when the job is written or calls them.
use makedown.Base.{
  ◌≤◌, Text, text_eq, true, false, not, ◌&&◌, none, some, List, [], ◌∷◌, ◌++◌, has, filterb,
  append_assoc, append-nil, if◌then◌else◌, ◌==◌, ◌≡◌, ap, subst, sym, ◌∙◌, arith, inl, inr,
  Bool-cases, eq_refl, some_inj,
}
use makedown.Base.Map.{Map, get, set, get-set}
use makedown.Server.Builds.Calls.{
  received-append, received-call_absent, received-call, received-replay, has-add_listener,
  count-add_listener, has-left, count-left,
}
use makedown.Server.Builds.{
  BuildStreamEvent, JobState, Call, count, add_listener, call, replay, received,
}

-- Each listener of a job was called with the job's history, and each that was one with a prefix of it.
pub record HeardAt (id : Text) (s : JobState) (calls : List Call) : Type 0 where
  pub exact : (l : Text) → has s.listeners l ≡ true → received id l calls ≡ s.history
  pub prefix :
      (l : Text) → (rest : List BuildStreamEvent) × (s.history ≡ received id l calls ++ rest)
  pub single : (l : Text) → count l s.listeners ≤ 1

pub record Heard (jobs : Map Text JobState) (calls : List Call) : Type 0 where
  pub at : (id : Text) (s : JobState) → get jobs id ≡ some s → HeardAt id s calls
  pub absent : (id l : Text) → get jobs id ≡ none → received id l calls ≡ []

-- Writing one job, with calls of its own listeners.
pub write-Heard :
    (jobs : Map Text JobState) (calls more : List Call) (id : Text) (s : JobState)
    → ((j l : Text) → (id == j) ≡ false → received j l more ≡ [])
    → HeardAt id s (calls ++ more)
    → Heard jobs calls
    → Heard (set jobs id s) (calls ++ more)
write-Heard jobs calls more id s others here heard =
    let same_calls : (j l : Text)
        → (id == j) ≡ false
        → received j l (calls ++ more) ≡ received j l calls =
      λ j l other.
        received-append j l calls more
        ∙ ap (λ es. received j l calls ++ es) (others j l other)
        ∙ append-nil (received j l calls) in
    record {
      at = λ j t found. elim (Bool-cases (id == j)) [
        | inl same ↦
            let there : some s ≡ some t = ground (arith, get-set jobs id j s) in
            subst (λ x. HeardAt j x (calls ++ more)) (some_inj there)
              (subst (λ i. HeardAt i s (calls ++ more)) ((text_eq.beq_iff id j).0 same) here)
        | inr other ↦
            let old = heard.at j t (ground (arith, get-set jobs id j s)) in
            record {
              exact = λ l h. same_calls j l other ∙ old.exact l h;
              prefix = λ l.
                  let (rest, e) = old.prefix l in
                  (rest, e ∙ ap (λ es. es ++ rest) (sym (same_calls j l other)));
              single = old.single;
            }
      ];
      absent = λ j l missing. ground (arith, same_calls j l, heard.absent j l, get-set jobs id j s);
    }

-- An event of a job reaches its listeners.
pub emit-HeardAt :
    (id : Text) (s : JobState) (calls : List Call) (e : BuildStreamEvent) (s' : JobState)
    → s'.history ≡ s.history ++ e ∷ []
    → s'.listeners ≡ s.listeners
    → HeardAt id s calls
    → HeardAt id s' (calls ++ call id e s.listeners)
emit-HeardAt id s calls e s' h ls old =
    let after : (l : Text)
        → has s.listeners l ≡ true
        → received id l (calls ++ call id e s.listeners) ≡ s'.history =
      λ l listens.
        received-append id l calls (call id e s.listeners)
        ∙ ap (λ es. es ++ received id l (call id e s.listeners)) (old.exact l listens)
        ∙ ap (λ es. s.history ++ es) (received-call id l e s.listeners listens (old.single l))
        ∙ sym h in
    record {
      exact = λ l listens. after l (ap (λ xs. has xs l) (sym ls) ∙ listens);
      prefix = λ l. elim (Bool-cases (has s.listeners l)) [
        | inl listens ↦ (
          [],
          sym (after l listens) ∙ sym (append-nil (received id l (calls ++ call id e s.listeners))),
        )
        | inr silent ↦
            let (rest, before) = old.prefix l in
            let same =
              received-append id l calls (call id e s.listeners)
              ∙ ap (λ es. received id l calls ++ es)
                  (received-call_absent id l e s.listeners silent)
              ∙ append-nil (received id l calls) in
            (
              rest ++ e ∷ [],
              h
                  ∙ ap (λ es. es ++ e ∷ []) before
                  ∙ append_assoc (received id l calls) rest (e ∷ [])
                  ∙ ap (λ es. es ++ (rest ++ e ∷ [])) (sym same),
            )
      ];
      single = λ l. ground (arith, ap (count l) ls, old.single l);
    }

-- A new listener hears what was said.
pub subscribe-HeardAt :
    (id listener : Text) (s : JobState) (calls : List Call)
    → received id listener calls ≡ []
    → HeardAt id s calls
    → HeardAt id
        (record s { listeners = add_listener s.listeners listener })
        (calls ++ replay id listener s.history)
subscribe-HeardAt id listener s calls new old =
    let heard : (l : Text)
        → received id l (calls ++ replay id listener s.history)
          ≡ received id l calls ++ (if listener == l then s.history else []) =
      λ l.
        received-append id l calls (replay id listener s.history)
        ∙ ap (λ es. received id l calls ++ es)
            (received-replay id id listener l s.history
              ∙ ap (λ b. if b && listener == l then s.history else []) (eq_refl id)) in
    let at : (l : Text)
        → (listener == l) ≡ true
        → received id l (calls ++ replay id listener s.history) ≡ s.history =
      λ l same.
        heard l
        ∙ ap (λ b. received id l calls ++ (if b then s.history else [])) same
        ∙ ap (λ x. received id x calls ++ s.history) (sym ((text_eq.beq_iff listener l).0 same))
        ∙ ap (λ es. es ++ s.history) new in
    let off : (l : Text)
        → (listener == l) ≡ false
        → received id l (calls ++ replay id listener s.history) ≡ received id l calls =
      λ l other.
        heard l
        ∙ ap (λ b. received id l calls ++ (if b then s.history else [])) other
        ∙ append-nil (received id l calls) in
    record {
      exact = λ l listens. elim (Bool-cases (listener == l)) [
        | inl same ↦ at l same
        | inr other ↦
            off l other ∙ old.exact l (has-add_listener s.listeners listener l other listens)
      ];
      prefix = λ l. elim (Bool-cases (listener == l)) [
        | inl same ↦ ([], sym (append-nil s.history) ∙ ap (λ es. es ++ []) (sym (at l same)))
        | inr other ↦
            let (rest, e) = old.prefix l in (rest, e ∙ ap (λ es. es ++ rest) (sym (off l other)))
      ];
      single = λ l. count-add_listener s.listeners listener l (old.single l);
    }

pub unsubscribe-HeardAt :
    (id listener : Text) (s : JobState) (calls : List Call)
    → HeardAt id s calls
    → HeardAt id (record s { listeners = filterb (λ l. not (l == listener)) s.listeners }) calls
unsubscribe-HeardAt id listener s calls old = record {
  exact = λ l listens. old.exact l (has-left s.listeners listener l listens);
  prefix = old.prefix;
  single = λ l. ground (arith, old.single l, count-left s.listeners listener l);
}
