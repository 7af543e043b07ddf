-- ===== src/Engine/Approval.antt =====
-- packages/engine/src/build.ts, executeAgentStep: the approval gate.
pub mod Gate
use makedown.Base.{
  ℕ, Text, text_eq, Bool, true, false, Bool-cases, Option, none, some, List, Result, ok, err,
  ok-injective, inl, inr, ◌⊎◌, ◌≡◌, refl, ap, ◌∙◌, sym, subst, if◌then◌else◌, arith, eq_refl, ◌==◌,
}
use makedown.Base.Map.{Map}
use makedown.Types.{Approval, not_required, required, TargetBlock, Provenance}
use makedown.Engine.Cas.{LocalCas, Bytes, hex, get_object, put, put_provenance}
use makedown.Engine.Cas.Laws.{get_object-put}
use makedown.Engine.World.{
  World, Build, BuildError, ApprovalRequest, AgentRunRequest, pure, lift, asks, modify, ◌>>=◌, ◌>>◌,
  bind-eq-ok,
}
use makedown.Engine.World.Keeps.{Keeps, Keeps-modify, keeps_rules}
use makedown.Engine.World.Gives.{Gives, Gives-first, Ends, Ends-seq, Keeps-at}
use makedown.Engine.Context.{Context, Approver, Outputs}
use makedown.Engine.Plan.{TargetPlan}
use makedown.Engine.Artifact.{
  need_provider, render_prompt, render_some, render_system, put_object, write_output,
  record_provenance, store_artifact,
}
use makedown.Engine.Execute.Agent.{
  AgentWork, artifact_text, ask, ask_some, in_sandbox, approved, approval_request, agent_provenance,
  accept, execute_agent_step,
}
use makedown.Engine.Stable.Sandboxed.{in_sandbox-Keeps}

-- The approver was asked about a text, granted it, and that text is the artifact in the store.
pub record Granted (ctx : Context) (t : TargetBlock) (tp : TargetPlan) (w : World) : Type 0 where
  pub text : Text
  pub approver : Approver
  pub before : World
  pub wired : ctx.approve ≡ some approver
  pub granted : approver before (approval_request t tp text) ≡ ok true
  pub stored : get_object w.cas tp.id ≡ some (ctx.encode text)

-- Approval was needed, and there was no approver, or it was shown a text and denied it.
abbrev pub Denied : Context → TargetBlock → TargetPlan → Type 0
Denied ctx t tp =
    (t.header.approval ≡ required)
    × ((ctx.approve ≡ none)
        ⊎ ((approver : Approver) × (before : World) × (text : Text) × (ctx.approve ≡ some approver)
            × (approver before (approval_request t tp text) ≡ ok false)))

-- The store is as it was, and the files are as they were or as an agent left them.
abbrev pub Untouched : Context → LocalCas → Map Text Bytes → World → Type 0
Untouched ctx cas files w =
    (w.cas ≡ cas)
    × ((w.files ≡ files)
        ⊎ ((v : World) × (req : AgentRunRequest) × (w.files ≡ ctx.agent_files v req)))

module _ (ctx : Context) (id : Text) (content : Bytes) where
  put_object-stored : Gives (λ u w. get_object w.cas id ≡ some content) (put_object ctx id content)
  unfolding put_object modify
  put_object-stored = record {
    at = λ w u w' h.
        rw (sym (ap (λ q. q.1) h), get_object-put w.cas id id content, eq_refl (hex id)) refl;
  }

  write_output-stored :
      (output : Text) (c : Bytes)
      → Keeps (λ w. get_object w.cas id ≡ some content) (write_output ctx output c)
  unfolding write_output
  write_output-stored output c = search (keeps_rules, Keeps-modify)

  record_provenance-stored :
      (p : World → Provenance)
      → Keeps (λ w. get_object w.cas id ≡ some content) (record_provenance ctx p)
  unfolding record_provenance get_object put_provenance
  record_provenance-stored p = Keeps-modify _ (λ w h. h)

pub store_artifact-stored :
    (ctx : Context) (t : TargetBlock) (tp : TargetPlan) (content : Bytes) (p : World → Provenance)
    → Gives (λ u w. get_object w.cas tp.id ≡ some content) (store_artifact ctx t tp content p)
unfolding store_artifact
store_artifact-stored ctx t tp content p =
    Gives-first _ _ (put_object-stored ctx tp.id content) (λ u. search (
      keeps_rules,
      write_output-stored ctx tp.id content,
      record_provenance-stored ctx tp.id content,
    ))

module _ (ctx : Context) where
  ask_some-granted :
      (a : Option Approver) (req : ApprovalRequest) (w w' : World)
      → ask_some ctx a req w ≡ (ok true, w')
      → (f : Approver) × (a ≡ some f) × (f w req ≡ ok true)
  unfolding pure ask
  ask_some-granted none req w w' h = cc
  ask_some-granted (some f) req w w' h = (f, refl, ap (λ q. q.0) h)

  approved-granted :
      (a : Approval) (req : ApprovalRequest) (w w' : World)
      → a ≡ required
      → approved ctx a req w ≡ (ok true, w')
      → (f : Approver) × (ctx.approve ≡ some f) × (f w req ≡ ok true)
  unfolding approved
  approved-granted not_required req w w' e h = cc
  approved-granted required req w w' e h = ask_some-granted ctx.approve req w w' h

  ask_some-denied :
      (a : Option Approver) (req : ApprovalRequest) (w w' : World)
      → ask_some ctx a req w ≡ (ok false, w')
      → (a ≡ none) ⊎ ((f : Approver) × (a ≡ some f) × (f w req ≡ ok false))
  unfolding ask
  ask_some-denied none req w w' h = inl refl
  ask_some-denied (some f) req w w' h = inr (f, refl, ap (λ q. q.0) h)

  approved-denied :
      (a : Approval) (req : ApprovalRequest) (w w' : World)
      → approved ctx a req w ≡ (ok false, w')
      → (a ≡ required)
        × ((ctx.approve ≡ none) ⊎ ((f : Approver) × (ctx.approve ≡ some f) × (f w req ≡ ok false)))
  unfolding approved pure
  approved-denied not_required req w w' h = cc
  approved-denied required req w w' h = (refl, ask_some-denied ctx.approve req w w' h)

  approved-Denied :
      (t : TargetBlock) (tp : TargetPlan) (text : Text) (w w' : World)
      → approved ctx t.header.approval (approval_request t tp text) w ≡ (ok false, w')
      → Denied ctx t tp
  approved-Denied t tp text w w' h =
      let (needed, answer) =
        approved-denied t.header.approval (approval_request t tp text) w w' h in
      (
        needed,
        elim answer [
          | inl no_approver ↦ inl no_approver
          | inr (f, wired, answered) ↦ inr (f, w, text, wired, answered)
        ],
      )

module _ (ctx : Context) (cas : LocalCas) (files : Map Text Bytes) where
  ask_some-Untouched :
      (a : Option Approver) (req : ApprovalRequest)
      → Keeps (Untouched ctx cas files) (ask_some ctx a req)
  unfolding ask
  ask_some-Untouched none req = search keeps_rules
  ask_some-Untouched (some a) req = record { at = λ w h. h }

  approved-Untouched :
      (a : Approval) (req : ApprovalRequest) → Keeps (Untouched ctx cas files) (approved ctx a req)
  unfolding approved
  approved-Untouched not_required req = search keeps_rules
  approved-Untouched required req = ask_some-Untouched ctx.approve req

  pub render_some-Untouched :
      (outputs : Outputs) (item s : Option Text)
      → Keeps (Untouched ctx cas files) (render_some ctx outputs item s)
  render_some-Untouched outputs item none = search keeps_rules
  render_some-Untouched outputs item (some s) = search keeps_rules

  -- The two ends of the gate.
  abbrev pub Gated : TargetBlock → TargetPlan → Bool → World → Type 0
  Gated t tp b w =
      (b ≡ false → Untouched ctx cas files w × Denied ctx t tp)
      × (b ≡ true → t.header.approval ≡ required → Granted ctx t tp w)

  pub accept-Gated :
      (t : TargetBlock) (tp : TargetPlan) (prompt : Text) (done : AgentWork)
      → Ends (Untouched ctx cas files) (Gated t tp) (accept ctx t tp prompt done)
  unfolding accept pure
  accept-Gated t tp prompt done = record {
    at = λ w b w'' p h.
        let text = artifact_text done.diff done.result.output in
        let (g, w', asked, rest) =
          bind-eq-ok (approved ctx t.header.approval (approval_request t tp text)) _ w h in
        elim (Bool-cases g) [
          | inl yes_granted ↦
              let (u, v, kept, last) =
                bind-eq-ok
                  (store_artifact ctx t tp (ctx.encode text)
                    (agent_provenance ctx t tp prompt done))
                  (λ _. pure true) w' (rw yes_granted at rest) in
              (
                λ no_b. cc,
                λ b_true req.
                    let (f, wired, granted) =
                      approved-granted ctx t.header.approval (approval_request t tp text) w w' req
                        (rw yes_granted at asked) in
                    record {
                      text = text;
                      approver = f;
                      before = w;
                      wired = wired;
                      granted = granted;
                      stored =
                          subst (λ s. get_object s.cas tp.id ≡ some (ctx.encode text))
                            (ap (λ q. q.1) last)
                            ((store_artifact-stored ctx t tp (ctx.encode text)
                                (agent_provenance ctx t tp prompt done)).at
                              w' u v kept);
                    },
              )
          | inr not_granted ↦
              let last = rw not_granted at rest in
              (
                λ no_b. (
                  subst (Untouched ctx cas files) (ap (λ q. q.1) last) (
                      Keeps-at _ (approved-Untouched t.header.approval (approval_request t tp text))
                        asked p),
                  approved-Denied ctx t tp text w w' (rw not_granted at asked),
                ),
                λ b_true req. cc,
              )
        ];
  }
