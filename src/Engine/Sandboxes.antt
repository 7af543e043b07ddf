-- ===== src/Engine/Sandboxes.antt =====
-- packages/engine/src/build.ts, executeAgentStep: the `finally` that tears a sandbox down.
use makedown.Base.{
  All, [], ◌++◌, Bool-cases, Text, text_eq, true, false, Option, List, ◌∷◌, Result-cases, inl, inr,
  ◌≡◌, refl, eq_refl, ◌∙◌, ap,
}
use makedown.Types.{Sandbox, worktree, container, no_sandbox, TargetBlock, BuildDoc}
use makedown.Engine.World.{World, AgentRunRequest, pure, throw, asks, modify, ◌>>=◌}
use makedown.Engine.World.Keeps.{Keeps, keeps_rules}
use makedown.Engine.Context.{Context, AgentRunner}
use makedown.Engine.Execute.Agent.{
  SandboxHandle, without_first, and_finally, run_agent, cleanup, provision_worktree,
  provision_sandbox, work, in_sandbox,
}
use makedown.Engine.Run.{run_build}
use makedown.Engine.Stable.Loop.{run_build-Stable}

without_first-head : (xs : List Text) (d : Text) → without_first (d ∷ xs) d ≡ xs
without_first-head xs d = rw (eq_refl d) refl

module _ (ctx : Context) (o : List Text) where
  run_agent-sandboxes :
      (runner : AgentRunner) (req : AgentRunRequest)
      → Keeps (λ w. w.sandboxes ≡ o) (run_agent ctx.agent_files runner req)
  unfolding run_agent
  run_agent-sandboxes runner req = record { at = λ w h. h }

  work-sandboxes :
      (runner : AgentRunner) (t : TargetBlock) (prompt : Text) (system : Option Text)
      (s : SandboxHandle)
      → Keeps (λ w. w.sandboxes ≡ o) (work ctx runner t prompt system s)
  unfolding work
  work-sandboxes runner t prompt system s = search (keeps_rules, run_agent-sandboxes) depth 20

-- A sandbox that was not torn down: its removal failed.
abbrev pub Stuck : Context → Text → Type 0
Stuck ctx dir = (v : World) × (ctx.torn_down v dir ≡ false)

-- The sandboxes that are there: `o`, and in front of them those whose removal failed.
abbrev pub LeftOver : Context → List Text → World → Type 0
LeftOver ctx o w = (left : List Text) × (w.sandboxes ≡ left ++ o) × All (Stuck ctx) left

module _ (ctx : Context) (o : List Text) where
  cleanup-LeftOver :
      (dir : Text) (w : World) (left : List Text)
      → w.sandboxes ≡ dir ∷ left ++ o
      → All (Stuck ctx) left
      → LeftOver ctx o (cleanup ctx.torn_down (record { dir = dir; is_worktree = true }) w)
  unfolding cleanup
  cleanup-LeftOver dir w left h stuck = elim (Bool-cases (ctx.torn_down w dir)) [
    | inl removed ↦
        rw removed
          (left, ap (λ ds. without_first ds dir) h ∙ without_first-head (left ++ o) dir, stuck)
    | inr fails ↦ rw fails (dir ∷ left, h, ((w, fails), stuck))
  ]

module _ (ctx : Context) (o : List Text) (runner : AgentRunner) (t : TargetBlock) (prompt : Text)
    (system : Option Text) where
  in_sandbox-of :
      (s : Sandbox)
      → Keeps (LeftOver ctx o) (
          provision_sandbox ctx s >>= λ h.
          and_finally (work ctx runner t prompt system h) (cleanup ctx.torn_down h))
  unfolding provision_sandbox provision_worktree ◌>>=◌ pure throw asks modify cleanup
  in_sandbox-of no_sandbox = record {
    at = λ w (left, h, stuck). (
      left,
      (work-sandboxes ctx (left ++ o) runner t prompt system
            (record { dir = ctx.workspace_dir; is_worktree = false })).at
          w h,
      stuck,
    );
  }
  in_sandbox-of container = record { at = λ w h. h }
  in_sandbox-of worktree = record {
    at = λ w (left, h, stuck). elim (Result-cases (ctx.add_worktree w)) [
      | inr (e, thrown) ↦ rw thrown (left, h, stuck)
      | inl (dir, added) ↦ rw added (
          cleanup-LeftOver ctx o dir _ left
            ((work-sandboxes ctx (dir ∷ left ++ o) runner t prompt system
                (record { dir = dir; is_worktree = true })).at
              (record w { sandboxes = dir ∷ w.sandboxes }) (ap (λ ds. dir ∷ ds) h))
            stuck)
    ];
  }

  in_sandbox-sandboxes : Keeps (LeftOver ctx o) (in_sandbox ctx runner t prompt system)
  unfolding in_sandbox
  in_sandbox-sandboxes = in_sandbox-of t.header.sandbox

-- A build tears down every sandbox that it provisions, unless the removal itself fails, and none that it
-- did not provision: those that are there after it are those before it, in the same order, and in front of
-- them only some whose removal failed, whether it returns or throws.
pub run_build-sandboxes :
    (ctx : Context) (doc : BuildDoc) (w : World) → LeftOver ctx w.sandboxes (run_build ctx doc w).1
run_build-sandboxes ctx doc w =
    (run_build-Stable ctx (LeftOver ctx w.sandboxes)
        (record {
          stores = λ v cas g h. h;
          writes = λ v fs h. h;
          completes = λ v reqs h. h;
          approves = λ v reqs h. h;
          emits = λ v es h. h;
          sandboxed =
              λ runner t prompt system. in_sandbox-sandboxes ctx w.sandboxes runner t prompt system;
        })
        doc).at
      w ([], refl, tt)
