-- ===== src/Engine/World.antt =====
-- What a build changes: the store, the workspace's files, and the calls it makes on the outside, each
-- kind logged with the newest last. An operation may throw, and what it wrote before stays written.
-- The errors are those of packages/engine/src/build.ts; `failed` is what a collaborator threw.
pub mod Keeps
pub mod Gives
use makedown.Base.{ℕ, Text, Bool, Option, List, Result, ok, err, ◌≡◌, refl, ap}
use makedown.Base.Map.{Map}
use makedown.Types.{StepType, Fields, TokenUsage}
use makedown.Graph.{GraphError}
use makedown.Providers.Errors.{CompletionRequest}
use makedown.Engine.Cas.{Bytes, LocalCas}

pub data BuildError : Type 0 where
  graph_error : GraphError → BuildError
  no_provider : Text → BuildError
  no_agent_runner : Text → BuildError
  no_over : Text → BuildError
  fanout_exceeded : Text → ℕ → ℕ → BuildError
  not_json : Text → BuildError
  no_script : Text → BuildError
  script_not_found : Text → BuildError
  bad_product : Text → BuildError
  not_implemented : Text → BuildError
  path_escape : Text → BuildError
  failed : Text → BuildError

pub data BuildEvent : Type 0 where
  target_start : Text → Bool → BuildEvent
  target_built target_reused target_denied target_skipped : Text → BuildEvent

pub record ApprovalRequest : Type 0 where
  pub target : Text
  pub id : Text
  pub output : Text
  pub preview : Text
  pub step : StepType

pub record AgentRunRequest : Type 0 where
  pub agent_id : Text
  pub model : Option Text
  pub system : Option Text
  pub prompt : Text
  pub params : Fields
  pub workdir : Text

pub record AgentRunResult : Type 0 where
  pub output : Text
  pub usage : TokenUsage
  pub cost_usd : Option ℕ
  pub produced_by : Option Text

pub record World : Type 0 where
  pub cas : LocalCas
  pub files : Map Text Bytes
  pub completions : List CompletionRequest
  pub agent_runs : List AgentRunRequest
  pub approvals : List ApprovalRequest
  -- provisioned and not yet cleaned up
  pub sandboxes : List Text
  pub events : List BuildEvent

abbrev pub Build {ℓ} : Type ℓ → Type ℓ
Build A = World → Result BuildError A × World

module _ {ℓ} {A : Type ℓ} where
  unfoldable pub pure : A → Build A
  pure a w = (ok a, w)

  unfoldable pub throw : BuildError → Build A
  throw e w = (err e, w)

  unfoldable pub lift : Result BuildError A → Build A
  lift r w = (r, w)

  unfoldable pub gets : (World → A) → Build A
  gets f w = (ok (f w), w)

  -- a collaborator that reads the state and may throw
  unfoldable pub asks : (World → Result BuildError A) → Build A
  asks f w = (f w, w)

  abbrev pub some_or : Option A → BuildError → Result BuildError A
  some_or o e = elim o [ Option.none ↦ err e | Option.some a ↦ ok a ]

unfoldable pub modify : (World → World) → Build (Unit {0})
modify f w = (ok tt, f w)

module _ {ℓ κ} {A : Type ℓ} {B : Type κ} where
  abbrev pub continue : Result BuildError A → (A → Build B) → Build B
  continue (ok a) f w = f a w
  continue (err e) f w = (err e, w)

  infixl 10 ◌>>=◌ ◌>>◌
  unfoldable pub ◌>>=◌ : Build A → (A → Build B) → Build B
  ◌>>=◌ m f w = let (r, w') = m w in continue r f w'

  abbrev pub ◌>>◌ : Build A → Build B → Build B
  m >> n = m >>= λ _. n

  continue-eq-ok :
      (r : Result BuildError A) (f : A → Build B) (w : World) {b : B} {w'' : World}
      → continue r f w ≡ (ok b, w'')
      → (a : A) × (r ≡ ok a) × (f a w ≡ (ok b, w''))
  continue-eq-ok (ok a) f w h = (a, refl, h)
  continue-eq-ok (err e) f w h = cc

  -- Inversion of a sequence that returned.
  pub bind-eq-ok :
      (m : Build A) (f : A → Build B) (w : World) {b : B} {w'' : World}
      → (m >>= f) w ≡ (ok b, w'')
      → (a : A) × (w' : World) × (m w ≡ (ok a, w')) × (f a w' ≡ (ok b, w''))
  unfolding ◌>>=◌
  bind-eq-ok m f w h =
      let (r, w') = m w in
      let (a, e, rest) = continue-eq-ok r f w' h in (a, w', ap (λ q. (q, w')) e, rest)
