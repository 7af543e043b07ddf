-- ===== src/Engine.antt =====
-- packages/engine/src: the content-addressed store, planning and the build loop.
pub mod Paths
pub mod Hash
pub mod Template
pub mod Imports
pub mod Cas
pub mod World
pub mod Context
pub mod Plan
pub mod Artifact
pub mod Execute
pub mod Run
pub mod Cost
pub mod Stable
pub mod Sandboxes
pub mod Objects
pub mod Approval
pub mod Outcome
mod Sample
mod Tests
