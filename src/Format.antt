-- ===== src/Format.antt =====
-- packages/format and the schemas of packages/shared: the text of a build document.
pub mod Policy
pub mod Lines
pub mod Parse
pub mod Sample
mod Tests
