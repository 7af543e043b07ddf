-- ===== src/Refs.antt =====
-- packages/format/src/parse.ts: the bare name of a reference such as `sources/a.md:head(3)`.
use makedown.Base.{Text, none, some, take, index_of}

-- The text before the first colon, or all of it.
unfoldable pub bare_ref : Text → Text
unfolding index_of
bare_ref ref = elim (index_of b':' ref) [ none ↦ ref | some colon ↦ take colon ref ]
