-- ===== src/Import/Tests.antt =====
-- A file that is converted, moved, and imported again.
use makedown.Base.{Text, lit, text_eq, none, false, [], ◌∷◌, refl, ◌≡◌, ok}
use makedown.Base.Map.{get}
use makedown.Import.{
  ImportHints, Importer, ImportState, cache_get, cache_set, CachedImportInput, CachedImportResult,
  import_with_cache,
}
use makedown.Import.Cached.{served, import_with_cache_lem}

abbrev hints : ImportHints
hints = record { extension_hint = none; mime_hint = none; charset_hint = none }

abbrev importer : Importer
importer = record {
  id = lit "tool";
  version = ok (lit "1");
  convert = λ path h. ok (record { markdown = lit "text"; produced_by = lit "tool" });
}

abbrev input : Text → CachedImportInput
input path = record { path = path; bytes = 1 ∷ []; hints = hints }

abbrev after_first : ImportState
after_first =
    cache_set (lit "dir") (record { files = []; conversions = lit "a.pdf" ∷ [] }) (lit "id")
      (lit "text")

abbrev first : CachedImportResult
first = record { markdown = lit "text"; cached = false; id = lit "id" }

import_with_cache_lem_example :
    import_with_cache (λ b i v h. lit "id") (lit "dir") importer (input (lit "b.pdf")) after_first
    ≡ (ok (served first), after_first)
unfolding import_with_cache cache_get get
import_with_cache_lem_example =
    import_with_cache_lem (λ b i v h. lit "id") (lit "dir") importer (input (lit "a.pdf"))
      (input (lit "b.pdf")) (record { files = []; conversions = [] }) after_first first refl refl
      refl
