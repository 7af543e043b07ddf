-- ===== src/Import/Cached.antt =====
-- A source that was imported once is served from the cache.
use makedown.Base.{
  Text, text_eq, Option, none, some, true, Result, ok, err, ◌≡◌, refl, ap, sym, ◌∙◌, subst,
}
use makedown.Base.Map.{get-set_self}
use makedown.Engine.Cas.{Bytes}
use makedown.Import.{
  ImportHints, ImportResult, ImporterErrorKind, Importer, ImportState, path_for, cache_get,
  cache_set, CachedImportInput, CachedImportResult, stored, looked_up, with_version,
  import_with_cache,
}

abbrev pub served : CachedImportResult → CachedImportResult
served r = record r { cached = true }

abbrev Outcome : Type 0
Outcome = Result ImporterErrorKind CachedImportResult × ImportState

-- What holds of the result and the state of an import that did not throw.
abbrev OnDone : (CachedImportResult → ImportState → Type 0) → Outcome → Type 0
OnDone P (ok r, s) = P r s
OnDone P (err e, s) = Unit

OnDone-map :
    (P Q : CachedImportResult → ImportState → Type 0) (o : Outcome)
    → ((r : CachedImportResult) (s : ImportState) → P r s → Q r s)
    → OnDone P o
    → OnDone Q o
OnDone-map P Q (ok r, s) f p = f r s p
OnDone-map P Q (err e, s) f p = tt

module _ (id_of : Bytes → Text → Text → ImportHints → Text) (dir : Text) where
  abbrev InCache : Text → CachedImportResult → ImportState → Type 0
  InCache id r s = (r.id ≡ id) × (cache_get dir s id ≡ some r.markdown)

  stored-InCache :
      (s : ImportState) (path id : Text) (made : Result ImporterErrorKind ImportResult)
      → OnDone (InCache id) (stored id_of dir s path id made)
  unfolding cache_get cache_set
  stored-InCache s path id (err e) = tt
  stored-InCache s path id (ok r) = (refl, get-set_self s.files (path_for dir id) r.markdown)

  looked_up-InCache :
      (importer : Importer) (input : CachedImportInput) (s : ImportState) (id : Text)
      (hit : Option Text)
      → cache_get dir s id ≡ hit
      → OnDone (InCache id) (looked_up id_of dir importer input s id hit)
  looked_up-InCache importer input s id (some hit) g = (refl, g)
  looked_up-InCache importer input s id none g =
      stored-InCache s input.path id (importer.convert input.path input.hints)

  with_version-served :
      (importer : Importer) (input again : CachedImportInput) (s : ImportState)
      (v : Result ImporterErrorKind Text)
      → again.bytes ≡ input.bytes
      → again.hints ≡ input.hints
      → OnDone
          (λ r s'. with_version id_of dir importer again s' v ≡ (ok (served r), s'))
          (with_version id_of dir importer input s v)
  with_version-served importer input again s (err e) bytes hints = tt
  with_version-served importer input again s (ok version) bytes hints =
      let id = id_of input.bytes importer.id version input.hints in
      let same =
        ap (λ b. id_of b importer.id version again.hints) bytes
        ∙ ap (id_of input.bytes importer.id version) hints in
      OnDone-map (InCache id)
        (λ r s'. with_version id_of dir importer again s' (ok version) ≡ (ok (served r), s'))
        (looked_up id_of dir importer input s id (cache_get dir s id))
        (λ r s' (of_id, found).
          ap (λ i. looked_up id_of dir importer again s' i (cache_get dir s' i)) same
          ∙ ap (looked_up id_of dir importer again s' id) found
          ∙ ap (λ i. (ok (record { markdown = r.markdown; cached = true; id = i }), s'))
              (sym of_id))
        (looked_up-InCache importer input s id (cache_get dir s id) refl)

  -- Where an import returned, importing the same bytes with the same hints again, from wherever they are
  -- read, gives the same Markdown and id from the cache, and neither converts nor writes.
  pub import_with_cache_lem :
      (importer : Importer) (input again : CachedImportInput) (s s' : ImportState)
      (r : CachedImportResult)
      → again.bytes ≡ input.bytes
      → again.hints ≡ input.hints
      → import_with_cache id_of dir importer input s ≡ (ok r, s')
      → import_with_cache id_of dir importer again s' ≡ (ok (served r), s')
  unfolding import_with_cache
  import_with_cache_lem importer input again s s' r bytes hints e =
      subst
        (OnDone
          (λ r s'. with_version id_of dir importer again s' importer.version ≡ (ok (served r), s')))
        e (with_version-served importer input again s importer.version bytes hints)
