-- ===== src/Engine/Imports.antt =====
-- packages/engine/src/imports.ts: the resolver that converts a source when it is read. `toLowerCase` and
-- the hash of raw bytes are arguments; a file's bytes are given with its path.
use makedown.Base.{
  Text, text_eq, nat_eq, lit, Bool, true, false, Option, none, some, List, [], ◌∷◌, ◌++◌, has,
  if◌then◌else◌, Result, ok, err, ◌==◌,
}
use makedown.Types.{ImportedSource}
use makedown.Engine.Cas.{Bytes}
use makedown.Import.{
  ImportHints, ImporterErrorKind, not_installed, Importer, ImportState, CachedImportResult,
  import_with_cache,
}

abbrev pub default_importable_extensions : List Text
default_importable_extensions =
    lit ".pdf"
    ∷ lit ".docx"
    ∷ lit ".doc"
    ∷ lit ".pptx"
    ∷ lit ".ppt"
    ∷ lit ".xlsx"
    ∷ lit ".xls"
    ∷ lit ".epub"
    ∷ lit ".html"
    ∷ lit ".htm"
    ∷ lit ".png"
    ∷ lit ".jpg"
    ∷ lit ".jpeg"
    ∷ lit ".gif"
    ∷ lit ".bmp"
    ∷ lit ".tiff"
    ∷ lit ".tif"
    ∷ []

abbrev pub all_slashes : Text → Bool
all_slashes [] = true
all_slashes (c ∷ s) = let rest = all_slashes s in if c == b'/' then rest else false

-- The text behind the last slash that something follows, less the slashes at its end.
abbrev pub base_name : Text → Text → Text
base_name name [] = name
base_name name (c ∷ s) =
    base_name (if c == b'/' then if all_slashes s then name else [] else name ++ c ∷ []) s

-- From the last dot on, where there is one.
abbrev pub last_dot : Text → Option Text
last_dot [] = none
last_dot (c ∷ s) = elim (last_dot s) [
  | some ext ↦ some ext
  | none ↦ if c == b'.' then some (c ∷ s) else none
]

-- `extname`: a dot that starts the name is none, and neither is that of `..`.
unfoldable pub extname : Text → Text
extname path = elim (base_name [] path) [
  | [] ↦ []
  | c ∷ name ↦
      if c ∷ name == lit ".." then [] else elim (last_dot name) [ none ↦ [] | some ext ↦ ext ]
]

unfoldable pub hints_for : Text → ImportHints
hints_for ref = record {
  extension_hint = some (extname ref);
  mime_hint = none;
  charset_hint = none;
}

-- The options of a resolver, and what its importer's version probe gave, once it was asked.
pub record ImportResolver : Type 0 where
  pub importer : Option Importer
  pub import_cache : Option Text
  pub extensions : List Text
  pub version_probe : Option (Option Text)

abbrev pub version_of : Result ImporterErrorKind Text → Option Text
version_of (ok v) = some v
version_of (err e) = none

unfoldable pub probe_version : ImportResolver → Option Text × ImportResolver
probe_version r = elim r.importer [
  | none ↦ (none, r)
  | some importer ↦ elim r.version_probe [
    | some probed ↦ (probed, r)
    | none ↦
        let probed = version_of importer.version in
        (probed, record r { version_probe = some probed })
  ]
]

unfoldable pub is_importable : (Text → Text) → ImportResolver → Text → Bool
is_importable to_lower_case r ref = has r.extensions (to_lower_case (extname ref))

module _ (id_of : Bytes → Text → Text → ImportHints → Text) where
  abbrev pub hash_of :
      (Bytes → Text) → Bytes → Text → Option Importer → Option Text → Text × Option ImportedSource
  hash_of sha256 bytes ref none version = (sha256 bytes, none)
  hash_of sha256 bytes ref (some importer) none = (sha256 bytes, none)
  hash_of sha256 bytes ref (some importer) (some version) =
      let id = id_of bytes importer.id version (hints_for ref) in
      (id, some (record { importer = importer.id; conversion_id = id }))

  unfoldable pub input_hash :
      (Bytes → Text)
      → ImportResolver
      → Bytes
      → Text
      → (Text × Option ImportedSource) × ImportResolver
  input_hash sha256 r bytes ref =
      let (version, r') = probe_version r in (hash_of sha256 bytes ref r.importer version, r')

  abbrev pub text_of :
      Result ImporterErrorKind CachedImportResult × ImportState
      → Result ImporterErrorKind Text × ImportState
  text_of (ok r, s) = (ok r.markdown, s)
  text_of (err e, s) = (err e, s)

  abbrev pub convert_text :
      Importer → Text → Text → ImportState → Result ImporterErrorKind Text × ImportState
  convert_text importer path ref s =
      let done = record s { conversions = s.conversions ++ path ∷ [] } in
      elim (importer.convert path (hints_for ref)) [
        | ok r ↦ (ok r.markdown, done)
        | err e ↦ (err e, done)
      ]

  unfoldable pub resolve_text :
      ImportResolver
      → Text
      → Bytes
      → Text
      → ImportState
      → Result ImporterErrorKind Text × ImportState
  resolve_text r path bytes ref s = elim r.importer [
    | none ↦ (err not_installed, s)
    | some importer ↦ elim r.import_cache [
      | none ↦ convert_text importer path ref s
      | some dir ↦ text_of (
          import_with_cache id_of dir importer
            (record { path = path; bytes = bytes; hints = hints_for ref }) s)
    ]
  ]
