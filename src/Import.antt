-- ===== src/Import.antt =====
-- packages/import/src: the importer interface (importer.ts) and the conversion cache (cache.ts). The
-- importer's tool, SHA-256 and `JSON.stringify` of a scalar are arguments.
pub mod Cached
mod Tests
use makedown.Base.{
  ℕ, Text, text_eq, text_ltb, lit, Option, none, some, Bool, true, false, List, [], ◌∷◌, ◌++◌, take,
  drop, if◌then◌else◌, Result, ok, err, ◌==◌,
}
use makedown.Base.Map.{Map, get, set}
use makedown.Types.{Json, null, bool, num, str, arr, obj, Items, nil, cons, Fields, end, field}
use makedown.Engine.Cas.{Bytes, hex}

pub record ImportHints : Type 0 where
  pub extension_hint : Option Text
  pub mime_hint : Option Text
  pub charset_hint : Option Text

pub record ImportResult : Type 0 where
  pub markdown : Text
  pub produced_by : Text

pub data ImporterErrorKind : Type 0 where
  not_installed timeout output_too_large conversion_failed : ImporterErrorKind

pub record Importer : Type 0 where
  pub id : Text
  pub version : Result ImporterErrorKind Text
  pub convert : Text → ImportHints → Result ImporterErrorKind ImportResult

-- An entry of an object, sorted in by its key, as text.
abbrev pub insert_entry : Text → Text → List (Text × Text) → List (Text × Text)
insert_entry k v [] = (k, v) ∷ []
insert_entry k v ((j, w) ∷ es) =
    let rest = insert_entry k v es in if text_ltb j k then (j, w) ∷ rest else (k, v) ∷ (j, w) ∷ es

abbrev pub comma_join : List Text → Text
comma_join [] = []
comma_join (s ∷ ss) = let rest = comma_join ss in elim ss [ [] ↦ s | _ ∷ _ ↦ s ++ b',' ∷ rest ]

module _ (stringify : Json → Text) where
  abbrev pub entry_texts : List (Text × Text) → List Text
  entry_texts [] = []
  entry_texts ((k, v) ∷ es) = (stringify (str k) ++ b':' ∷ v) ∷ entry_texts es

  unfoldable mutual
    pub canonical : Json → Text
    canonical null = stringify null
    canonical (bool b) = stringify (bool b)
    canonical (num n) = stringify (num n)
    canonical (str s) = stringify (str s)
    canonical (arr items) = b'[' ∷ comma_join (canonical_items items) ++ b']' ∷ []
    canonical (obj fields) = b'{' ∷ comma_join (entry_texts (canonical_fields fields)) ++ b'}' ∷ []

    pub canonical_items : Items → List Text
    canonical_items nil = []
    canonical_items (cons v items) = canonical v ∷ canonical_items items

    pub canonical_fields : Fields → List (Text × Text)
    canonical_fields end = []
    canonical_fields (field k v fields) = insert_entry k (canonical v) (canonical_fields fields)

  abbrev pub hint_field : Text → Option Text → Fields → Fields
  hint_field k none rest = rest
  hint_field k (some v) rest = field k (str v) rest

  abbrev pub hints_json : ImportHints → Json
  hints_json h = obj (
      hint_field (lit "extensionHint") h.extension_hint (
        hint_field (lit "mimeHint") h.mime_hint
          (hint_field (lit "charsetHint") h.charset_hint end)))

  -- `digest` is SHA-256 in hexadecimal, of bytes; `encode` is UTF-8.
  unfoldable pub conversion_id :
      (Text → Bytes) → (Bytes → Text) → Bytes → Text → Text → ImportHints → Text
  conversion_id encode digest bytes importer_id version hints =
      lit "sha256:"
      ++ digest (
          encode (
            lit "makedown-import-v1"
            ++ 10 ∷ importer_id
            ++ 10 ∷ version
            ++ 10 ∷ canonical (hints_json hints)
            ++ 10 ∷ [])
          ++ bytes)

-- The files of a FileImportCache by path, and the conversions that were run.
pub record ImportState : Type 0 where
  pub files : Map Text Text
  pub conversions : List Text

unfoldable pub path_for : Text → Text → Text
path_for dir id = let h = hex id in dir ++ b'/' ∷ take 2 h ++ b'/' ∷ drop 2 h ++ lit ".md"

unfoldable pub cache_get : Text → ImportState → Text → Option Text
cache_get dir s id = get s.files (path_for dir id)

unfoldable pub cache_set : Text → ImportState → Text → Text → ImportState
cache_set dir s id markdown = record s { files = set s.files (path_for dir id) markdown }

pub record CachedImportInput : Type 0 where
  pub path : Text
  pub bytes : Bytes
  pub hints : ImportHints

pub record CachedImportResult : Type 0 where
  pub markdown : Text
  pub cached : Bool
  pub id : Text

module _ (id_of : Bytes → Text → Text → ImportHints → Text) (dir : Text) where
  abbrev pub stored :
      ImportState
      → Text
      → Text
      → Result ImporterErrorKind ImportResult
      → Result ImporterErrorKind CachedImportResult × ImportState
  stored s path id (err e) = (err e, record s { conversions = s.conversions ++ path ∷ [] })
  stored s path id (ok r) = (
    ok (record { markdown = r.markdown; cached = false; id = id }),
    cache_set dir (record s { conversions = s.conversions ++ path ∷ [] }) id r.markdown,
  )

  abbrev pub looked_up :
      Importer
      → CachedImportInput
      → ImportState
      → Text
      → Option Text
      → Result ImporterErrorKind CachedImportResult × ImportState
  looked_up importer input s id (some hit) =
      (ok (record { markdown = hit; cached = true; id = id }), s)
  looked_up importer input s id none =
      stored s input.path id (importer.convert input.path input.hints)

  abbrev pub with_version :
      Importer
      → CachedImportInput
      → ImportState
      → Result ImporterErrorKind Text
      → Result ImporterErrorKind CachedImportResult × ImportState
  with_version importer input s (err e) = (err e, s)
  with_version importer input s (ok version) =
      let id = id_of input.bytes importer.id version input.hints in
      looked_up importer input s id (cache_get dir s id)

  unfoldable pub import_with_cache :
      Importer
      → CachedImportInput
      → ImportState
      → Result ImporterErrorKind CachedImportResult × ImportState
  import_with_cache importer input s = with_version importer input s importer.version
