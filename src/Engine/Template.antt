-- ===== src/Engine/Template.antt =====
-- packages/engine/src/template.ts: prompts with references, and the lists of a map step. Reading a file,
-- `realpath`, the importers and JSON are arguments.
pub mod Reads
mod Tests
use makedown.Base.{
  ℕ, zero, suc, ◌+◌, ◌-◌, Text, text_eq, nat_eq, lit, trim, index_of, Bool, true, false, not, ◌&&◌,
  ◌==◌, Option, none, some, is_some, List, [], ◌∷◌, ◌++◌, map, filterb, length, take, drop,
  if◌then◌else◌, Result, ok, err, ◌>>=◌, map_err,
}
use makedown.Base.Map.{Map, get}
use makedown.Types.{Json, str, arr, null, num, obj, bool, Items, nil, cons}
use makedown.Refs.{bare_ref}
use makedown.Format.Policy.{after, digits_then_close}
use makedown.Format.Lines.{split_lines, join_lines, match_at}
use makedown.Engine.Paths.{PathEscapeError, real_resolve_in_workspace}

pub data RenderError : Type 0 where
  path_escape : PathEscapeError → RenderError
  importer_error io_error : Text → RenderError

-- An `ImportResolver`: which sources it converts, and their text.
pub record Resolver : Type 0 where
  pub is_importable : Text → Bool
  pub resolve_text : List Text → Text → Result RenderError Text

-- The workspace as one rendering sees it.
pub record Sources : Type 0 where
  pub root : List Text
  pub realpath : List Text → Option (List Text)
  pub read_file : List Text → Result RenderError Text
  pub resolver : Option Resolver

abbrev pub in_place :
    Text → Option (Result PathEscapeError (List Text)) → Result RenderError (List Text)
in_place path none = err (io_error path)
in_place path (some r) = map_err path_escape r

abbrev pub read_source : Sources → Text → List Text → Option Resolver → Result RenderError Text
read_source src ref abs none = src.read_file abs
read_source src ref abs (some r) =
    if r.is_importable ref then r.resolve_text abs ref else src.read_file abs

-- A target's reference is read from its artifact's path, and never converted.
unfoldable pub read_ref_content : Sources → Map Text Text → Text → Result RenderError Text
read_ref_content src outputs ref = elim (get outputs ref) [
  | some path ↦
      in_place path (real_resolve_in_workspace src.realpath src.root path) >>= src.read_file
  | none ↦ in_place ref (real_resolve_in_workspace src.realpath src.root ref) >>= λ abs.
      read_source src ref abs src.resolver
]

abbrev pub suffix_of : Text → Option Text
suffix_of inner = elim (index_of b':' inner) [
  | none ↦ none
  | some colon ↦ some (drop (suc colon) inner)
]

-- `lines.slice(-n)`: with 0 that is all of them.
abbrev pub slice_last : ℕ → List Text → List Text
slice_last zero lines = lines
slice_last (suc n) lines = drop (length lines - suc n) lines

abbrev pub count_after : Text → Text → Option ℕ
count_after word suffix = elim (after word suffix) [
  | none ↦ none
  | some rest ↦ digits_then_close false 0 rest
]

unfoldable pub apply_suffix : Text → Option Text → Text
apply_suffix content none = content
apply_suffix content (some suffix) = elim (count_after (lit "head(") suffix) [
  | some n ↦ join_lines (take n (split_lines content))
  | none ↦ elim (count_after (lit "tail(") suffix) [
    | some n ↦ join_lines (slice_last n (split_lines content))
    | none ↦ content
  ]
]

abbrev pub is_importer_error : RenderError → Bool
is_importer_error (importer_error m) = true
is_importer_error (path_escape e) = false
is_importer_error (io_error m) = false

-- Quotation marks « and » around the text of a placeholder.
abbrev pub placeholder : Text → Text → Text
placeholder what ref = 0xab ∷ what ++ ref ++ 0xbb ∷ []

abbrev pub previewed : Bool → Bool → Text → RenderError → Result RenderError Text
previewed preview is_target ref e =
    if preview && is_target
    then ok (placeholder (lit "unbuilt artifact: ") ref)
    else if preview && is_importer_error e
    then ok (placeholder (lit "unconverted source: ") ref)
    else err e

-- `str.matchAll(REF_RE)` with the text between the matches: `skip` code units belong to the last match.
-- All references are read at once in the code; here the first that fails, in the text's order, is thrown.
unfoldable pub replace_async : (Text → Result RenderError Text) → ℕ → Text → Result RenderError Text
replace_async f skip [] = ok []
replace_async f (suc skip) (c ∷ s) = replace_async f skip s
replace_async f zero (c ∷ s) = elim (match_at (c ∷ s)) [
  | none ↦ replace_async f 0 s >>= λ rest. ok (c ∷ rest)
  | some inside ↦ f inside >>= λ replacement.
      replace_async f (length inside + 3) s >>= λ rest. ok (replacement ++ rest)
]

abbrev pub render_read :
    Bool → Bool → Text → Option Text → Result RenderError Text → Result RenderError Text
render_read preview is_target ref suffix (ok content) = ok (apply_suffix content suffix)
render_read preview is_target ref suffix (err e) = previewed preview is_target ref e

unfoldable pub render_ref :
    Sources → Map Text Text → Bool → Map Text Text → Text → Result RenderError Text
render_ref src outputs preview bindings inner =
    let trimmed = trim inner in
    let ref = bare_ref trimmed in
    elim (get bindings ref) [
      | some bound ↦ ok (apply_suffix bound (suffix_of trimmed))
      | none ↦
          render_read preview (is_some (get outputs ref)) ref (suffix_of trimmed)
            (read_ref_content src outputs ref)
    ]

unfoldable pub render_template :
    Sources → Map Text Text → Bool → Map Text Text → Text → Result RenderError Text
render_template src outputs preview bindings text =
    replace_async (render_ref src outputs preview bindings) 0 text

module _ (json_parse : Text → Option Json) (stringify : Json → Text) where
  abbrev pub item_text : Json → Text
  item_text (str s) = s
  item_text null = stringify null
  item_text (bool b) = stringify (bool b)
  item_text (num n) = stringify (num n)
  item_text (arr items) = stringify (arr items)
  item_text (obj fields) = stringify (obj fields)

  abbrev pub item_texts : Items → List Text
  item_texts nil = []
  item_texts (cons v items) = item_text v ∷ item_texts items

  abbrev pub list_lines : Text → List Text
  list_lines trimmed = filterb (λ l. not (l == [])) (map trim (split_lines trimmed))

  abbrev pub array_or_lines : Text → Option Json → List Text
  array_or_lines trimmed (some (arr items)) = item_texts items
  array_or_lines trimmed (some null) = list_lines trimmed
  array_or_lines trimmed (some (bool b)) = list_lines trimmed
  array_or_lines trimmed (some (num n)) = list_lines trimmed
  array_or_lines trimmed (some (str s)) = list_lines trimmed
  array_or_lines trimmed (some (obj fields)) = list_lines trimmed
  array_or_lines trimmed none = list_lines trimmed

  unfoldable pub parse_list : Text → List Text
  parse_list content =
      let trimmed = trim content in
      if is_some (after (lit "[") trimmed)
      then array_or_lines trimmed (json_parse trimmed)
      else list_lines trimmed
