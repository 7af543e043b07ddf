-- ===== src/Engine/Paths.antt =====
-- packages/engine/src/paths.ts: paths that a document declares, held inside the workspace. Node's path
-- functions are those of POSIX: an absolute path is the list of its segments. `realpath` is an argument.
pub mod Inside
mod Tests
use makedown.Base.{
  ℕ, zero, suc, length, Text, text_eq, nat_eq, lit, Bool, true, false, not, ◌&&◌, ◌||◌, ◌==◌, leb,
  Option, none, some, List, [], ◌∷◌, ◌++◌, has, if◌then◌else◌, Result, ok, err,
}

pub data PathEscapeError : Type 0 where
  nul_byte absolute_path escapes_root through_symlink : Text → PathEscapeError

-- A path's parts between its slashes.
abbrev pub onto_part : ℕ → List Text → List Text
onto_part c [] = (c ∷ []) ∷ []
onto_part c (s ∷ ss) = (c ∷ s) ∷ ss

unfoldable pub parts : Text → List Text
parts [] = [] ∷ []
parts (c ∷ p) = let rest = parts p in if c == b'/' then [] ∷ rest else onto_part c rest

abbrev pub join_parts : List Text → Text
join_parts [] = []
join_parts (s ∷ ss) = let rest = join_parts ss in elim ss [ [] ↦ s | _ ∷ _ ↦ s ++ b'/' ∷ rest ]

abbrev pub without_last : List Text → List Text
without_last [] = []
without_last (s ∷ ss) = let rest = without_last ss in elim ss [ [] ↦ [] | _ ∷ _ ↦ s ∷ rest ]

-- One part of a path after the segments so far: empty ones and dots are dropped, two dots take one back.
abbrev pub step : List Text → Text → List Text
step at part =
    if part == [] || part == lit "."
    then at
    else if part == lit ".."
    then without_last at
    else at ++ part ∷ []

abbrev pub walk_parts : List Text → List Text → List Text
walk_parts at [] = at
walk_parts at (part ∷ rest) = walk_parts (step at part) rest

abbrev pub is_absolute : Text → Bool
is_absolute [] = false
is_absolute (c ∷ p) = c == b'/'

-- `resolve(base, path)`, from an absolute base
unfoldable pub resolve : List Text → Text → List Text
resolve base path = walk_parts (if is_absolute path then [] else base) (parts path)

abbrev pub is_letter : ℕ → Bool
is_letter c = leb 65 c && leb c 90 || leb 97 c && leb c 122

abbrev pub is_slash : ℕ → Bool
is_slash c = c == b'/' || c == b'\\'

-- `win32.isAbsolute`
abbrev pub is_absolute_windows : Text → Bool
is_absolute_windows [] = false
is_absolute_windows (c ∷ []) = is_slash c
is_absolute_windows (c ∷ d ∷ []) = is_slash c
is_absolute_windows (c ∷ d ∷ e ∷ p) = is_slash c || is_letter c && d == b':' && is_slash e

unfoldable pub is_absolute_any_os : Text → Bool
is_absolute_any_os path = is_absolute path || is_absolute_windows path

abbrev pub ups : List Text → List Text
ups [] = []
ups (s ∷ ss) = lit ".." ∷ ups ss

-- `relative(from, to)`, before it is joined
abbrev pub relative_parts : List Text → List Text → List Text
relative_parts [] to = to
relative_parts (s ∷ from) [] = ups (s ∷ from)
relative_parts (s ∷ from) (t ∷ to) =
    let rest = relative_parts from to in if s == t then rest else ups (s ∷ from) ++ t ∷ to

unfoldable pub relative : List Text → List Text → Text
relative from to = join_parts (relative_parts from to)

-- `rel.startsWith("../")`
abbrev pub starts_up : Text → Bool
starts_up [] = false
starts_up (a ∷ []) = false
starts_up (a ∷ b ∷ []) = false
starts_up (a ∷ b ∷ c ∷ rest) = a == b'.' && b == b'.' && c == b'/'

abbrev pub climbs : Text → Bool
climbs rel = rel == lit ".." || starts_up rel

unfoldable pub is_within : List Text → List Text → Bool
is_within root child =
    let rel = relative root child in rel == [] || not (climbs rel) && not (is_absolute rel)

unfoldable pub resolve_in_workspace : List Text → Text → Result PathEscapeError (List Text)
resolve_in_workspace root path =
    if has path 0
    then err (nul_byte path)
    else if is_absolute_any_os path
    then err (absolute_path path)
    else let abs = resolve root path in
      let rel = relative root abs in
      if rel == [] || climbs rel || is_absolute rel then err (escapes_root path) else ok abs

module _ (realpath : List Text → Option (List Text)) where
  -- The parents of a path, nearest first, by the count of its segments; the root has no other parent.
  abbrev pub deepest : ℕ → List Text → List Text
  deepest zero path = elim (realpath path) [ none ↦ path | some real ↦ real ]
  deepest (suc above) path =
      let parent = deepest above (without_last path) in
      elim (realpath path) [ none ↦ parent | some real ↦ real ]

  unfoldable pub realpath_deepest_existing : List Text → List Text
  realpath_deepest_existing path = deepest (length path) path

  -- From the lexical check's result and the workspace's real place, which the code looks up only when
  -- the check passed; `none` where the workspace does not exist.
  abbrev pub followed :
      Text
      → Result PathEscapeError (List Text)
      → Option (List Text)
      → Option (Result PathEscapeError (List Text))
  followed path (err e) root_real = some (err e)
  followed path (ok abs) none = none
  followed path (ok abs) (some root_real) = some (
      if is_within root_real (realpath_deepest_existing abs)
      then ok abs
      else err (through_symlink path))

  unfoldable pub real_resolve_in_workspace :
      List Text → Text → Option (Result PathEscapeError (List Text))
  real_resolve_in_workspace root path =
      followed path (resolve_in_workspace root path) (realpath root)
