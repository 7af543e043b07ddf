-- ===== src/Format/Lines.antt =====
-- packages/format/src/parse.ts: the lines of a document and the patterns that they are matched against.
use makedown.Base.{
  ℕ, zero, suc, ◌+◌, length, Text, text_eq, nat_eq, lit, is_space, trim, trim_start, Bool, true,
  false, not, ◌&&◌, ◌||◌, ◌==◌, Option, none, some, List, [], ◌∷◌, ◌++◌, has, is_some, leb,
  if◌then◌else◌,
}
use makedown.Format.Policy.{after}
use makedown.Refs.{bare_ref}

abbrev pub onto_first : ℕ → List Text → List Text
onto_first c [] = (c ∷ []) ∷ []
onto_first c (l ∷ ls) = (c ∷ l) ∷ ls

abbrev pub at_newline : Text → Bool
at_newline [] = false
at_newline (c ∷ s) = c == 10

-- `text.split(/\r?\n/)`
unfoldable pub split_lines : Text → List Text
split_lines [] = [] ∷ []
split_lines (c ∷ s) =
    let rest = split_lines s in
    if c == 10 then [] ∷ rest else if c == 13 && at_newline s then rest else onto_first c rest

-- `lines.join("\n")`
abbrev pub join_lines : List Text → Text
join_lines [] = []
join_lines (l ∷ ls) = let rest = join_lines ls in elim ls [ [] ↦ l | _ ∷ _ ↦ l ++ 10 ∷ rest ]

abbrev pub all_space : Text → Bool
all_space [] = true
all_space (c ∷ s) = is_space c && all_space s

-- What `.` does not match.
abbrev pub is_line_end : ℕ → Bool
is_line_end c = c == 10 || c == 13 || c == 0x2028 || c == 0x2029

abbrev pub some_line_end : Text → Bool
some_line_end [] = false
some_line_end (c ∷ s) = is_line_end c || some_line_end s

abbrev pub all_line_ends : Text → Bool
all_line_ends [] = true
all_line_ends (c ∷ s) = is_line_end c && all_line_ends s

-- `\s*(.+?)\s*$`: the name, trimmed; of white space alone the group takes the last that `.` matches.
abbrev pub heading_name : Text → Option Text
heading_name s =
    let name = trim s in
    elim name [
      | [] ↦ if all_line_ends s then none else some []
      | c ∷ rest ↦ if some_line_end (c ∷ rest) then none else some (c ∷ rest)
    ]

abbrev pub after_spaces : Text → Option Text
after_spaces [] = none
after_spaces (c ∷ s) =
    if is_space c
    then elim (after (lit "target:") (trim_start s)) [ none ↦ none | some rest ↦ heading_name rest ]
    else none

-- `/^##\s+target:\s*(.+?)\s*$/`, and the trimmed group
unfoldable pub target_heading : Text → Option Text
target_heading line = elim (after (lit "##") line) [ none ↦ none | some rest ↦ after_spaces rest ]

-- "/^```/"
abbrev pub is_fence : Text → Bool
is_fence line = is_some (after (lit "```") line)

-- A letter in lower case, for the flag `i`.
abbrev pub lower : ℕ → ℕ
lower c = if leb 65 c && leb c 90 then c + 32 else c

abbrev pub after_letters : Text → Text → Option Text
after_letters [] s = some s
after_letters (p ∷ prefix) [] = none
after_letters (p ∷ prefix) (c ∷ s) =
    let rest = after_letters prefix s in if p == lower c then rest else none

abbrev pub space_after : Option Text → Bool
space_after none = false
space_after (some rest) = all_space rest

-- "/^```ya?ml\s*$/i"
unfoldable pub is_yaml_fence : Text → Bool
is_yaml_fence line =
    space_after (after_letters (lit "```yaml") line)
    || space_after (after_letters (lit "```yml") line)

-- The text up to the first `}`, where there is some and a second `}` follows.
abbrev pub ref_at : Text → Text → Option Text
ref_at inside [] = none
ref_at inside (c ∷ s) =
    let more = ref_at (inside ++ c ∷ []) s in
    if c == b'}'
    then elim s [
      | [] ↦ none
      | d ∷ rest ↦ if d == b'}' && not (inside == []) then some inside else none
    ]
    else more

abbrev pub match_at : Text → Option Text
match_at s = elim (after (lit "{{") s) [ none ↦ none | some inner ↦ ref_at [] inner ]

abbrev pub add_ref : List Text → Text → List Text
add_ref refs ref = if has refs ref then refs else refs ++ ref ∷ []

-- `/\{\{\s*([^}]+?)\s*\}\}/g` from left to right, after a number of code units that a match took.
abbrev pub refs_from : ℕ → Text → List Text → List Text
refs_from skip [] refs = refs
refs_from (suc skip) (c ∷ s) refs = refs_from skip s refs
refs_from zero (c ∷ s) refs = elim (match_at (c ∷ s)) [
  | none ↦ refs_from 0 s refs
  | some inside ↦ refs_from (length inside + 3) s (add_ref refs (bare_ref (trim inside)))
]

unfoldable pub refs_in_body : Text → List Text
refs_in_body body = refs_from 0 body []
