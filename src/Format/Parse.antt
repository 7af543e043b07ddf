-- ===== src/Format/Parse.antt =====
-- packages/format/src/parse.ts: parseBuildDoc. The YAML reader, with the schemas that it is checked
-- against, is an argument.
pub mod Target
pub mod WellFormed
use makedown.Base.{
  ℕ, zero, suc, Text, text_eq, lit, trim, Bool, true, false, not, ◌&&◌, ◌||◌, ◌==◌, Option, none,
  some, or_default, is_some, List, [], ◌∷◌, ◌++◌, map, has, if◌then◌else◌, Result, ok, err, ◌>>=◌,
  map_err,
}
use makedown.Types.{
  StepType, chat, agent, transform, eval, map_step, Sandbox, Approval, RoutePolicy, CachePolicy,
  deterministic, stochastic, always, Json, Fields, end, field, RecipeHeader, TargetBlock, Defaults,
  FrontMatter, BuildDoc,
}
use makedown.Refs.{bare_ref}
use makedown.Format.Policy.{PolicyError, parse_cache_policy, is_valid_target_name}
use makedown.Format.Lines.{
  split_lines, join_lines, target_heading, is_fence, is_yaml_fence, refs_in_body,
}

pub record RawDefaults : Type 0 where
  pub model : Option Text
  pub fallback : Option (List Text)
  pub route : Option RoutePolicy
  pub system : Option Text
  pub params : Option Fields
  pub cache : Option Text

pub record RawFrontMatter : Type 0 where
  pub version : Option Text
  pub defaults : Option RawDefaults
  pub artifacts_dir : Text
  pub sources_dir : Text

pub record RawRecipeHeader : Type 0 where
  pub inputs : List Text
  pub step : StepType
  pub model : Option Text
  pub fallback : Option (List Text)
  pub route : Option RoutePolicy
  pub system : Option Text
  pub params : Fields
  pub output : Option Text
  pub cache : Option Text
  pub agent_id : Option Text
  pub sandbox : Sandbox
  pub approval : Approval
  pub transform_script : Option Text
  pub over : Option Text
  pub schema : Option Json

-- `frontMatterSchema` and `recipeHeaderSchema` applied to the YAML of a text.
pub record Reader : Type 0 where
  pub front_matter : Option Text → Result Text RawFrontMatter
  pub recipe_header : Text → Result Text RawRecipeHeader

-- What is thrown; a number is the line of a heading.
pub data ParseError : Type 0 where
  unterminated_front_matter : ParseError
  bad_front_matter : Text → ParseError
  bad_policy : PolicyError → ParseError
  no_recipe_header unterminated_header invalid_name : (name : Text) (line : ℕ) → ParseError
  invalid_header : (name message : Text) (line : ℕ) → ParseError
  no_transform no_agent no_over : (name : Text) (line : ℕ) → ParseError
  over_undeclared : (name over : Text) (line : ℕ) → ParseError
  bad_stochastic : (name : Text) (line : ℕ) → ParseError
  undeclared_ref : (name ref : Text) (line : ℕ) → ParseError
  duplicate_name : (name : Text) → ParseError

abbrev pub is_rule : Text → Bool
is_rule line = trim line == lit "---"

-- The lines before the closing rule, and those behind it.
abbrev pub until_rule : List Text → List Text → Option (List Text × List Text)
until_rule front [] = none
until_rule front (l ∷ ls) =
    let more = until_rule (front ++ l ∷ []) ls in if is_rule l then some (front, ls) else more

abbrev closed : Option (List Text × List Text) → Result ParseError (Option Text × Text)
closed none = err unterminated_front_matter
closed (some (front, body)) = ok (some (join_lines front), join_lines body)

abbrev from_lines : Text → List Text → Result ParseError (Option Text × Text)
from_lines text [] = ok (none, text)
from_lines text (l ∷ ls) = if is_rule l then closed (until_rule [] ls) else ok (none, text)

unfoldable pub split_front_matter : Text → Result ParseError (Option Text × Text)
split_front_matter text = from_lines text (split_lines text)

-- An empty string counts as absent.
abbrev pub non_empty : Option Text → Option Text
non_empty none = none
non_empty (some []) = none
non_empty (some (c ∷ s)) = some (c ∷ s)

abbrev pub read_policy : Text → Result ParseError CachePolicy
read_policy raw = map_err bad_policy (parse_cache_policy (some raw))

abbrev optional_policy : Option Text → Result ParseError (Option CachePolicy)
optional_policy none = ok none
optional_policy (some raw) = read_policy raw >>= λ p. ok (some p)

abbrev normalize_defaults : Option RawDefaults → Result ParseError (Option Defaults)
normalize_defaults none = ok none
normalize_defaults (some raw) = do
  cache ← optional_policy (non_empty raw.cache)
  ok (
      some (record {
        model = raw.model;
        fallback = raw.fallback;
        route = raw.route;
        system = raw.system;
        params = raw.params;
        cache = cache;
      }))

pub record RawTarget : Type 0 where
  pub name : Text
  pub yaml_text : Text
  pub body : Text
  pub heading_line : ℕ

-- Where `extractTargets` stands between two lines: outside of a target, behind a heading, in its header,
-- or in its body, with the lines that it has collected.
pub data Place : Type 0 where
  outside : Place
  behind_heading : (name : Text) (line : ℕ) → Place
  in_header : (name : Text) (line : ℕ) (yaml : List Text) → Place
  in_body : (name : Text) (line : ℕ) (yaml body : List Text) → Place

abbrev pub raw_target : Text → ℕ → List Text → List Text → RawTarget
raw_target name line yaml body = record {
  name = name;
  yaml_text = join_lines yaml;
  body = trim (join_lines body);
  heading_line = line;
}

-- `read` lines are behind; a line is counted from 1, and from the body's first line.
unfoldable pub extract_raws : ℕ → Place → List Text → Result ParseError (List RawTarget)
extract_raws read outside [] = ok []
extract_raws read (behind_heading name line) [] = err (no_recipe_header name line)
extract_raws read (in_header name line yaml) [] = err (unterminated_header name line)
extract_raws read (in_body name line yaml body) [] = ok (raw_target name line yaml body ∷ [])
extract_raws read outside (l ∷ ls) = elim (target_heading l) [
  | none ↦ extract_raws (suc read) outside ls
  | some name ↦ extract_raws (suc read) (behind_heading name (suc read)) ls
]
extract_raws read (behind_heading name line) (l ∷ ls) =
    let blank = extract_raws (suc read) (behind_heading name line) ls in
    let fence = extract_raws (suc read) (in_header name line []) ls in
    if trim l == []
    then blank
    else if is_yaml_fence l
    then fence
    else err (no_recipe_header name line)
extract_raws read (in_header name line yaml) (l ∷ ls) =
    let fence = extract_raws (suc read) (in_body name line yaml []) ls in
    let more = extract_raws (suc read) (in_header name line (yaml ++ l ∷ [])) ls in
    if is_fence l then fence else more
extract_raws read (in_body name line yaml body) (l ∷ ls) = elim (target_heading l) [
  | none ↦ extract_raws (suc read) (in_body name line yaml (body ++ l ∷ [])) ls
  | some next ↦ extract_raws (suc read) (behind_heading next (suc read)) ls >>= λ raws.
      ok (raw_target name line yaml body ∷ raws)
]
