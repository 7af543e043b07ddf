-- ===== src/Format/Parse/Target.antt =====
-- packages/format/src/parse.ts: toTargetBlock, mergeDefaults, the assertions, and parseBuildDoc.
use makedown.Base.{
  ℕ, Text, text_eq, lit, Bool, true, false, not, ◌||◌, ◌==◌, Option, none, some, or_default,
  is_some, List, [], ◌∷◌, ◌++◌, map, has, if◌then◌else◌, Result, ok, err, ◌>>=◌, ◌>>◌, Passed,
  passed, check, map_err,
}
use makedown.Types.{
  StepType, chat, agent, transform, eval, map_step, CachePolicy, deterministic, stochastic, always,
  Json, Fields, end, field, RecipeHeader, TargetBlock, Defaults, FrontMatter, BuildDoc,
}
use makedown.Refs.{bare_ref}
use makedown.Format.Policy.{is_valid_target_name}
use makedown.Format.Lines.{split_lines, refs_in_body}
use makedown.Format.Parse.{
  RawRecipeHeader, Reader, ParseError, bad_front_matter, invalid_name, invalid_header, no_transform,
  no_agent, no_over, over_undeclared, bad_stochastic, undeclared_ref, duplicate_name,
  split_front_matter, non_empty, read_policy, normalize_defaults, RawTarget, outside, extract_raws,
}

abbrev or_else {ℓ} : {A : Type ℓ} → Option A → Option A → Option A
or_else none o = o
or_else (some a) o = some a

abbrev default_of {ℓ} : {A : Type ℓ} → FrontMatter → (Defaults → Option A) → Option A
default_of fm f = elim fm.defaults [ none ↦ none | some d ↦ f d ]

abbrev set_field : Text → Json → Fields → Fields
set_field k v end = field k v end
set_field k v (field j w fs) =
    let rest = set_field k v fs in if j == k then field j v fs else field j w rest

-- `{ ...first, ...second }`
abbrev merge_fields : Fields → Fields → Fields
merge_fields first end = first
merge_fields first (field k v second) = merge_fields (set_field k v first) second

-- The item of a map step's list.
abbrev pub map_item_ref : Text
map_item_ref = lit "item"

abbrev pub default_cache_for_step : StepType → CachePolicy
default_cache_for_step agent = always
default_cache_for_step chat = deterministic
default_cache_for_step transform = deterministic
default_cache_for_step eval = deterministic
default_cache_for_step map_step = deterministic

abbrev cache_of : RawRecipeHeader → FrontMatter → Option Text → Result ParseError CachePolicy
cache_of raw fm none =
    ok (or_default (default_of fm (λ d. d.cache)) (default_cache_for_step raw.step))
cache_of raw fm (some policy) = read_policy policy

unfoldable pub merge_defaults :
    Text → RawRecipeHeader → FrontMatter → Result ParseError RecipeHeader
merge_defaults name raw fm = do
  cache ← cache_of raw fm (non_empty raw.cache)
  ok (record {
    inputs = raw.inputs;
    step = raw.step;
    model = or_else raw.model (default_of fm (λ d. d.model));
    fallback = or_else raw.fallback (default_of fm (λ d. d.fallback));
    route = or_else raw.route (default_of fm (λ d. d.route));
    system = or_else raw.system (default_of fm (λ d. d.system));
    params = merge_fields (or_default (default_of fm (λ d. d.params)) end) raw.params;
    output = or_default raw.output (fm.artifacts_dir ++ lit "/" ++ name ++ lit ".md");
    cache = cache;
    agent_id = raw.agent_id;
    sandbox = raw.sandbox;
    approval = raw.approval;
    transform_script = raw.transform_script;
    over = raw.over;
    schema = raw.schema;
  })

abbrev pub is_stochastic : CachePolicy → Bool
is_stochastic deterministic = false
is_stochastic (stochastic n) = true
is_stochastic always = false

abbrev pub can_sample : StepType → Bool
can_sample chat = true
can_sample eval = true
can_sample agent = false
can_sample transform = false
can_sample map_step = false

abbrev pub check_over : Text → ℕ → List Text → Option Text → Result ParseError Passed
check_over name line inputs none = err (no_over name line)
check_over name line inputs (some over) =
    check (has (map bare_ref inputs) over) (over_undeclared name over line)

abbrev pub check_step : Text → ℕ → RecipeHeader → StepType → Result ParseError Passed
check_step name line h chat = ok passed
check_step name line h eval = ok passed
check_step name line h transform =
    check (is_some (non_empty h.transform_script)) (no_transform name line)
check_step name line h agent = check (is_some (non_empty h.agent_id)) (no_agent name line)
check_step name line h map_step = check_over name line h.inputs (non_empty h.over)

unfoldable pub assert_step_requirements : Text → RecipeHeader → ℕ → Result ParseError Passed
assert_step_requirements name h line =
    check_step name line h h.step
    >> check (not (is_stochastic h.cache) || can_sample h.step) (bad_stochastic name line)

abbrev pub check_refs : Text → ℕ → List Text → List Text → Result ParseError Passed
check_refs name line declared [] = ok passed
check_refs name line declared (ref ∷ refs) =
    check (has declared ref) (undeclared_ref name ref line) >> check_refs name line declared refs

abbrev pub check_texts : Text → ℕ → List Text → List Text → Result ParseError Passed
check_texts name line declared [] = ok passed
check_texts name line declared (text ∷ texts) =
    check_refs name line declared (refs_in_body text) >> check_texts name line declared texts

unfoldable pub assert_refs_declared : Text → List Text → List Text → ℕ → Result ParseError Passed
assert_refs_declared name texts inputs line = check_texts name line (map bare_ref inputs) texts

abbrev pub is_map : StepType → Bool
is_map map_step = true
is_map chat = false
is_map agent = false
is_map transform = false
is_map eval = false

abbrev pub declared_refs : RecipeHeader → List Text
declared_refs h = if is_map h.step then h.inputs ++ map_item_ref ∷ [] else h.inputs

abbrev pub assert_strict : Bool → RawTarget → RecipeHeader → Result ParseError Passed
assert_strict false raw h = ok passed
assert_strict true raw h =
    assert_refs_declared raw.name (raw.body ∷ or_default h.system [] ∷ []) (declared_refs h)
      raw.heading_line

-- The last part of `toTargetBlock`, from the header with the defaults in.
abbrev pub checked_target : Bool → RawTarget → RecipeHeader → Result ParseError TargetBlock
checked_target strict raw h = do
  assert_step_requirements raw.name h raw.heading_line
  assert_strict strict raw h
  ok (record { name = raw.name; header = h; body = raw.body })

abbrev pub with_defaults :
    FrontMatter → Bool → RawTarget → RawRecipeHeader → Result ParseError TargetBlock
with_defaults fm strict raw parsed = merge_defaults raw.name parsed fm >>= checked_target strict raw

module _ (reader : Reader) where
  abbrev pub read_header : RawTarget → Result ParseError RawRecipeHeader
  read_header raw =
      map_err (λ m. invalid_header raw.name m raw.heading_line) (reader.recipe_header raw.yaml_text)

  unfoldable pub to_target_block : RawTarget → FrontMatter → Bool → Result ParseError TargetBlock
  to_target_block raw fm strict =
      check (is_valid_target_name raw.name) (invalid_name raw.name raw.heading_line)
      >> (read_header raw >>= with_defaults fm strict raw)

  abbrev pub to_target_blocks :
      List RawTarget → FrontMatter → Bool → Result ParseError (List TargetBlock)
  to_target_blocks [] fm strict = ok []
  to_target_blocks (raw ∷ raws) fm strict = do
    block ← to_target_block raw fm strict
    blocks ← to_target_blocks raws fm strict
    ok (block ∷ blocks)

  unfoldable pub extract_targets : Text → FrontMatter → Bool → Result ParseError (List TargetBlock)
  extract_targets body fm strict = do
    raws ← extract_raws 0 outside (split_lines body)
    to_target_blocks raws fm strict

  unfoldable pub normalize_front_matter : Option Text → Result ParseError FrontMatter
  normalize_front_matter text = do
    raw ← map_err bad_front_matter (reader.front_matter (non_empty text))
    defaults ← normalize_defaults raw.defaults
    ok (record {
      version = raw.version;
      defaults = defaults;
      artifacts_dir = raw.artifacts_dir;
      sources_dir = raw.sources_dir;
    })

abbrev pub unique_from : List Text → List TargetBlock → Result ParseError Passed
unique_from seen [] = ok passed
unique_from seen (t ∷ ts) =
    check (not (has seen t.name)) (duplicate_name t.name) >> unique_from (seen ++ t.name ∷ []) ts

unfoldable pub assert_unique_names : List TargetBlock → Result ParseError Passed
assert_unique_names targets = unique_from [] targets

abbrev pub unique_doc : FrontMatter → List TargetBlock → Result ParseError BuildDoc
unique_doc fm targets = do
  assert_unique_names targets
  ok (record { front_matter = fm; targets = targets })

abbrev pub parse_body : Reader → Bool → Text → FrontMatter → Result ParseError BuildDoc
parse_body reader strict body fm = extract_targets reader body fm strict >>= unique_doc fm

abbrev pub parse_parts : Reader → Bool → Option Text × Text → Result ParseError BuildDoc
parse_parts reader strict (front, body) =
    normalize_front_matter reader front >>= parse_body reader strict body

unfoldable pub parse_build_doc : Reader → Text → Bool → Result ParseError BuildDoc
parse_build_doc reader text strict = split_front_matter text >>= parse_parts reader strict
