-- ===== src/Format/Sample.antt =====
-- A document of one target, and a reader that parses it.
use makedown.Base.{
  Text, lit, text_eq, nat_eq, list_eqb, true, none, [], ◌∷◌, ◌++◌, refl, ◌≡◌, ok, trim, trim_start,
  trim_end,
}
use makedown.Types.{chat, deterministic, worktree, not_required, end, BuildDoc, TargetBlock}
use makedown.Refs.{bare_ref}
use makedown.Format.Policy.{is_valid_target_name}
use makedown.Format.Lines.{split_lines, target_heading, is_yaml_fence, refs_in_body}
use makedown.Format.Parse.{RawRecipeHeader, Reader, split_front_matter, extract_raws}
use makedown.Format.Parse.Target.{
  merge_defaults, assert_step_requirements, assert_refs_declared, to_target_block, extract_targets,
  normalize_front_matter, assert_unique_names, parse_build_doc,
}

abbrev pub raw_header : RawRecipeHeader
raw_header = record {
  inputs = lit "x:head(3)" ∷ [];
  step = chat;
  model = none;
  fallback = none;
  route = none;
  system = none;
  params = end;
  output = none;
  cache = none;
  agent_id = none;
  sandbox = worktree;
  approval = not_required;
  transform_script = none;
  over = none;
  schema = none;
}

abbrev pub reader : Reader
reader = record {
  front_matter = λ _. ok (record {
    version = none;
    defaults = none;
    artifacts_dir = lit "out";
    sources_dir = lit ".";
  });
  recipe_header = λ _. ok raw_header;
}

abbrev pub block : TargetBlock
block = record {
  name = lit "a";
  header = record {
    inputs = lit "x:head(3)" ∷ [];
    step = chat;
    model = none;
    fallback = none;
    route = none;
    system = none;
    params = end;
    output = lit "out/a.md";
    cache = deterministic;
    agent_id = none;
    sandbox = worktree;
    approval = not_required;
    transform_script = none;
    over = none;
    schema = none;
  };
  body = lit "Use {{ x }}";
}

abbrev pub doc : BuildDoc
doc = record {
  front_matter = record {
    version = none;
    defaults = none;
    artifacts_dir = lit "out";
    sources_dir = lit ".";
  };
  targets = block ∷ [];
}

abbrev pub doc_text : Text
doc_text =
    lit "## target: a " ++ 10 ∷ lit "```yaml" ++ 10 ∷ lit "```" ++ 10 ∷ lit "Use {{ x }}" ++ 10 ∷ []

pub doc_parses : parse_build_doc reader doc_text true ≡ ok doc
unfolding parse_build_doc split_front_matter split_lines trim trim_start trim_end list_eqb
    normalize_front_matter extract_targets extract_raws target_heading is_yaml_fence to_target_block
    is_valid_target_name merge_defaults assert_step_requirements assert_refs_declared refs_in_body
    bare_ref assert_unique_names
doc_parses = refl
