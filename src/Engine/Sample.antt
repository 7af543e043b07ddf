-- ===== src/Engine/Sample.antt =====
-- A recipe header, the collaborators of a build and an empty world, for the tests.
use makedown.Base.{lit, true, false, none, some, List, [], ◌∷◌, ok, Text, Bool}
use makedown.Types.{StepType, deterministic, worktree, required, end, RecipeHeader}
use makedown.Engine.World.{World}
use makedown.Engine.Context.{Context, text_product}

abbrev pub header : StepType → List Text → RecipeHeader
header step inputs = record {
  inputs = inputs;
  step = step;
  model = some (lit "m");
  fallback = none;
  route = none;
  system = none;
  params = end;
  output = lit "o";
  cache = deterministic;
  agent_id = none;
  sandbox = worktree;
  approval = required;
  transform_script = none;
  over = some (lit "l");
  schema = none;
}

-- The approver's answer is the argument.
abbrev pub context : Bool → Context
context answer = record {
  workspace_dir = lit "w";
  provider = some (λ w req. ok (record {
    text = lit "t";
    usage = record { input = 1; output = 1 };
    cost_usd = none;
    model = none;
  }));
  agent_runner = some (λ w req. ok (record {
    output = lit "r";
    usage = record { input = 1; output = 1 };
    cost_usd = none;
    produced_by = none;
  }));
  approve = some (λ w req. ok answer);
  max_map_fanout = some 2;
  now = λ w. [];
  duration = λ w. 0;
  confine = λ w path. ok path;
  render = λ w outputs item body. ok body;
  read_ref = λ w outputs ref. ok (lit "ab");
  parse_list = λ s. (lit "a") ∷ (lit "b") ∷ [];
  identity = λ hashes h body aux. body;
  is_importable = λ ref. false;
  input_hash = λ bytes ref. (bytes, none);
  add_worktree = λ w. ok (lit "d");
  agent_files = λ w req. w.files;
  torn_down = λ w dir. true;
  worktree_diff = λ w dir. ok (lit "c");
  run_script = λ w box path hash inputs. ok (text_product []);
  sha256 = λ bytes. bytes;
  encode = λ text. text;
  is_json = λ text. true;
  stringify = λ texts. lit "j";
}

abbrev pub world : World
world = record {
  cas = record { objects = []; provenance = []; samples = [] };
  files = [];
  completions = [];
  agent_runs = [];
  approvals = [];
  sandboxes = [];
  events = [];
}
