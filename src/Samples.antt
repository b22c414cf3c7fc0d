-- ===== src/Samples.antt =====
-- A small installation: its settings, collaborators that answer at once, a project, and milestones.
use ai_dev_swarm.Common.{
  ℕ, ◌==◌, ◌||◌, ltb, true, false, List, [], ◌∷◌, none, some, text, ◌&&◌, ◌+◌, if◌then◌else◌,
}
use ai_dev_swarm.Settings.{Settings}
use ai_dev_swarm.Slugs.{Characters}
use ai_dev_swarm.Schemas.Project.{Project, ProjectSpec, ProjectState, MilestoneState}
use ai_dev_swarm.Schemas.Milestone.{
  AcceptanceCriterion, MilestoneSpec, Milestone, MilestoneBuildResult,
}
use ai_dev_swarm.Schemas.Replanner.{noop}
use ai_dev_swarm.Schemas.Exceptions.{ok}
use ai_dev_swarm.Store.State.{State, World}
use ai_dev_swarm.Tick.Tools.{TickDeps}

abbrev pub settings : Settings
settings = record {
  model_strong = text "anthropic/claude-opus-4-7";
  model_fast = text "anthropic/claude-haiku-4-5";
  model_dev = text "anthropic/claude-sonnet-4-6";
  daily_token_budget = 2000;
  per_milestone_token_budget = 1000;
  require_approval = true;
  milestone_retry_limit = 3;
  build_concurrency = 1;
  ideation_min_score = 75;
  ideation_max_rounds = 3;
  sdk_max_turns = 80;
  sdk_max_budget_usd = 50000;
  tester_max_turns = 40;
  ci_repair_attempts = 2;
  auto_split_max_turns = 30;
  auto_split_max_cost_usd = 30000;
  consolidation_every = 5;
  max_project_milestones = 25;
  max_project_cost_usd = 0;
  github_token = [];
}

-- ASCII letters and digits.
abbrev pub ascii : Characters
ascii = record {
  is_alnum = λ c. (ltb 47 c && ltb c 58) || (ltb 64 c && ltb c 91) || (ltb 96 c && ltb c 123);
  is_space = λ c. c == 32 || (ltb 8 c && ltb c 14);
  lower = λ c. (if ltb 64 c && ltb c 91 then c + 32 else c) ∷ [];
}

abbrev pub criterion : AcceptanceCriterion
criterion = record { description = text "it runs"; verifier = text "pytest" }

abbrev pub spec : MilestoneSpec
spec = record {
  title = text "Parser";
  description = text "Parse the input";
  acceptance_criteria = criterion ∷ criterion ∷ criterion ∷ [];
  technical_note = text "careful";
}

abbrev pub built : MilestoneBuildResult
built = record {
  success = true;
  commit_hash = some (text "abc");
  summary = text "fine";
  artifacts = [];
  tokens_used = 5;
  failure_reason = none;
}

abbrev pub deps : TickDeps
deps = record {
  settings = settings;
  characters = ascii;
  planning_crew = λ i s w. (ok (spec ∷ []), w);
  build_crew = λ m w. (ok built, w);
  replanning_crew = λ p m xs w. (ok noop, w);
  run_ci = λ i w. (ok (record { passed = true; tail = [] }), w);
  for_project = λ name w. (ok tt, w);
  is_dirty = λ name w. (ok false, w);
  commit_all = λ name message w. (ok (text "abc"), w);
  has_remote = λ name w. false;
  set_remote = λ name url w. (ok tt, w);
  push = λ name token w. (ok tt, w);
  create_repo = λ name summary w. (ok (record { push_remote = text "r"; html_url = text "h" }), w);
  on_plan = λ p n w. w;
  on_milestone_done = λ p i title w. w;
  diagnose = λ p m reason w. w;
  transition_sink = λ p w. w;
  token_log = true;
}

abbrev pub project_spec : ProjectSpec
project_spec = record {
  title = text "Port finder";
  summary = text "Finds ports";
  rationale = text "Useful";
  stack = [];
  tags = [];
  score = 80;
}

abbrev pub project : ℕ → ProjectState → Project
project i st = record {
  id = i;
  name = text "port-finder";
  spec = project_spec;
  state = st;
  github_repo = none;
  status_detail = none;
  is_paused = false;
  created_at = i;
  updated_at = i;
}

abbrev pub milestone : ℕ → ℕ → MilestoneState → Milestone
milestone i ordinal st = record {
  id = i;
  project_id = 1;
  ordinal = ordinal;
  title = text "Parser";
  spec = spec;
  state = st;
  retry_count = 0;
  commit_hash = none;
  created_at = 0;
  updated_at = 0;
}

abbrev pub world : World
world = record { token_log = []; sessions = []; notes = []; deliveries = []; outside = 0 }

abbrev pub state : List Project → List Milestone → State
state ps ms = record {
  projects = ps;
  milestones = ms;
  next_id = 100;
  now = 5000;
  redis = λ k. none;
  outbox = [];
  world = world;
  overrides = [];
  live = λ key. none;
  evaluations = [];
}

-- A project that is being built, with one milestone done and two to do, and a second project.
abbrev pub running : State
running = state (project 1 ProjectState.building ∷ project 2 ProjectState.queued ∷ []) (
    milestone 10 0 MilestoneState.done
    ∷ milestone 11 1 MilestoneState.pending
    ∷ milestone 12 2 MilestoneState.pending
    ∷ [])
