-- ===== src/Lib.antt =====
-- A verification library for ai-dev-swarm, a service that invents software projects, plans them as
-- milestones, and has them built by crews of language models, with an operator in the loop.
--
-- The parts and how they interact. A pool of workers (Pool: src/aidevswarm/orchestrator/scheduler.py,
-- `ProjectPool`) claims the oldest project that can advance and runs one tick on it (Tick:
-- src/aidevswarm/orchestrator/tick.py). The tick asks the kill switch (KillSwitch:
-- src/aidevswarm/tools/kill_switch.py) and the budget (Budget: src/aidevswarm/tools/budget.py),
-- dispatches on the project's state, calls a crew, and writes through the repositories (Store:
-- src/aidevswarm/db/repositories.py and sessions.py). After a milestone it considers a mechanical
-- split (AutoSplit: src/aidevswarm/orchestrator/auto_split.py), a tidying milestone
-- (Consolidation: src/aidevswarm/orchestrator/consolidation.py) and the replanner's action. An
-- operator's commands go through one router (Router:
-- src/aidevswarm/orchestrator/command_router.py), which also changes settings (SettingsStore:
-- src/aidevswarm/db/settings_store.py) and leaves notes for the crews (Steering:
-- src/aidevswarm/steering/). The operator writes to a bot (Telegram:
-- src/aidevswarm/telegram/bot.py), which holds destructive commands back until a button is tapped.
-- Projects come from rounds of ideation (Ideation: src/aidevswarm/orchestrator/orchestrator.py and
-- src/aidevswarm/crews/ideation/), which score ideas, compare them with the prior art and with the
-- pool, and queue the best. A milestone is built by the build crew (BuildCrew:
-- src/aidevswarm/crews/build/crew.py): sessions of the Claude Agent SDK (Sdk:
-- src/aidevswarm/tools/claude_agent_sdk_tool.py), the CI gate (Sandbox:
-- src/aidevswarm/tools/sandbox.py) and a reviewer. Each call of a model is written to the token log
-- (Spend: src/aidevswarm/tools/budget.py and src/aidevswarm/crews/_spend.py), and what happens is
-- shown on live streams (Observability: event_bridge.py and redactor.py of
-- src/aidevswarm/observability/). The planning crew, the replanning crew and the diagnostician are
-- in Crews (src/aidevswarm/crews/). The data and the transition tables are in Schemas
-- (src/aidevswarm/schemas/), the names derived from titles in Slugs.
--
-- State and operations. Store.State holds one record for the tables of Postgres, the keys of Redis,
-- the messages sent, and the world that the crews act on. Store.Action is a monad of calls that
-- read and write that record and may raise; what was written before a raise stays written, since
-- each repository method is its own transaction. Each method, handler and helper is a function
-- with the name that it has in the source, less its leading underscore. Store.Action.Keeps and
-- Store.Action.Yields are the rules by which a property of a call follows from its parts, and
-- Store.Action.Runs takes one run of a call apart into a chain of the runs of its parts.
--
-- Parameters. For the tick, the crews, git, GitHub, the sandbox and the diagnostician are functions
-- of Tick.Tools.TickDeps, which may return or raise anything and may change the world, but are given
-- no repository of projects or milestones. Python's tables of characters, its parsers of numbers
-- and the printed forms of exceptions are parameters too (Slugs.Characters, SettingsStore.Numbers,
-- Pool.ErrorText). The modules of the crews take the language models, the client of the SDK,
-- subprocesses, the searches of the prior art, the template engine, LiteLLM's prices and the
-- arithmetic of the weighted score as parameters, in records named for the module, and so are the
-- repair and the validation of a model's JSON in the replanning crew, whether the database answers
-- ideation's reads of the swarm's own history, and the environment of the orchestrator, of which
-- the sandbox passes a part to its subprocesses. The crews and
-- ideation are modelled beside the tick, on the whole state, and are not substituted for its
-- parameters.
--
-- Numbers. Ids are natural numbers drawn from one counter; times are whole seconds; costs are in
-- units of 0.0001 USD, the scale of the column that stores them; a similarity is a fraction. Each
-- loop of the source runs over a list or a given number of attempts. Only the printing of a number
-- has fuel, the number itself, and Common.Decimal shows that it is enough.
--
-- Not modelled: the wiring and the timers of src/aidevswarm/orchestrator/, the agents and the
-- prompts of the crews, which are arguments of a library, the finance voice
-- (src/aidevswarm/crews/finance.py), whose comments nothing reads, the HTTP server, the intent
-- parser, git and GitHub, tracing, and the reports of the token log by role and by day.
-- A status text is represented by the case that produces it and
-- the values in it. Common, Settings and Samples hold the shared helpers, the settings that are
-- read, and a small installation at which the theorems are tried.
pub mod AutoSplit
pub mod Budget
pub mod BuildCrew
pub mod Common
pub mod Consolidation
pub mod Crews
pub mod Ideation
pub mod KillSwitch
pub mod Observability
pub mod Pool
pub mod Router
pub mod Samples
pub mod Sandbox
pub mod Schemas
pub mod Sdk
pub mod Settings
pub mod SettingsStore
pub mod Slugs
pub mod Spend
pub mod Steering
pub mod Store
pub mod Telegram
pub mod Tick
