-- ===== src/Tick/Moves.antt =====
-- `_move`, `_block` and the GitHub publishing of orchestrator/tick.py.
use ai_dev_swarm.Common.{
  Bool, true, false, not, ◌||◌, ◌&&◌, [], ◌∷◌, none, some, Text, if◌then◌else◌,
}
use ai_dev_swarm.Schemas.Project.{Project, ProjectState, Detail}
use ai_dev_swarm.Schemas.Transitions.{assert_legal_project}
use ai_dev_swarm.Store.State.{repo_created}
use ai_dev_swarm.Store.Action.{
  Action, ◌>>=◌, ◌>>◌, pure, gets, lift, on_world, catch, send, run_world,
}
use ai_dev_swarm.Store.Projects
use ai_dev_swarm.Tick.Tools.{TickDeps}

unfoldable pub move : TickDeps → Project → ProjectState → Action Project
move d project new_state = do
  lift (assert_legal_project project.state new_state)
  updated ← Projects.update_state project.id new_state
  run_world (d.transition_sink updated)
  pure updated

unfoldable pub block : TickDeps → Project → Detail → Action Project
block d project reason = do
  Projects.set_status_detail project.id (some reason)
  move d project ProjectState.blocked

-- The truth of a Python string.
abbrev pub given : Text → Bool
given [] = false
given (_ ∷ _) = true

abbrev pub has_repo : Project → Bool
has_repo p = elim p.github_repo [ none ↦ false | some url ↦ given url ]

-- The body of the `try` of `_ensure_repo`.
unfoldable pub make_repo : TickDeps → Project → Action Project
make_repo d project = do
  repo ← on_world (d.create_repo project.name project.spec.summary)
  on_world (d.set_remote project.name repo.push_remote)
  Projects.set_github_repo project.id repo.html_url
  send (repo_created project.name repo.html_url)
  pure (record project { github_repo = some repo.html_url })

unfoldable pub ensure_repo : TickDeps → Project → Action Project
ensure_repo d project =
    if has_repo project || not (given d.settings.github_token)
    then pure project
    else catch (make_repo d project) (λ _. pure project)

unfoldable pub push : TickDeps → Project → Action (Unit {0})
push d project = do
  w ← gets (λ s. s.world)
  if not (has_repo project && d.has_remote project.name w) || not (given d.settings.github_token)
      then pure tt
      else catch (on_world (d.push project.name d.settings.github_token)) (λ _. pure tt)
