-- ===== src/Store/Projects.antt =====
-- db/repositories.py, `PsycopgProjectRepo`: each method is one statement of SQL.
pub mod Rows
use ai_dev_swarm.Common.{
  ℕ, ◌==◌, Bool, true, false, List, Option, none, some, Text, find, select, any, update_where,
  sort_by, head?, if◌then◌else◌, is_some, ◌∷◌,
}
use mathlib.Core.List.{reverse}
use ai_dev_swarm.Schemas.Project.{Project, ProjectState, Detail, project_state_eq}
use ai_dev_swarm.Schemas.Exceptions.{Result, ok, raise, project_not_found, unique_violation}
use ai_dev_swarm.Store.State.{State}
use ai_dev_swarm.Store.Action.{Action, ◌>>=◌, ◌>>◌, pure, gets, lift, modify, or_raise}

-- `WHERE id = %s`
abbrev pub has_id : ℕ → Project → Bool
has_id i p = p.id == i

abbrev pub row : ℕ → State → Option Project
row i s = find (has_id i) s.projects

-- `UPDATE projects SET f WHERE id = %s`
abbrev pub update_row : ℕ → (Project → Project) → State → State
update_row i f s = record s { projects = update_where (has_id i) f s.projects }

-- The row is stored with the columns of the INSERT; the others take their defaults.
unfoldable pub create : Project → Action Project
create p s =
    let stored = record p { status_detail = none; is_paused = false } in
    if is_some (row p.id s)
    then (raise unique_violation, s)
    else (ok stored, record s { projects = stored ∷ s.projects })

unfoldable pub get : ℕ → Action (Option Project)
get i = gets (row i)

-- The test of the WHERE clause of `get_active`.
abbrev pub active_state : ProjectState → Bool
active_state ProjectState.planning = true
active_state ProjectState.awaiting_approval = true
active_state ProjectState.building = true
active_state ProjectState.replanning = true
active_state ProjectState.integration = true
active_state _ = false

abbrev pub active_row : State → Option Project
active_row s = head? (sort_by (λ p. p.updated_at) (select (λ p. active_state p.state) s.projects))

unfoldable pub get_active : Action (Option Project)
get_active = gets active_row

unfoldable pub list_all : Action (List Project)
list_all = gets λ s. reverse (sort_by (λ p. p.created_at) s.projects)

abbrev pub rows_in : ProjectState → State → List Project
rows_in st s = select (λ p. project_state_eq p.state st) s.projects

unfoldable pub list_by_state : ProjectState → Action (List Project)
list_by_state st = gets (rows_in st)

unfoldable pub update_state : ℕ → ProjectState → Action Project
update_state i st = do
  now ← gets (λ s. s.now)
  modify (update_row i (λ p. record p { state = st; updated_at = now }))
  updated ← gets (row i)
  lift (or_raise updated (project_not_found i))

unfoldable pub set_github_repo : ℕ → Text → Action (Unit {0})
set_github_repo i url = do
  now ← gets (λ s. s.now)
  modify (update_row i (λ p. record p { github_repo = some url; updated_at = now }))

unfoldable pub set_status_detail : ℕ → Option Detail → Action (Unit {0})
set_status_detail i detail = do
  now ← gets (λ s. s.now)
  modify (update_row i (λ p. record p { status_detail = detail; updated_at = now }))

unfoldable pub set_paused : ℕ → Bool → Action (Unit {0})
set_paused i paused = do
  now ← gets (λ s. s.now)
  modify (update_row i (λ p. record p { is_paused = paused; updated_at = now }))

-- `False` where there is no row.
abbrev pub paused_row : Option Project → Bool
paused_row none = false
paused_row (some p) = p.is_paused

unfoldable pub is_paused : ℕ → Action Bool
is_paused i = gets λ s. paused_row (row i s)
