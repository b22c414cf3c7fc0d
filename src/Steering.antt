-- ===== src/Steering.antt =====
-- steering/repository.py: operator notes, delivered once to each role that they address.
pub mod Once
pub mod Renderer
mod Tests
use ai_dev_swarm.Common.{
  ℕ, ◌+◌, ◌==◌, Bool, true, false, not, ◌&&◌, ◌||◌, List, [], ◌∷◌, ◌++◌, Option, none, some, Text,
  text, text_eq, any, is_some, select, sort_by, map, if◌then◌else◌,
}
use ai_dev_swarm.Slugs.{Characters, strip_spaces}
use ai_dev_swarm.Schemas.Exceptions.{Result, ok, raise, value_error, foreign}
use ai_dev_swarm.Store.State.{State, World, SteeringNote, Delivery}
use ai_dev_swarm.Store.Action.{Action}
use ai_dev_swarm.Store.Projects

abbrev pub blank : Text → Bool
blank [] = true
blank (_ ∷ _) = false

abbrev pub new_note : ℕ → Text → Text → Option Text → State → SteeringNote
new_note project_id body author role s = record {
  id = s.next_id;
  project_id = project_id;
  body = body;
  author = author;
  target_role = role;
  created_at = s.now;
}

-- The INSERT draws its id before the foreign key refuses the note of an unknown project.
unfoldable pub add_note : Characters → ℕ → Text → Text → Option Text → Action ℕ
add_note ch project_id body author role s =
    if blank (strip_spaces ch body)
    then (raise (value_error (text "body must be non-empty")), s)
    else (if is_some (Projects.row project_id s)
        then (
          ok s.next_id,
          record s {
            next_id = s.next_id + 1;
            world = record s.world {
              notes = new_note project_id body author role s ∷ s.world.notes;
            };
          },
        )
        else (
          raise (foreign (text "ForeignKeyViolation") (text "steering_notes_project_id_fkey")),
          record s { next_id = s.next_id + 1 },
        ))

abbrev pub addressed : Text → Option Text → Bool
addressed role none = true
addressed role (some target) = text_eq target role

abbrev pub delivered : ℕ → Text → List Delivery → Bool
delivered i role ds = any (λ d. d.note_id == i && text_eq d.role role) ds

-- The WHERE clause: addressed to the role, and not yet delivered to it.
abbrev pub waiting : ℕ → Text → World → SteeringNote → Bool
waiting project_id role w n =
    n.project_id == project_id
    && (addressed role n.target_role && not (delivered n.id role w.deliveries))

-- ORDER BY created_at, id
unfoldable pub candidates : ℕ → Text → World → List SteeringNote
candidates project_id role w =
    sort_by (λ n. n.created_at) (sort_by (λ n. n.id) (select (waiting project_id role w) w.notes))

-- The INSERT ... ON CONFLICT DO NOTHING of the deliveries.
abbrev pub deliver : Text → List SteeringNote → List Delivery → List Delivery
deliver role [] ds = ds
deliver role (n ∷ ns) ds =
    let rest = deliver role ns ds in
    if delivered n.id role rest then rest else record { note_id = n.id; role = role } ∷ rest

unfoldable pub pull_unconsumed : ℕ → Text → World → Result (List Text) × World
pull_unconsumed project_id role w =
    let notes = candidates project_id role w in
    if blank role
    then (raise (value_error (text "role must be non-empty")), w)
    else (ok (map (λ n. n.body) notes), record w { deliveries = deliver role notes w.deliveries })
