-- ===== src/Engine/Store/Transitions.antt =====
-- The transition of a task: automation/shared_engine/db.py.
use multiverse_research.Prelude.{
  ℕ, String, Bool, not, ◌&&◌, Option, none, some, if◌then◌else◌, nat_eq, string_eq,
}
use multiverse_research.Prelude.Value.{Value, Fields, str, put, update}
use multiverse_research.Prelude.Table.{select, update_where}
use multiverse_research.Engine.States.{
  TaskState, member, allowed_transitions, release_safe_states, lost_lease, invalid_transition,
  release_target, Result, ok, err, ◌>>=◌, ◌>>◌, raise_if, validated_worker_id, validated_generation,
}
use multiverse_research.Engine.Store.Tables.{
  Task, Db, row_id, or_key_error, insert_event, state_transition,
}
use multiverse_research.Engine.Store.Claims.{check_fence}

-- The keyword arguments of `transition`; an absent dict is an empty one.
pub record Change : Type 0 where
  pub actor : String
  pub event_type : String
  pub detail : Fields
  pub result_update : Fields
  pub release : Bool
  pub fencing : Option (Value × Value)

abbrev pub or_no_fence : Option (Value × Value) → Result (Value × Value)
or_no_fence none = err (lost_lease "fencing token required")
or_no_fence (some f) = ok f

-- The row that a transition writes over s, from the row r that it read.
abbrev pub moved : Task → TaskState → Change → ℕ → Task → Task
moved r new_state c now s = record s {
  state = new_state;
  claimed_by = if c.release then none else r.claimed_by;
  lease_until = if c.release then none else r.lease_until;
  result = update r.result c.result_update;
  updated_at = now;
}

-- The row and the event of a transition.
unfoldable pub write_transition : Task → TaskState → Change → String → ℕ → Db → Db
write_transition r new_state c worker now db = record {
  tasks = update_where row_id r.id (moved r new_state c now) db.tasks;
  events =
      insert_event r.id worker (state_transition r.state new_state) r.state new_state
        (put
          (put (put c.detail "declared_actor" (str c.actor)) "declared_event_type"
            (str c.event_type))
          "fencing_worker" (str worker))
        now db.events;
}

-- `transition`
unfoldable pub transition : String → TaskState → Change → ℕ → Db → Result (TaskState × Db)
transition tid new_state c now db = do
  r ← or_key_error (select row_id tid db.tasks) tid
  raise_if (not (member new_state (allowed_transitions r.state)))
      (invalid_transition r.state new_state)
  raise_if (c.release && not (member new_state release_safe_states)) (release_target new_state)
  token ← or_no_fence c.fencing
  worker ← validated_worker_id token.0
  gen ← validated_generation token.1
  check_fence r worker gen now
  ok (new_state, write_transition r new_state c worker now db)
