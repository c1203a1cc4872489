-- ===== src/Engine/Store/Tables.antt =====
-- The tables of automation/shared_engine/db.py, and create_task.
use multiverse_research.Prelude.{
  ℕ, ◌+◌, String, Option, none, some, List, [], ◌∷◌, length, nat_eq, string_eq, ◌++◌,
}
use multiverse_research.Prelude.Int.{ℤ, pos}
use multiverse_research.Prelude.Value.{Value, Fields, int, float, finite, end}
use multiverse_research.Prelude.Table.{select}
use multiverse_research.Engine.States.{
  TaskState, pending, key_error, integrity_error, Result, ok, err,
}

pub record Task : Type 0 where
  pub id : String
  pub domain : String
  pub task_type : String
  pub goal : String
  pub priority : ℤ
  pub state : TaskState
  pub claimed_by : Option String
  pub claim_generation : ℕ
  pub lease_until : Option ℕ
  pub result : Fields
  pub created_at : ℕ
  pub updated_at : ℕ

pub data EventType : Type 0 where
  task_created lease_claimed lease_renewed lease_reclaimed : EventType
  state_transition : TaskState → TaskState → EventType

pub record Event : Type 0 where
  pub id : ℕ
  pub task_id : String
  pub actor : String
  pub event_type : EventType
  pub before_state : TaskState
  pub after_state : TaskState
  pub detail : Fields
  pub created_at : ℕ

pub record Db : Type 0 where
  pub tasks : List Task
  pub events : List Event

abbrev pub empty_db : Db
empty_db = record { tasks = []; events = [] }

-- The primary key of the task table.
abbrev pub row_id : Task → String
row_id r = r.id

-- `raise KeyError(task_id)` on a missing row.
abbrev pub or_key_error {ℓ} : {A : Type ℓ} → Option A → String → Result A
or_key_error none k = err (key_error k)
or_key_error (some a) k = ok a

-- `INSERT INTO events`; no event is ever deleted, so the row id is the next number.
abbrev pub insert_event :
    String → String → EventType → TaskState → TaskState → Fields → ℕ → List Event → List Event
insert_event task_id actor event_type before after detail now events =
    record {
      id = length events + 1;
      task_id = task_id;
      actor = actor;
      event_type = event_type;
      before_state = before;
      after_state = after;
      detail = detail;
      created_at = now;
    }
    ∷ events

abbrev pub number_of : ℕ → Value
number_of n = int (pos n)

abbrev pub time_of : ℕ → Value
time_of t = float (finite (pos t))

abbrev pub new_task : String → String → String → String → ℤ → ℕ → Task
new_task tid domain goal task_type priority now = record {
  id = tid;
  domain = domain;
  task_type = task_type;
  goal = goal;
  priority = priority;
  state = pending;
  claimed_by = none;
  claim_generation = 0;
  lease_until = none;
  result = end;
  created_at = now;
  updated_at = now;
}

-- `create_task`; a second row with the same id breaks the primary key.
unfoldable pub create_task : String → String → String → String → ℤ → ℕ → Db → Result (String × Db)
create_task tid domain goal task_type priority now db = elim (select row_id tid db.tasks) [
  | some _ ↦ err integrity_error
  | none ↦ ok (
    tid,
    record {
      tasks = db.tasks ++ (new_task tid domain goal task_type priority now ∷ []);
      events = insert_event tid "shared_engine" task_created pending pending end now db.events;
    },
  )
]

-- `get_task`
abbrev pub get_task : String → Db → Option Task
get_task tid db = select row_id tid db.tasks
