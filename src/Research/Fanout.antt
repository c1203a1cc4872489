-- ===== src/Research/Fanout.antt =====
-- The plan of a fan-out and the summary of its results:
-- automation/multimodel_research_v1/fanout.py. A set is a list that is asked for its members.
use multiverse_research.Prelude.{
  ℕ, String, not, ◌&&◌, Option, none, some, List, [], ◌∷◌, map, all, if◌then◌else◌, ◌==◌, string_eq,
  elem, leb,
}
use multiverse_research.Prelude.Value.{Value, Items, Fields, str, obj, nil, cons, equals}
use multiverse_research.Prelude.Json.{
  item, is_str, is_string, is_false, is_hashable, is_filled_list, is_object_of, text_in, items_in,
  fields_in, texts_in, has_repeat,
}
use multiverse_research.Prelude.Checked.{
  Checked, passed, refused, type_error, attribute_error, contract, runtime_error, require, ◌>>=◌,
  ◌>>◌, each, each_field,
}
use multiverse_research.Prelude.Order.{list_eq, sort_texts}
use multiverse_research.Research.Contract.{
  Library, identifier, is_digest, parse_time, nonauthority_keys,
}
use multiverse_research.Research.Task.{count_items, validate_task}
use multiverse_research.Research.Assignment.{
  validate_assignment, assignment_sha256, validate_result_v2_for_assignment,
}
use multiverse_research.Research.Aggregate.{text_at}

abbrev pub fanout_plan_keys : List String
fanout_plan_keys =
    "schema" ∷ "plan_id" ∷ "task_sha256" ∷ "snapshot_id" ∷ "created_at" ∷ "assignment_sha256s"
    ∷ "nonauthority" ∷ []

-- `_parse_utc`
unfoldable pub parse_utc : Library → Value → String → Checked ℕ
parse_utc lib v code = parse_time runtime_error lib v code

-- `_nonauthority`
unfoldable pub fanout_nonauthority : Value → Checked (Unit {0})
fanout_nonauthority v = do
  require (is_object_of nonauthority_keys v) "FANOUT_NONAUTHORITY_SCHEMA"
  each_field (λ k flag. require (is_false flag) "FANOUT_NONAUTHORITY_NOT_FALSE") (fields_in v)

-- An assignment with its digest and its time.
pub record Planned : Type 0 where
  pub digest : String
  pub assignment : Value
  pub created : ℕ

abbrev logical_target : Fields → List String
logical_target a =
    text_at "target_provider" a ∷ text_at "target_model" a ∷ text_at "requested_role" a ∷ []

-- The loop over the assignments, with the ids and the targets that came before.
unfoldable pub plan_assignments :
    Library → Value → List String → List (List String) → Items → Checked (List Planned)
plan_assignments lib t ids targets nil = passed []
plan_assignments lib t ids targets (cons v xs) = do
  a ← validate_assignment lib t v
  require (not (elem (text_at "assignment_id" a) ids)) "DUPLICATE_FANOUT_ASSIGNMENT_ID"
  require (not (elem (logical_target a) targets)) "DUPLICATE_FANOUT_LOGICAL_TARGET"
  digest ← assignment_sha256 lib t v
  created ← parse_utc lib (item a "created_at") "ASSIGNMENT_CREATED_AT"
  rest ← plan_assignments lib t (text_at "assignment_id" a ∷ ids) (logical_target a ∷ targets) xs
  passed (record { digest = digest; assignment = v; created = created } ∷ rest)

-- The checks on the digests that the plan lists.
unfoldable pub check_plan_hashes : List String → Value → Checked (Unit {0})
check_plan_hashes hashes v = do
  require (is_filled_list v) "FANOUT_ASSIGNMENT_SHA256S"
  each (λ digest. require (is_digest digest) "FANOUT_ASSIGNMENT_SHA256") (items_in v)
  require (not (has_repeat (texts_in (items_in v)))) "DUPLICATE_FANOUT_PLAN_SHA256"
  require (texts_in (items_in v) == sort_texts (texts_in (items_in v))) "FANOUT_PLAN_SHA256_ORDER"
  require (texts_in (items_in v) == sort_texts hashes) "FANOUT_PLAN_ASSIGNMENT_SET_MISMATCH"

-- `validate_fanout_plan`, with the assignments as they are planned.
unfoldable pub validate_fanout_plan :
    Library → Value → Value → Value → Checked (List Planned × Fields)
validate_fanout_plan lib t assignments v = do
  task ← validate_task lib t
  require (is_filled_list assignments) "FANOUT_ASSIGNMENTS_REQUIRED"
  require (leb (count_items (items_in assignments)) 64) "FANOUT_ASSIGNMENTS_LIMIT"
  planned ← plan_assignments lib t [] [] (items_in assignments)
  require (not (has_repeat (map (λ p. p.digest) planned))) "DUPLICATE_FANOUT_ASSIGNMENT_SHA256"
  require (is_object_of fanout_plan_keys v) "FANOUT_PLAN_SCHEMA_KEYS"
  let plan = fields_in v
  require (is_string (item plan "schema") "MULTIVERSE_RESEARCH_FANOUT_PLAN_v1")
      "FANOUT_PLAN_SCHEMA_VERSION"
  _ ← identifier (item plan "plan_id") "FANOUT_PLAN_ID"
  require (equals (item plan "task_sha256") (str (lib.sha256_json t))) "FANOUT_TASK_SHA256_MISMATCH"
  require (equals (item plan "snapshot_id") (item task "snapshot_id")) "FANOUT_SNAPSHOT_ID_MISMATCH"
  check_plan_hashes (map (λ p. p.digest) planned) (item plan "assignment_sha256s")
  created ← parse_utc lib (item plan "created_at") "FANOUT_PLAN_CREATED_AT"
  require (all (λ p. leb p.created created) planned) "FANOUT_PLAN_CREATED_BEFORE_ASSIGNMENT"
  fanout_nonauthority (item plan "nonauthority")
  passed (planned, plan)

-- `assignment_by_sha[digest]`
unfoldable pub assignment_by_sha : String → List Planned → Option Value
assignment_by_sha digest [] = none
assignment_by_sha digest (p ∷ ps) =
    let rest = assignment_by_sha digest ps in if p.digest == digest then some p.assignment else rest

-- A result with the digest of its assignment.
pub record Observed : Type 0 where
  pub digest : String
  pub result : Fields

-- The loop over the results, with the digests and the submissions that came before.
unfoldable pub observe :
    Library → Value → List Planned → List String → List String → Items → Checked (List Observed)
observe lib t planned hashes submissions nil = passed []
observe lib t planned hashes submissions (cons v xs) = do
  raw ← elim v [ obj d ↦ passed d | _ ↦ refused attribute_error ]
  if is_hashable (item raw "assignment_sha256") then passed tt else refused type_error
  let digest = text_in (item raw "assignment_sha256")
  assignment ← elim (assignment_by_sha digest planned) [
    | none ↦ refused (contract "FANOUT_RESULT_NOT_PLANNED")
    | some a ↦
        if is_str (item raw "assignment_sha256")
        then passed a
        else refused (contract "FANOUT_RESULT_NOT_PLANNED")
  ]
  require (not (elem digest hashes)) "DUPLICATE_FANOUT_RESULT_FOR_ASSIGNMENT"
  if is_hashable (item raw "submission_id") then passed tt else refused type_error
  require
      (not (
        is_str (item raw "submission_id") && elem (text_in (item raw "submission_id")) submissions))
      "DUPLICATE_FANOUT_SUBMISSION_ID"
  r ← validate_result_v2_for_assignment lib t assignment v
  rest ←
      observe lib t planned (digest ∷ hashes) (text_in (item raw "submission_id") ∷ submissions) xs
  passed (record { digest = digest; result = r } ∷ rest)
