-- ===== src/Research/Assignment.antt =====
-- The assignment of a task to a model, and the result for it:
-- automation/multimodel_research_v1/assignment.py.
use multiverse_research.Prelude.{
  ℕ, String, Bool, true, false, not, ◌&&◌, none, some, List, [], ◌∷◌, ◌++◌, if◌then◌else◌,
  string_eq, leb,
}
use multiverse_research.Prelude.Int.{pos}
use multiverse_research.Prelude.Value.{Value, Fields, bool, int, str, obj, put, equals}
use multiverse_research.Prelude.Json.{item, is_string, is_false, is_object_of, items_in, fields_in}
use multiverse_research.Prelude.Checked.{
  Checked, passed, require, ◌>>=◌, ◌>>◌, each_field, require_in,
}
use multiverse_research.Research.Contract.{
  Library, identifier, is_digest, parse_utc_timestamp, nonauthority_keys, integer,
}
use multiverse_research.Research.Task.{is_v2, is_among, validate_task}
use multiverse_research.Research.Result.{result_keys, without, validate_result_for_task}

abbrev pub assignment_keys : List String
assignment_keys =
    "schema" ∷ "assignment_id" ∷ "task_sha256" ∷ "snapshot_id" ∷ "created_at" ∷ "target_provider"
    ∷ "target_model" ∷ "requested_role" ∷ "adapter_sha256" ∷ "execution_mode"
    ∷ "research_network_access" ∷ "provider_transport_policy_ref" ∷ "max_compute_seconds"
    ∷ "max_output_bytes" ∷ "attestation_required" ∷ "nonauthority" ∷ []

abbrev pub result_v2_keys : List String
result_v2_keys = result_keys ++ "assignment_sha256" ∷ []

abbrev pub execution_modes : List String
execution_modes = "SYNTHETIC_OFFLINE" ∷ "LIVE_ADVISORY" ∷ []

-- `_nonauthority`
unfoldable pub assignment_nonauthority : Value → Checked (Unit {0})
assignment_nonauthority v = do
  require (is_object_of nonauthority_keys v) "ASSIGNMENT_NONAUTHORITY_SCHEMA"
  each_field (λ k flag. require (is_false flag) "ASSIGNMENT_NONAUTHORITY_NOT_FALSE") (fields_in v)

-- `isinstance(v, int) and not isinstance(v, bool) and low <= v <= limit`
abbrev pub is_limited : ℕ → Value → Value → Bool
is_limited low limit (int (pos n)) =
    leb low n && elim (integer limit) [ none ↦ false | some high ↦ leb n high ]
is_limited low limit _ = false

abbrev is_bool : Value → Bool
is_bool (bool _) = true
is_bool _ = false

abbrev is_true : Value → Bool
is_true (bool true) = true
is_true _ = false

-- What the assignment is and whom it names.
unfoldable pub check_target : Library → Value → Fields → Fields → Checked (Unit {0})
check_target lib t task a = do
  require (is_string (item a "schema") "MULTIVERSE_RESEARCH_ASSIGNMENT_v1")
      "ASSIGNMENT_SCHEMA_VERSION"
  _ ← identifier (item a "assignment_id") "ASSIGNMENT_ID"
  require (equals (item a "task_sha256") (str (lib.sha256_json t)))
      "ASSIGNMENT_TASK_SHA256_MISMATCH"
  require (equals (item a "snapshot_id") (item task "snapshot_id"))
      "ASSIGNMENT_SNAPSHOT_ID_MISMATCH"
  assigned ← parse_utc_timestamp lib (item a "created_at") "ASSIGNMENT_CREATED_AT"
  created ← parse_utc_timestamp lib (item task "created_at") "TASK_CREATED_AT"
  require (leb created assigned) "ASSIGNMENT_CREATED_BEFORE_TASK"
  _ ← identifier (item a "target_provider") "ASSIGNMENT_TARGET_PROVIDER"
  _ ← identifier (item a "target_model") "ASSIGNMENT_TARGET_MODEL"
  _ ← identifier (item a "requested_role") "ASSIGNMENT_REQUESTED_ROLE"
  require (is_among (item a "requested_role") (items_in (item task "requested_roles")))
      "ASSIGNMENT_ROLE_NOT_REQUESTED"
  require (is_digest (item a "adapter_sha256")) "ASSIGNMENT_ADAPTER_SHA256"

-- What the assignment allows.
unfoldable pub check_scope : Fields → Fields → Checked (Unit {0})
check_scope constraints a = do
  require_in (item a "execution_mode") execution_modes "ASSIGNMENT_EXECUTION_MODE"
  require_in (item a "research_network_access") ("NONE" ∷ "PUBLIC_READ_ONLY" ∷ [])
      "ASSIGNMENT_RESEARCH_NETWORK_ACCESS"
  if is_string (item constraints "network_access") "NONE"
      then require (is_string (item a "research_network_access") "NONE")
          "ASSIGNMENT_RESEARCH_NETWORK_WIDENED"
      else passed tt
  _ ← identifier (item a "provider_transport_policy_ref") "ASSIGNMENT_PROVIDER_TRANSPORT_POLICY_REF"
  require (is_limited 1 (item constraints "max_compute_seconds") (item a "max_compute_seconds"))
      "ASSIGNMENT_MAX_COMPUTE_WIDENED"
  require (is_limited 1024 (item constraints "max_output_bytes") (item a "max_output_bytes"))
      "ASSIGNMENT_MAX_OUTPUT_WIDENED"
  require (is_bool (item a "attestation_required")) "ASSIGNMENT_ATTESTATION_REQUIRED"

-- What goes with the mode of execution.
unfoldable pub check_mode : Fields → Checked (Unit {0})
check_mode a =
    let transport = item a "provider_transport_policy_ref" in
    if is_string (item a "execution_mode") "SYNTHETIC_OFFLINE"
    then (do
      require (is_string transport "NONE") "SYNTHETIC_ASSIGNMENT_PROVIDER_TRANSPORT_FORBIDDEN"
      require (is_false (item a "attestation_required"))
          "SYNTHETIC_ASSIGNMENT_ATTESTATION_FORBIDDEN")
    else (do
      require (not (is_string transport "NONE")) "LIVE_ASSIGNMENT_PROVIDER_TRANSPORT_REQUIRED"
      require (is_true (item a "attestation_required")) "LIVE_ASSIGNMENT_ATTESTATION_REQUIRED")

-- `validate_assignment`; an assignment that passes is returned as it is.
unfoldable pub validate_assignment : Library → Value → Value → Checked Fields
validate_assignment lib t v = do
  task ← validate_task lib t
  require (is_v2 task) "ASSIGNMENT_REQUIRES_TASK_V2"
  require (is_object_of assignment_keys v) "ASSIGNMENT_SCHEMA_KEYS"
  let a = fields_in v
  check_target lib t task a
  check_scope (fields_in (item task "constraints")) a
  check_mode a
  assignment_nonauthority (item a "nonauthority")
  passed a

-- `assignment_sha256`
unfoldable pub assignment_sha256 : Library → Value → Value → Checked String
assignment_sha256 lib t v = do _ ← validate_assignment lib t v; passed (lib.sha256_json v)

-- `_legacy_result_v1`
abbrev pub legacy_result_v1 : Fields → Fields
legacy_result_v1 r =
    put (without "assignment_sha256" r) "schema" (str "MULTIVERSE_RESEARCH_RESULT_v1")

-- `validate_result_v2_for_assignment`
unfoldable pub validate_result_v2_for_assignment : Library → Value → Value → Value → Checked Fields
validate_result_v2_for_assignment lib t assignment v = do
  a ← validate_assignment lib t assignment
  require (is_object_of result_v2_keys v) "RESULT_V2_SCHEMA_KEYS"
  let r = fields_in v
  require (is_string (item r "schema") "MULTIVERSE_RESEARCH_RESULT_v2") "RESULT_V2_SCHEMA_VERSION"
  require (is_digest (item r "assignment_sha256")) "RESULT_V2_ASSIGNMENT_SHA256"
  digest ← assignment_sha256 lib t assignment
  require (equals (item r "assignment_sha256") (str digest)) "RESULT_V2_ASSIGNMENT_SHA256_MISMATCH"
  _ ← validate_result_for_task lib t (obj (legacy_result_v1 r))
  let identity = fields_in (item r "model_identity")
  require (equals (item identity "provider") (item a "target_provider"))
      "RESULT_V2_PROVIDER_MISMATCH"
  require (equals (item identity "model") (item a "target_model")) "RESULT_V2_MODEL_MISMATCH"
  require (equals (item identity "role") (item a "requested_role")) "RESULT_V2_ROLE_MISMATCH"
  produced ← parse_utc_timestamp lib (item r "produced_at") "RESULT_V2_PRODUCED_AT"
  assigned ← parse_utc_timestamp lib (item a "created_at") "ASSIGNMENT_CREATED_AT"
  require (leb assigned produced) "RESULT_V2_PRODUCED_BEFORE_ASSIGNMENT"
  passed r

-- `result_v2_content_digest`
unfoldable pub result_v2_content_digest : Library → Value → Value → Value → Checked String
result_v2_content_digest lib t assignment v = do
  r ← validate_result_v2_for_assignment lib t assignment v
  passed (lib.sha256_json (obj (without "submission_id" r)))
