-- ===== src/Research/Result.antt =====
-- The contract of a result: `validate_result` and `validate_result_for_task` of
-- automation/multimodel_research_v1/model.py.
use multiverse_research.Prelude.{
  String, Bool, false, not, ◌&&◌, Option, none, some, List, [], ◌∷◌, if◌then◌else◌, ◌==◌, string_eq,
  elem, leb,
}
use multiverse_research.Prelude.Int.{pos}
use multiverse_research.Prelude.Value.{
  Value, Items, Fields, int, float, finite, str, obj, nil, cons, end, field, equals, unit_scale,
}
use multiverse_research.Prelude.Json.{
  item, is_null, is_string, is_object_of, items_in, fields_in, is_dict, is_list, is_filled_list,
}
use multiverse_research.Prelude.Checked.{
  Checked, passed, refused, contract, require, ◌>>=◌, ◌>>◌, each, require_in,
}
use multiverse_research.Research.Contract.{
  Library, identifier, text, is_digest, is_optional_digest, parse_utc_timestamp, nonauthority,
  reject_dynamic_keys, integer,
}
use multiverse_research.Research.Task.{
  allowed_primitives, names_source, is_v2, is_among, count_items, validate_task,
}

abbrev pub result_keys : List String
result_keys =
    "schema" ∷ "task_id" ∷ "task_sha256" ∷ "submission_id" ∷ "snapshot_id" ∷ "produced_at"
    ∷ "model_identity" ∷ "status" ∷ "findings" ∷ "uncertainty_factors" ∷ "nonauthority" ∷ []

abbrev pub result_statuses : List String
result_statuses = "COMPLETED" ∷ "INFRA_FAILURE" ∷ "UNSUPPORTED" ∷ "REFUSED" ∷ []

abbrev pub finding_keys : List String
finding_keys =
    "finding_id" ∷ "claim_key" ∷ "position" ∷ "severity" ∷ "assertion" ∷ "evidence" ∷ "confidence"
    ∷ "uncertainty" ∷ "recommendation" ∷ "validation_plan" ∷ []

abbrev pub positions : List String
positions = "SUPPORT" ∷ "OPPOSE" ∷ "UNKNOWN" ∷ []

abbrev pub severities : List String
severities = "INFO" ∷ "LOW" ∷ "MEDIUM" ∷ "HIGH" ∷ "CRITICAL" ∷ []

abbrev pub is_completed : Fields → Bool
is_completed result = is_string (item result "status") "COMPLETED"

-- A number from 0 to 1 that is not a bool. An int that no float holds raises in the code and is
-- refused here.
abbrev pub is_confidence : Value → Bool
is_confidence (int (pos n)) = leb n 1
is_confidence (float (finite (pos n))) = leb n unit_scale
is_confidence _ = false

unfoldable pub check_identity : Value → Checked (Unit {0})
check_identity v = do
  require (is_object_of ("provider" ∷ "model" ∷ "role" ∷ []) v) "MODEL_IDENTITY_SCHEMA"
  let d = fields_in v
  _ ← identifier (item d "provider") "MODEL_IDENTITY_PROVIDER"
  _ ← identifier (item d "model") "MODEL_IDENTITY_MODEL"
  _ ← identifier (item d "role") "MODEL_IDENTITY_ROLE"
  passed tt

unfoldable pub check_evidence : Value → Checked (Unit {0})
check_evidence v = do
  require (is_object_of ("primitive" ∷ "ref" ∷ "sha256" ∷ []) v) "FINDING_EVIDENCE_SCHEMA"
  let d = fields_in v
  require_in (item d "primitive") allowed_primitives "FINDING_EVIDENCE_PRIMITIVE"
  _ ← text (item d "ref") "FINDING_EVIDENCE_REF" 4000
  require (is_optional_digest (item d "sha256")) "FINDING_EVIDENCE_SHA256"

-- The body of the loop over the findings: what it gives joins `finding_ids` and `claim_keys`.
unfoldable pub check_finding : List String → List String → Value → Checked (String × String)
check_finding finding_ids claim_keys v = do
  require (is_object_of finding_keys v) "FINDING_SCHEMA"
  let d = fields_in v
  finding_id ← identifier (item d "finding_id") "FINDING_ID"
  require (not (elem finding_id finding_ids)) "DUPLICATE_FINDING_ID"
  claim_key ← identifier (item d "claim_key") "CLAIM_KEY"
  require (not (elem claim_key claim_keys)) "DUPLICATE_CLAIM_KEY"
  require_in (item d "position") positions "FINDING_POSITION"
  require_in (item d "severity") severities "FINDING_SEVERITY"
  _ ← text (item d "assertion") "FINDING_ASSERTION" 20000
  require (is_confidence (item d "confidence")) "FINDING_CONFIDENCE"
  _ ← text (item d "uncertainty") "FINDING_UNCERTAINTY" 20000
  _ ← text (item d "recommendation") "FINDING_RECOMMENDATION" 20000
  _ ← text (item d "validation_plan") "FINDING_VALIDATION_PLAN" 20000
  check_evidence (item d "evidence")
  passed (finding_id, claim_key)

unfoldable pub check_findings : List String → List String → Items → Checked (Unit {0})
check_findings finding_ids claim_keys nil = passed tt
check_findings finding_ids claim_keys (cons v xs) = do
  entry ← check_finding finding_ids claim_keys v
  check_findings (entry.0 ∷ finding_ids) (entry.1 ∷ claim_keys) xs

unfoldable pub check_uncertainty : Bool → Value → Checked (Unit {0})
check_uncertainty completed v = do
  require (is_list v) "UNCERTAINTY_FACTORS"
  require (leb (count_items (items_in v)) 100) "UNCERTAINTY_FACTORS_LIMIT"
  each (λ factor. text factor "UNCERTAINTY_FACTOR" 4000 >>= λ _. passed tt) (items_in v)
  if completed then passed tt else require (is_filled_list v) "NONCOMPLETED_REQUIRES_UNCERTAINTY"

-- `validate_result`; a result that passes is returned as it is.
unfoldable pub validate_result : Library → Value → Checked Fields
validate_result lib v = do
  require (is_dict v) "RESULT_OBJECT"
  require (is_object_of result_keys v) "RESULT_SCHEMA_KEYS"
  let r = fields_in v
  require (is_string (item r "schema") "MULTIVERSE_RESEARCH_RESULT_v1") "RESULT_SCHEMA_VERSION"
  _ ← identifier (item r "task_id") "RESULT_TASK_ID"
  require (is_digest (item r "task_sha256")) "RESULT_TASK_SHA256"
  _ ← identifier (item r "submission_id") "SUBMISSION_ID"
  _ ← identifier (item r "snapshot_id") "RESULT_SNAPSHOT_ID"
  _ ← parse_utc_timestamp lib (item r "produced_at") "RESULT_PRODUCED_AT"
  check_identity (item r "model_identity")
  require_in (item r "status") result_statuses "RESULT_STATUS"
  require (is_list (item r "findings")) "FINDINGS_LIST"
  require (leb (count_items (items_in (item r "findings"))) 500) "FINDINGS_LIMIT"
  if is_completed r
      then require (is_filled_list (item r "findings")) "COMPLETED_REQUIRES_FINDING"
      else require (not (is_filled_list (item r "findings"))) "NONCOMPLETED_FINDINGS_MUST_BE_EMPTY"
  check_findings [] [] (items_in (item r "findings"))
  check_uncertainty (is_completed r) (item r "uncertainty_factors")
  nonauthority (item r "nonauthority")
  reject_dynamic_keys lib v
  passed r

-- The last entry that a test picks, as in a dict that is filled in order.
abbrev pub last_item : (Fields → Bool) → Items → Option Fields
last_item p nil = none
last_item p (cons v xs) = elim (last_item p xs) [
  | some d ↦ some d
  | none ↦ if p (fields_in v) then some (fields_in v) else none
]

-- `ref in source_refs`, with the entry.
abbrev pub source_of : Value → Items → Option Fields
source_of ref refs = last_item (λ d. equals (item d "ref") ref) refs

-- `(primitive, ref) in evidence_manifest`, with the entry.
abbrev pub manifest_of : Value → Value → Items → Option Fields
manifest_of primitive ref manifest =
    last_item (λ d. equals (item d "primitive") primitive && equals (item d "ref") ref) manifest

unfoldable pub check_against_manifest : Fields → Fields → Checked (Unit {0})
check_against_manifest task e =
    elim (manifest_of (item e "primitive") (item e "ref")
      (items_in (item task "evidence_manifest"))) [
        | none ↦ refused (contract "RESULT_EVIDENCE_MANIFEST_NOT_DECLARED")
        | some entry ↦
            require (equals (item e "sha256") (item entry "sha256"))
              "RESULT_EVIDENCE_MANIFEST_SHA256_MISMATCH"
      ]

unfoldable pub check_against_source : Fields → Fields → Checked (Unit {0})
check_against_source task e = elim (source_of (item e "ref") (items_in (item task "source_refs"))) [
  | none ↦ refused (contract "RESULT_EVIDENCE_REF_NOT_DECLARED")
  | some source ↦
      require (not (is_null (item source "sha256"))) "RESULT_EVIDENCE_SOURCE_DIGEST_REQUIRED"
      >> require (equals (item e "sha256") (item source "sha256"))
          "RESULT_EVIDENCE_SOURCE_SHA256_MISMATCH"
]

-- The body of the loop that checks the evidence of a finding.
unfoldable pub check_finding_evidence : Fields → Value → Checked (Unit {0})
check_finding_evidence task v = do
  let e = fields_in (item (fields_in v) "evidence")
  require (is_among (item e "primitive") (items_in (item task "allowed_primitives")))
      "RESULT_EVIDENCE_PRIMITIVE_NOT_ALLOWED"
  if is_v2 task then check_against_manifest task e else passed tt
  if names_source (item e "primitive") then check_against_source task e else passed tt

-- `validate_result_for_task`
unfoldable pub validate_result_for_task : Library → Value → Value → Checked Fields
validate_result_for_task lib t v = do
  task ← validate_task lib t
  r ← validate_result lib v
  require (equals (item r "task_id") (item task "task_id")) "RESULT_TASK_ID_MISMATCH"
  require (equals (item r "snapshot_id") (item task "snapshot_id")) "RESULT_SNAPSHOT_ID_MISMATCH"
  require (equals (item r "task_sha256") (str (lib.sha256_json t))) "RESULT_TASK_SHA256_MISMATCH"
  produced ← parse_utc_timestamp lib (item r "produced_at") "RESULT_PRODUCED_AT"
  created ← parse_utc_timestamp lib (item task "created_at") "TASK_CREATED_AT"
  require (leb created produced) "RESULT_PRODUCED_BEFORE_TASK_CREATED"
  require
      (is_among (item (fields_in (item r "model_identity")) "role")
        (items_in (item task "requested_roles")))
      "RESULT_ROLE_NOT_REQUESTED"
  let limits = fields_in (item task "constraints")
  require
      (elim (integer (item limits "max_findings")) [
        | none ↦ false
        | some n ↦ leb (count_items (items_in (item r "findings"))) n
      ])
      "RESULT_MAX_FINDINGS_EXCEEDED"
  require
      (elim (integer (item limits "max_output_bytes")) [
        | none ↦ false
        | some n ↦ leb (lib.output_bytes v) n
      ])
      "RESULT_MAX_OUTPUT_BYTES_EXCEEDED"
  each (check_finding_evidence task) (items_in (item r "findings"))
  passed r

-- `content.pop(k, None)`
abbrev pub without : String → Fields → Fields
without k end = end
without k (field j v d) = let rest = without k d in if j == k then d else field j v rest

-- `result_content_digest`
unfoldable pub result_content_digest : Library → Value → Checked String
result_content_digest lib v = do
  r ← validate_result lib v
  passed (lib.sha256_json (obj (without "submission_id" r)))
