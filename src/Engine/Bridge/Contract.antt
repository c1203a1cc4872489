-- ===== src/Engine/Bridge/Contract.antt =====
-- What a receipt must be: validate_receipt of automation/shared_engine/integration_bridge.py.
use multiverse_research.Prelude.{
  ◌≡◌, String, Bool, true, false, not, ◌&&◌, ◌||◌, List, [], ◌∷◌, if◌then◌else◌, ◌==◌, nat_eq,
  string_eq, nat_beq, arith,
}
use multiverse_research.Prelude.Text.{has_prefix, is_hex_text}
use multiverse_research.Prelude.Value.{
  Value, Fields, bool, str, arr, obj, end, field, size, has_keys, equals,
}
use multiverse_research.Prelude.Json.{item, is_text, is_str, is_count, is_zero, is_string}
use multiverse_research.Engine.States.{
  TaskState, in_implement, in_lab, in_audit, done, Error, bridge_error, type_error, Result, ok, err,
  ◌>>=◌, ◌>>◌, raise_if,
}

pub record Codec : Type 0 where
  pub dumps : Value → String
  pub loads : String → Value
  pub sha256 : String → String

pub record IntegrationBinding : Type 0 where
  pub canonical_main : String
  pub candidate_branch : String
  pub candidate_head : String
  pub provider_adapter_head : String

-- `IntegrationBinding.validate`
unfoldable pub validate_binding : IntegrationBinding → Result (Unit {0})
validate_binding b = do
  raise_if (not (is_hex_text 40 b.canonical_main)) (bridge_error "INVALID_SHA:canonical_main")
  raise_if (not (is_hex_text 40 b.candidate_head)) (bridge_error "INVALID_SHA:candidate_head")
  raise_if (not (is_hex_text 40 b.provider_adapter_head))
      (bridge_error "INVALID_SHA:provider_adapter_head")
  raise_if (not (has_prefix "agent/" b.candidate_branch)) (bridge_error "INVALID_CANDIDATE_BRANCH")

pub data Role : Type 0 where
  implement lab audit : Role

abbrev pub role_next_state : Role → TaskState
role_next_state implement = in_lab
role_next_state lab = in_audit
role_next_state audit = done

abbrev pub role_expected_state : Role → TaskState
role_expected_state implement = in_implement
role_expected_state lab = in_lab
role_expected_state audit = in_audit

abbrev pub role_name : Role → String
role_name implement = "IMPLEMENT"
role_name lab = "LAB"
role_name audit = "AUDIT"

abbrev pub authority : Fields
authority = field "candidate_only" (bool true) (
    field "external_effect" (bool false) (
      field "live_provider" (bool false) (
        field "network" (bool false) (
          field "production" (bool false) (
            field "runtime" (bool false)
              (field "secret_credential" (bool false) (field "spend" (bool false) end)))))))

-- `role in ROLE_NEXT_STATE`; a list or a dict cannot be looked up.
unfoldable pub role_of : Value → Result Role
role_of (str s) =
    if s == "IMPLEMENT"
    then ok implement
    else if s == "LAB"
    then ok lab
    else if s == "AUDIT"
    then ok audit
    else err (bridge_error "RECEIPT_ROLE")
role_of (arr _) = err type_error
role_of (obj _) = err type_error
role_of _ = err (bridge_error "RECEIPT_ROLE")

abbrev pub or_shape_error : Value → Error → Result Fields
or_shape_error (obj d) e = ok d
or_shape_error _ e = err e

pub or_shape_error-eq-ok :
    (v : Value) (e : Error) {d : Fields} → or_shape_error v e ≡ ok d → v ≡ obj d
or_shape_error-eq-ok v e h = ground arith

abbrev pub receipt_keys : List String
receipt_keys =
    "operation_key" ∷ "task_id" ∷ "role" ∷ "semantic_generation" ∷ "candidate_branch"
    ∷ "candidate_head" ∷ "canonical_main" ∷ "provider_adapter_head" ∷ "evidence_ref" ∷ "result"
    ∷ "authority" ∷ []

abbrev pub is_fix : Fields → Bool
is_fix result = is_string (item result "verdict") "FIX_REQUIRED"

-- The part of `validate_receipt` that depends on the role.
unfoldable pub validate_result : IntegrationBinding → Role → Fields → Result (Unit {0})
validate_result b implement result = do
  raise_if (not (is_string (item result "status") "READY")) (bridge_error "IMPLEMENT_STATUS")
  raise_if (not (is_string (item result "candidate_head") b.candidate_head))
      (bridge_error "IMPLEMENT_RESULT_HEAD")
  raise_if (not (is_count (item result "diff_lines"))) (bridge_error "IMPLEMENT_DIFF_LINES")
  raise_if (not (is_zero (item result "cost_microusd"))) (bridge_error "IMPLEMENT_COST")
validate_result b role result = do
  raise_if (not (is_string (item result "reviewed_head") b.candidate_head))
      (bridge_error "RESULT_HEAD")
  raise_if (not (is_string (item result "verdict") "PASS" || is_fix result))
      (bridge_error "VERDICT")
  raise_if (is_fix result && not (is_text (item result "code"))) (bridge_error "FIX_CODE")
  raise_if (is_fix result && not (is_str (item result "detail"))) (bridge_error "FIX_DETAIL")

-- The part of `validate_receipt` that compares the receipt with the binding.
unfoldable pub check_bound : IntegrationBinding → Fields → Result (Unit {0})
check_bound b r = do
  raise_if (not (is_string (item r "candidate_branch") b.candidate_branch))
      (bridge_error "RECEIPT_BRANCH_MISMATCH")
  raise_if (not (is_string (item r "candidate_head") b.candidate_head))
      (bridge_error "RECEIPT_HEAD_MISMATCH")
  raise_if (not (is_string (item r "canonical_main") b.canonical_main))
      (bridge_error "RECEIPT_MAIN_MISMATCH")
  raise_if (not (is_string (item r "provider_adapter_head") b.provider_adapter_head))
      (bridge_error "RECEIPT_ADAPTER_HEAD_MISMATCH")
  raise_if (not (equals (item r "authority") (obj authority)))
      (bridge_error "RECEIPT_AUTHORITY_DENIED")

-- `validate_receipt`; a receipt that passes is returned as it is.
unfoldable pub validate_receipt : IntegrationBinding → Value → Result Fields
validate_receipt b receipt = do
  validate_binding b
  r ← or_shape_error receipt (bridge_error "RECEIPT_SHAPE")
  raise_if (not (nat_beq (size r) 11 && has_keys r receipt_keys)) (bridge_error "RECEIPT_KEYS")
  role ← role_of (item r "role")
  raise_if (not (is_text (item r "operation_key"))) (bridge_error "RECEIPT_OPERATION_KEY")
  raise_if (not (is_text (item r "task_id"))) (bridge_error "RECEIPT_TASK_ID")
  raise_if (not (is_count (item r "semantic_generation"))) (bridge_error "RECEIPT_GENERATION")
  raise_if (not (is_text (item r "evidence_ref"))) (bridge_error "RECEIPT_EVIDENCE_REQUIRED")
  check_bound b r
  result ← or_shape_error (item r "result") (bridge_error "RECEIPT_RESULT_SHAPE")
  validate_result b role result
  ok r
