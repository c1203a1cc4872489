-- ===== src/Engine/Provider.antt =====
-- The provider-neutral adapter boundary: automation/orchestrator_provider_adapter_v7.py.
-- The manifest is what `ProviderAdapterManifest.load` has accepted; the receipt database is the two
-- tables of `ProviderAdapterReceiptStore`.
use multiverse_research.Prelude.{
  ℕ, ◌+◌, String, Bool, true, false, not, ◌&&◌, ◌||◌, none, some, List, [], ◌∷◌, ◌++◌,
  if◌then◌else◌, ◌==◌, nat_eq, string_eq,
}
use multiverse_research.Prelude.Int.{pos, negsuc}
use multiverse_research.Prelude.Text.{is_empty, is_hex_text}
use multiverse_research.Prelude.Value.{
  Value, Fields, null, bool, int, str, obj, end, field, has_keys, equals,
}
use multiverse_research.Prelude.Table.{select}
use multiverse_research.Engine.States.{
  orchestrator_error, integrity_error, type_error, Result, ok, err, ◌>>=◌, ◌>>◌, raise_if,
}
use multiverse_research.Prelude.Json.{item, is_text, is_str, is_count, is_zero, is_string}
use multiverse_research.Engine.Bridge.{Codec, authority, or_shape_error, is_fix}

-- `require(c, code)`
abbrev pub demand : Bool → String → Result (Unit {0})
demand c code = raise_if (not c) (orchestrator_error code)

-- `_validate_result_for_request`; the result is returned as it is.
unfoldable pub validate_result_for_request : Fields → Value → Result Fields
validate_result_for_request request value = do
  result ← or_shape_error value (orchestrator_error "PROVIDER_ADAPTER_RESULT_SHAPE")
  demand (is_text (item result "evidence_ref")) "PROVIDER_ADAPTER_EVIDENCE_REQUIRED"
  if is_string (item request "role") "IMPLEMENT"
      then (do
        demand
            (has_keys result
              ("status" ∷ "candidate_head" ∷ "diff_lines" ∷ "cost_microusd" ∷ "evidence_ref" ∷ []))
            "PROVIDER_ADAPTER_IMPLEMENT_SCHEMA"
        demand (equals (item result "candidate_head") (item request "candidate_head"))
            "PROVIDER_ADAPTER_IMPLEMENT_HEAD_MISMATCH"
        demand (is_string (item result "status") "READY") "PROVIDER_ADAPTER_IMPLEMENT_STATUS"
        demand (is_count (item result "diff_lines")) "PROVIDER_ADAPTER_IMPLEMENT_DIFF_LINES"
        demand (is_zero (item result "cost_microusd")) "PROVIDER_ADAPTER_IMPLEMENT_COST"
        ok result)
      else (do
        demand (is_string (item request "role") "LAB" || is_string (item request "role") "AUDIT")
            "PROVIDER_ADAPTER_RESULT_ROLE"
        demand (has_keys result ("verdict" ∷ "reviewed_head" ∷ "evidence_ref" ∷ []))
            "PROVIDER_ADAPTER_SCHEMA"
        demand (equals (item result "reviewed_head") (item request "candidate_head"))
            "PROVIDER_ADAPTER_HEAD_MISMATCH"
        demand (is_string (item result "verdict") "PASS" || is_fix result)
            "PROVIDER_ADAPTER_VERDICT"
        demand (not (is_fix result) || is_text (item result "code")) "PROVIDER_ADAPTER_FIX_CODE"
        demand (not (is_fix result) || is_str (item result "detail")) "PROVIDER_ADAPTER_FIX_DETAIL"
        ok result)

pub record Manifest : Type 0 where
  pub adapter_id : String
  pub adapter_kind : String
  pub canonical_main : String

abbrev pub provider_adapter_id : String
provider_adapter_id = "automation-provider-neutral-local-v7"

-- The script of the local adapter: results by role and by the number of the attempt.
abbrev pub Script : Type 0
Script = List (String × ℕ × Value)

abbrev pub scripted : String → ℕ → Script → Value
scripted role n [] = null
scripted role n ((r, k, v) ∷ s) =
    let rest = scripted role n s in if r == role && k == n then v else rest

abbrev attempt_of : Value → Result ℕ
attempt_of (int (pos n)) = ok (n + 1)
attempt_of (int (negsuc _)) = ok 0
attempt_of _ = err type_error

abbrev role_text : Value → String
role_text (str s) = s
role_text _ = ""

-- `DeterministicLocalAdapter.execute`
unfoldable pub execute : Script → Fields → Result Value
execute script request = do
  demand (is_string (item request "adapter_id") provider_adapter_id) "PROVIDER_REQUEST_ADAPTER_ID"
  n ← attempt_of (item request "semantic_generation")
  result ←
      or_shape_error (scripted (role_text (item request "role")) n script)
        (orchestrator_error "PROVIDER_SCRIPT_EXHAUSTED")
  ok (obj result)

pub record ProviderRow : Type 0 where
  pub operation_key : String
  pub request_fingerprint : String
  pub request_json : String
  pub result_json : String
  pub created_at : ℕ

abbrev pub provider_key : ProviderRow → String
provider_key row = row.operation_key

pub record Execution : Type 0 where
  pub operation_key : String
  pub times : ℕ

abbrev pub execution_key : Execution → String
execution_key row = row.operation_key

pub record ProviderDb : Type 0 where
  pub receipts : List ProviderRow
  pub executions : List Execution

-- `execution_count`
unfoldable pub execution_count : String → ProviderDb → ℕ
execution_count key p = elim (select execution_key key p.executions) [ none ↦ 0 | some e ↦ e.times ]

-- The row that a result is stored in.
abbrev pub provider_row : Codec → String → Fields → Fields → ℕ → ProviderRow
provider_row codec key request result now = record {
  operation_key = key;
  request_fingerprint = codec.sha256 (codec.dumps (obj request));
  request_json = codec.dumps (obj request);
  result_json = codec.dumps (obj result);
  created_at = now;
}

-- `execute_local_once`
unfoldable pub execute_local_once :
    Codec → String → Fields → Script → ℕ → ProviderDb → Result (Fields × ProviderDb)
execute_local_once codec key request script now p = do
  demand (not (is_empty key)) "PROVIDER_ADAPTER_OPERATION_KEY"
  elim (select provider_key key p.receipts) [
    | some row ↦ do
      demand (row.request_fingerprint == codec.sha256 (codec.dumps (obj request)))
          "PROVIDER_ADAPTER_CONFLICTING_REPLAY"
      out ← validate_result_for_request request (codec.loads row.result_json)
      ok (out, p)
    | none ↦ do
      raw ← execute script request
      result ← validate_result_for_request request raw
      elim (select execution_key key p.executions) [
        | some _ ↦ err integrity_error
        | none ↦ ok (
          result,
          record {
            receipts = p.receipts ++ (provider_row codec key request result now ∷ []);
            executions = p.executions ++ (record { operation_key = key; times = 1 } ∷ []);
          },
        )
      ]
  ]

abbrev pub job_authority : Fields
job_authority = field "candidate_only" (bool true) (
    field "live_provider" (bool false) (
      field "production" (bool false)
        (field "runtime" (bool false) (field "spend" (bool false) end))))

abbrev is_head : Value → Bool
is_head (str s) = is_hex_text 40 s
is_head _ = false

abbrev pub is_role : Value → Bool
is_role v = is_string v "IMPLEMENT" || is_string v "LAB" || is_string v "AUDIT"

-- `isinstance(v, int) and v >= 0`; a bool is an int here.
abbrev is_number : Value → Bool
is_number (int (pos n)) = true
is_number (bool b) = true
is_number _ = false

-- `provider_request_from_job`
unfoldable pub provider_request_from_job : Manifest → Fields → Result Fields
provider_request_from_job manifest job = do
  demand (equals (item job "authority") (obj job_authority)) "PROVIDER_JOB_AUTHORITY"
  demand (is_head (item job "candidate_head")) "PROVIDER_JOB_HEAD"
  demand (is_head (item job "canonical_main")) "PROVIDER_JOB_MAIN"
  demand (is_string (item job "canonical_main") manifest.canonical_main)
      "PROVIDER_JOB_MAIN_MISMATCH"
  demand (is_text (item job "candidate_branch")) "PROVIDER_JOB_BRANCH"
  demand (is_role (item job "role")) "PROVIDER_JOB_ROLE"
  demand (is_number (item job "semantic_generation")) "PROVIDER_JOB_GENERATION"
  demand (is_text (item job "operation_key")) "PROVIDER_JOB_OPERATION_KEY"
  ok (
      field "schema_version" (str "MULTIVERSE_AUTOMATION_PROVIDER_ADAPTER_CONTRACT_v7") (
        field "adapter_id" (str manifest.adapter_id) (
          field "adapter_kind" (str manifest.adapter_kind) (
            field "operation_key" (item job "operation_key") (
              field "task_id" (item job "task_id") (
                field "role" (item job "role") (
                  field "semantic_generation" (item job "semantic_generation") (
                    field "candidate_head" (item job "candidate_head") (
                      field "candidate_branch" (item job "candidate_branch") (
                        field "canonical_main" (item job "canonical_main") (
                          field "objective" (item job "objective")
                            (field "authority" (obj authority) end))))))))))))
