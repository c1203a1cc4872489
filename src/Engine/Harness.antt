-- ===== src/Engine/Harness.antt =====
-- The execution harness: automation/shared_engine/exact_v7_shared_engine.py and
-- canonical_v7_binding.py. Three databases are written in turn, each in a transaction of its own,
-- so what was committed before a raise stays.
use multiverse_research.Prelude.{
  ℕ, ◌+◌, String, Bool, false, not, ◌&&◌, ◌||◌, some, List, [], ◌∷◌, if◌then◌else◌, nat_eq,
  string_eq,
}
use multiverse_research.Prelude.Int.{ℤ, pos}
use multiverse_research.Prelude.Value.{Value, Fields, null, int, str, obj, end, field, equals}
use multiverse_research.Engine.States.{
  TaskState, in_implement, state_beq, bridge_error, role_state_mismatch, Result, ok, err, ◌>>=◌,
  ◌>>◌, raise_if,
}
use multiverse_research.Engine.Store.{
  Task, Db, Change, get_task, create_task, claim_task, transition, assert_unexpired_fence,
}
use multiverse_research.Engine.Registry.{validate_domain_task}
use multiverse_research.Prelude.Json.{item, is_text, is_str, is_count, is_zero, is_string}
use multiverse_research.Engine.Bridge.{
  Codec, IntegrationBinding, role_expected_state, role_name, role_of, authority, is_fix,
  or_unknown_task, validate_receipt, ReceiptRow, record_receipt, apply_receipt,
}
use multiverse_research.Engine.Provider.{
  Manifest, ProviderDb, provider_request_from_job, execute_local_once, job_authority, is_role,
}

abbrev pub v7_head : String
v7_head = "4a72ef46116043094c7a8e494404956925a5b3bf"

abbrev pub canonical_main_head : String
canonical_main_head = "040d37f0a4e426cf2e119706484c90cbb48f0e56"

-- The checks of `v7_result_to_bridge_receipt` on the result of a role.
unfoldable pub check_v7_result : Fields → Fields → Result (Unit {0})
check_v7_result job result =
    if is_string (item job "role") "IMPLEMENT"
    then (do
      raise_if
          (not (
            is_string (item result "status") "READY"
            && equals (item result "candidate_head") (item job "candidate_head")))
          (bridge_error "CANONICAL_V7_IMPLEMENT_INVALID")
      raise_if (not (is_count (item result "diff_lines")))
          (bridge_error "CANONICAL_V7_IMPLEMENT_DIFF_LINES")
      raise_if (not (is_zero (item result "cost_microusd")))
          (bridge_error "CANONICAL_V7_IMPLEMENT_COST"))
    else (do
      raise_if (not (equals (item result "reviewed_head") (item job "candidate_head")))
          (bridge_error "CANONICAL_V7_HEAD")
      raise_if (not (is_string (item result "verdict") "PASS" || is_fix result))
          (bridge_error "CANONICAL_V7_VERDICT")
      raise_if
          (is_fix result && not (is_text (item result "code") && is_str (item result "detail")))
          (bridge_error "CANONICAL_V7_FIX_SCHEMA"))

-- `v7_result_to_bridge_receipt`
unfoldable pub v7_result_to_bridge_receipt : Fields → Fields → IntegrationBinding → Result Fields
v7_result_to_bridge_receipt job result b = do
  raise_if (not (equals (item job "authority") (obj job_authority)))
      (bridge_error "CANONICAL_V7_JOB_AUTHORITY")
  raise_if (not (is_string (item job "canonical_main") canonical_main_head))
      (bridge_error "CANONICAL_V7_JOB_MAIN")
  raise_if (not (is_role (item job "role"))) (bridge_error "CANONICAL_V7_JOB_ROLE")
  raise_if (not (is_text (item result "evidence_ref")))
      (bridge_error "CANONICAL_V7_EVIDENCE_REQUIRED")
  check_v7_result job result
  validate_receipt b (
      obj (
        field "operation_key" (item job "operation_key") (
          field "task_id" (item job "task_id") (
            field "role" (item job "role") (
              field "semantic_generation" (item job "semantic_generation") (
                field "candidate_branch" (str b.candidate_branch) (
                  field "candidate_head" (str b.candidate_head) (
                    field "canonical_main" (str b.canonical_main) (
                      field "provider_adapter_head" (str v7_head) (
                        field "evidence_ref" (item result "evidence_ref") (
                          field "result" (obj result)
                            (field "authority" (obj authority) end))))))))))))

-- What the engine object holds, and the three databases that it writes.
pub record Engine : Type 0 where
  pub codec : Codec
  pub binding : IntegrationBinding
  pub manifest : Manifest

pub record World : Type 0 where
  pub db : Db
  pub bridge_receipts : List ReceiptRow
  pub provider : ProviderDb

-- `_validate_persisted_task`
unfoldable pub validate_persisted_task : String → Db → Result Task
validate_persisted_task tid db = do
  task ← or_unknown_task (get_task tid db)
  _ ← validate_domain_task task.domain task.task_type [] []
  ok task

-- `submit`
unfoldable pub submit :
    String
    → String
    → String
    → String
    → List (String × Bool)
    → List String
    → ℤ
    → ℕ
    → Db
    → Result (String × Db)
submit tid domain task_type goal capabilities resources priority now db = do
  _ ← validate_domain_task domain task_type capabilities resources
  create_task tid domain goal task_type priority now db

abbrev start_change : Value → ℕ → Change
start_change worker gen = record {
  actor = "exact_v7_shared_engine";
  event_type = "START";
  detail = end;
  result_update = end;
  release = false;
  fencing = some (worker, int (pos gen));
}

-- `claim_and_start`: the claim is committed before the transition is tried.
unfoldable pub claim_and_start : String → Value → ℕ → ℕ → Db → Result ℕ × Db
claim_and_start tid worker claimed_at started_at db = elim (validate_persisted_task tid db) [
  | err e ↦ (err e, db)
  | ok _ ↦ elim (claim_task tid worker null claimed_at db) [
    | err e ↦ (err e, db)
    | ok (gen, db') ↦ elim (transition tid in_implement (start_change worker gen) started_at db') [
      | err e ↦ (err e, db')
      | ok (_, db'') ↦ (ok gen, db'')
    ]
  ]
]

-- `_job`
unfoldable pub job_of : IntegrationBinding → Task → Value → Value → Value → Fields
job_of b task role generation key = field "operation_key" key (
    field "task_id" (str task.id) (
      field "role" role (
        field "semantic_generation" generation (
          field "candidate_head" (str b.candidate_head) (
            field "candidate_branch" (str b.candidate_branch) (
              field "canonical_main" (str b.canonical_main) (
                field "objective" (str task.goal) (field "authority" (obj job_authority) end))))))))

-- `_assert_role_precondition`
unfoldable pub assert_role_precondition : String → String → Value → Value → ℕ → Db → Result Task
assert_role_precondition tid role worker generation now db = do
  assert_unexpired_fence tid worker generation now db
  task ← validate_persisted_task tid db
  r ← role_of (str role)
  raise_if (not (state_beq task.state (role_expected_state r)))
      (role_state_mismatch (role_name r) task.state)
  ok task

-- The clock readings of one `execute_role`, in order.
pub record Clocks : Type 0 where
  pub checked_at : ℕ
  pub provider_at : ℕ
  pub recorded_at : ℕ
  pub applied_at : ℕ

abbrev pub run_in {ℓ} :
    {A : Type ℓ} {B : Type 0} → World → Result A → (A → Result B × World) → Result B × World
run_in w (err e) k = (err e, w)
run_in w (ok a) k = k a

-- `execute_role`
unfoldable pub execute_role :
    Engine
    → String
    → String
    → ℕ
    → String
    → Value
    → Value
    → Fields
    → Clocks
    → World
    → Result TaskState × World
execute_role e tid role generation key worker claim_generation result clocks w =
    run_in w (assert_role_precondition tid role worker claim_generation clocks.checked_at w.db)
      λ task.
        let job = job_of e.binding task (str role) (int (pos generation)) (str key) in
        run_in w (provider_request_from_job e.manifest job) λ request.
          run_in w
            (execute_local_once e.codec key request ((role, generation + 1, obj result) ∷ [])
              clocks.provider_at w.provider)
            λ (canonical, provider').
              let w1 = record w { provider = provider' } in
              run_in w1 (v7_result_to_bridge_receipt job canonical e.binding) λ receipt.
                run_in w1
                  (record_receipt e.codec e.binding (obj receipt) clocks.recorded_at
                    w1.bridge_receipts)
                  λ (durable, rows).
                    let w2 = record w1 { bridge_receipts = rows } in
                    run_in w2
                      (apply_receipt tid (obj durable) e.binding worker claim_generation
                        clocks.applied_at w2.db)
                      λ (target, db'). (ok target, record w2 { db = db' })
