-- ===== src/Engine/Bridge/Application.antt =====
-- What a receipt does to its task: apply_receipt of automation/shared_engine/integration_bridge.py.
use multiverse_research.Prelude.{
  ℕ, String, Bool, true, false, not, ◌&&◌, Option, none, some, nat_eq, string_eq,
}
use multiverse_research.Prelude.Int.{pos}
use multiverse_research.Prelude.Value.{Value, Fields, null, int, str, end, field, equals}
use multiverse_research.Prelude.Json.{item, is_string}
use multiverse_research.Engine.States.{
  TaskState, in_lab, in_audit, lab_fix_required, audit_fix_required, done, state_beq, bridge_error,
  lost_lease, role_state_mismatch, Result, ok, err, ◌>>=◌, ◌>>◌, raise_if,
}
use multiverse_research.Engine.Store.{Task, Db, Change, get_task, transition}
use multiverse_research.Engine.Bridge.Contract.{
  IntegrationBinding, Role, role_expected_state, role_name, role_of, or_shape_error, is_fix,
  validate_receipt, implement, lab, audit,
}

abbrev owner_value : Option String → Value
owner_value none = null
owner_value (some w) = str w

-- Where a validated receipt takes its task, and whether the claim is released there.
abbrev pub target_of : Role → Bool → TaskState
target_of implement fix = in_lab
target_of lab true = lab_fix_required
target_of lab false = in_audit
target_of audit true = audit_fix_required
target_of audit false = done

abbrev event_name : Role → Bool → String
event_name implement fix = "IMPLEMENT_RECEIPT_APPLIED"
event_name lab true = "LAB_FIX_REQUIRED"
event_name lab false = "LAB_RECEIPT_APPLIED"
event_name audit true = "AUDIT_FIX_REQUIRED"
event_name audit false = "AUDIT_RECEIPT_APPLIED"

-- `role in ("LAB","AUDIT") and result["verdict"]=="FIX_REQUIRED"`
abbrev pub asks_fix : Role → Fields → Bool
asks_fix implement result = false
asks_fix _ result = is_fix result

-- What `apply_receipt` hands to `transition`: of a review that asks for a fix, and of any other.
abbrev pub receipt_change :
    IntegrationBinding → Fields → Fields → Role → Bool → Value → Value → Change
receipt_change b r result role true worker generation = record {
  actor = "integration_bridge";
  event_type = event_name role true;
  detail =
      field "evidence_ref" (item r "evidence_ref")
        (field "code" (item result "code") (field "detail" (item result "detail") end));
  result_update =
      field "last_review_evidence" (item r "evidence_ref")
        (field "last_review_detail" (item result "detail") end);
  release = false;
  fencing = some (worker, generation);
}
receipt_change b r result role false worker generation = record {
  actor = "integration_bridge";
  event_type = event_name role false;
  detail =
      field "evidence_ref" (item r "evidence_ref")
        (field "operation_key" (item r "operation_key") end);
  result_update =
      field "last_transport_evidence" (item r "evidence_ref")
        (field "candidate_head" (str b.candidate_head) end);
  release = state_beq (target_of role false) done;
  fencing = some (worker, generation);
}

abbrev pub or_unknown_task : Option Task → Result Task
or_unknown_task none = err (bridge_error "UNKNOWN_TASK")
or_unknown_task (some r) = ok r

-- `apply_receipt`
unfoldable pub apply_receipt :
    String → Value → IntegrationBinding → Value → Value → ℕ → Db → Result (TaskState × Db)
apply_receipt tid receipt b worker generation now db = do
  r ← validate_receipt b receipt
  raise_if (not (is_string (item r "task_id") tid)) (bridge_error "TASK_BINDING_MISMATCH")
  t ← or_unknown_task (get_task tid db)
  raise_if
      (not (
        equals (owner_value t.claimed_by) worker
        && equals (int (pos t.claim_generation)) generation))
      (lost_lease "bridge fencing token is stale")
  role ← role_of (item r "role")
  raise_if (not (state_beq t.state (role_expected_state role)))
      (role_state_mismatch (role_name role) t.state)
  result ← or_shape_error (item r "result") (bridge_error "RECEIPT_RESULT_SHAPE")
  let fix = asks_fix role result
  transition tid (target_of role fix) (receipt_change b r result role fix worker generation) now db
