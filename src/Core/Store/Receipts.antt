-- ===== src/Core/Store/Receipts.antt =====
-- Verification receipts: apply_verification_receipt of core_state.py.
use multiverse_research.Prelude.{
  ℕ, String, Bool, true, false, not, ◌&&◌, ◌||◌, Option, none, some, [], ◌∷◌, ◌++◌, if◌then◌else◌,
  ◌==◌, string_eq, any,
}
use multiverse_research.Prelude.Value.{str, obj, end, field}
use multiverse_research.Prelude.Text.{is_empty, is_hex_text}
use multiverse_research.Prelude.Table.{select, update_where}
use multiverse_research.Core.Audit.{Digest}
use multiverse_research.Core.Store.Tables.{
  status_beq, CoreTask, Verification, Core, task_key, Stamp, attempt, with_audit, success_claimed,
  verified,
}

-- The canonical trust root and the check of an external signature: whether a verifier is trusted
-- with the algorithm RSA-SHA256, and whether it signed a payload.
pub record Trust : Type 0 where
  pub trusted : String → Bool
  pub signed : String → String → String → Bool

-- The arguments of `apply_verification_receipt` behind the task's id.
pub record Receipt : Type 0 where
  pub receipt_id : String
  pub verifier_id : String
  pub evidence_ref : String
  pub evidence_sha256 : String
  pub verdict : String
  pub request_integrity : String

-- `_verification_payload`
unfoldable pub verification_payload : Digest → String → Receipt → String
verification_payload d tid r = d.dumps (
    obj (
      field "task_id" (str tid) (
        field "receipt_id" (str r.receipt_id) (
          field "verifier_id" (str r.verifier_id) (
            field "evidence_ref" (str r.evidence_ref) (
              field "evidence_sha256" (str r.evidence_sha256)
                (field "verdict" (str r.verdict) end)))))))

-- The conditions on the arguments alone.
abbrev pub is_complete : Receipt → Bool
is_complete r =
    not (is_empty r.receipt_id)
    && not (is_empty r.verifier_id)
    && not (is_empty r.evidence_ref)
    && not (is_empty r.request_integrity)
    && (r.verdict == "ACCEPT")
    && is_hex_text 64 r.evidence_sha256

abbrev pub is_provider : String → Option String → Bool
is_provider v none = false
is_provider v (some p) = v == p

-- The task waits for a verification by somebody other than its provider.
abbrev pub awaits : String → Option CoreTask → Bool
awaits verifier none = false
awaits verifier (some t) =
    status_beq t.status success_claimed && not (is_provider verifier t.result_provider)

abbrev pub confirm : Receipt → ℕ → CoreTask → CoreTask
confirm r now t = record t {
  status = verified;
  verification_note = some (r.verifier_id, r.evidence_ref, r.evidence_sha256);
  updated_at = now;
}

abbrev pub verification_of : String → Receipt → ℕ → Verification
verification_of tid r now = record {
  receipt_id = r.receipt_id;
  task_id = tid;
  verifier_id = r.verifier_id;
  evidence_ref = r.evidence_ref;
  evidence_sha256 = r.evidence_sha256;
  request_integrity = r.request_integrity;
  timestamp = now;
}

-- The writes of `apply_verification_receipt`; a receipt id and a task can be used once only.
unfoldable pub write_verification : Digest → Stamp → String → Receipt → Core → Option (Bool × Core)
write_verification d s tid r c =
    if any (λ v. v.receipt_id == r.receipt_id || v.task_id == tid) c.verifications
    then none
    else with_audit d s "TASK_VERIFICATION_RECEIPT_ACCEPTED"
        (field "task_id" (str tid) (
          field "receipt_id" (str r.receipt_id) (
            field "verifier_id" (str r.verifier_id) (
              field "evidence_ref" (str r.evidence_ref) (
                field "evidence_sha256" (str r.evidence_sha256)
                  (field "request_integrity" (str r.request_integrity) end))))))
        true
        (record c {
          verifications = c.verifications ++ verification_of tid r s.now ∷ [];
          tasks = update_where task_key tid (confirm r s.now) c.tasks;
        })

-- The guards of `apply_verification_receipt`, in their order.
unfoldable pub admits : Trust → Digest → String → Receipt → Core → Bool
admits trust d tid r c =
    is_complete r
    && trust.trusted r.verifier_id
    && trust.signed r.verifier_id (verification_payload d tid r) r.request_integrity
    && awaits r.verifier_id (select task_key tid c.tasks)

-- `apply_verification_receipt`
unfoldable pub apply_verification_receipt :
    Trust → Digest → Stamp → String → Receipt → Core → Bool × Core
apply_verification_receipt trust d s tid r c =
    if admits trust d tid r c then attempt false c (write_verification d s tid r c) else (false, c)
