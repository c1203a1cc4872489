-- ===== src/Engine/BridgeTests.antt =====
-- The receipts of the bridge at concrete inputs.
use multiverse_research.Prelude.{
  ◌≡◌, ◌≢◌, refl, String, false, none, some, List, [], ◌∷◌, ◌==◌, string_eq, if◌then◌else◌,
}
use multiverse_research.Prelude.Int.{pos}
use multiverse_research.Prelude.Value.{Value, Fields, int, str, null, obj, end, field, equals}
use multiverse_research.Prelude.Canonical.{canonical}
use multiverse_research.Prelude.Text.{is_blank, is_hex_text, has_prefix}
use multiverse_research.Prelude.Table.{select}
use multiverse_research.Engine.States.{
  in_audit, done, ◌>>=◌, validated_worker_id, validated_generation, ok, err, bridge_error,
}
use multiverse_research.Engine.Store.{Task, Db, row_id, transition, write_transition, check_fence}
use multiverse_research.Prelude.Json.{item}
use multiverse_research.Engine.Bridge.{
  receipt_change, Codec, IntegrationBinding, audit, authority, is_fix, role_of, validate_binding,
  validate_receipt, validate_result, check_bound, ReceiptRow, receipt_id, receipt_row,
  record_receipt, record_valid, apply_receipt,
}
use multiverse_research.Engine.Evidence.{
  IsSameDict, record_all, record_receipt_replay, record_receipt_immutable, record_receipt_conflict,
}
use multiverse_research.Engine.Gate.{done_needs_audit_pass}
use multiverse_research.Engine.Tests.{started_row}

abbrev pub sha : String
sha = "0123456789012345678901234567890123456789"

abbrev pub binding : IntegrationBinding
binding = record {
  canonical_main = sha;
  candidate_branch = "agent/one";
  candidate_head = sha;
  provider_adapter_head = sha;
}

-- An audit that passes, by the text of its evidence.
abbrev pub audit_receipt : String → Fields
audit_receipt evidence = field "operation_key" (str "k") (
    field "task_id" (str "t") (
      field "role" (str "AUDIT") (
        field "semantic_generation" (int (pos 0)) (
          field "candidate_branch" (str "agent/one") (
            field "candidate_head" (str sha) (
              field "canonical_main" (str sha) (
                field "provider_adapter_head" (str sha) (
                  field "evidence_ref" (str evidence) (
                    field "result"
                      (obj (field "verdict" (str "PASS") (field "reviewed_head" (str sha) end)))
                      (field "authority" (obj authority) end))))))))))

-- A codec that knows one value, which it reads back with its keys sorted.
abbrev pub codec_of : Value → Codec
codec_of v = record {
  dumps = λ u. if equals u v then "the value" else "another value";
  loads = λ s. if s == "the value" then canonical v else null;
  sha256 = λ s. s;
}

abbrev receipts : List ReceiptRow
receipts = receipt_row (codec_of (obj (audit_receipt "e"))) (audit_receipt "e") 7 ∷ []

audit_receipt-valid : validate_receipt binding (obj (audit_receipt "e")) ≡ ok (audit_receipt "e")
unfolding validate_receipt validate_binding validate_result check_bound role_of is_hex_text
    has_prefix equals ◌>>=◌
audit_receipt-valid = refl

audit_receipt-recorded :
    record_receipt (codec_of (obj (audit_receipt "e"))) binding (obj (audit_receipt "e")) 7 []
    ≡ ok (audit_receipt "e", receipts)
unfolding record_receipt record_valid validate_receipt validate_binding validate_result check_bound
    role_of is_hex_text has_prefix equals ◌>>=◌ select
audit_receipt-recorded = refl

audit_receipt-read_back :
    (codec_of (obj (audit_receipt "e"))).loads
      ((codec_of (obj (audit_receipt "e"))).dumps (obj (audit_receipt "e")))
    ≡ canonical (obj (audit_receipt "e"))
unfolding equals
audit_receipt-read_back = refl

record_receipt_replay_example :
    (out' : Fields) × (record_receipt
        (codec_of (obj (audit_receipt "e")))
        binding
        (obj (audit_receipt "e"))
        9
        receipts
      ≡ ok (out', receipts))
    × IsSameDict (audit_receipt "e") out'
record_receipt_replay_example =
    record_receipt_replay (codec_of (obj (audit_receipt "e"))) binding (obj (audit_receipt "e")) 7 9
      [] receipts (audit_receipt "e") audit_receipt-read_back audit_receipt-recorded

abbrev other_row : ReceiptRow
other_row = record { operation_key = "j"; fingerprint = "f"; receipt_json = "r"; created_at = 1 }

other_receipt-recorded :
    record_receipt
      (codec_of (obj (audit_receipt "e")))
      binding
      (obj (audit_receipt "e"))
      7
      (other_row ∷ [])
    ≡ ok (audit_receipt "e", other_row ∷ receipts)
unfolding record_receipt record_valid validate_receipt validate_binding validate_result check_bound
    role_of is_hex_text has_prefix equals ◌>>=◌ select
other_receipt-recorded = refl

other_row-stored : select receipt_id "j" (other_row ∷ []) ≡ some other_row
unfolding select
other_row-stored = refl

record_receipt_immutable_example : select receipt_id "j" (other_row ∷ receipts) ≡ some other_row
record_receipt_immutable_example =
    record_receipt_immutable (codec_of (obj (audit_receipt "e"))) binding (obj (audit_receipt "e"))
      7 (other_row ∷ []) (other_row ∷ receipts) (audit_receipt "e") "j" other_row
      other_receipt-recorded other_row-stored

changed_receipt-valid : validate_receipt binding (obj (audit_receipt "f")) ≡ ok (audit_receipt "f")
unfolding validate_receipt validate_binding validate_result check_bound role_of is_hex_text
    has_prefix equals ◌>>=◌
changed_receipt-valid = refl

changed_receipt-differs :
    (codec_of (obj (audit_receipt "e"))).dumps (obj (audit_receipt "f"))
    ≢ (codec_of (obj (audit_receipt "e"))).dumps (obj (audit_receipt "e"))
unfolding equals
changed_receipt-differs h = cc

record_receipt_conflict_example :
    record_receipt (codec_of (obj (audit_receipt "e"))) binding (obj (audit_receipt "f")) 9 (
      record_all
        (codec_of (obj (audit_receipt "e")))
        binding
        ((8, obj (audit_receipt "g")) ∷ [])
        receipts)
    ≡ err (bridge_error "CONFLICTING_RECEIPT_REPLAY")
record_receipt_conflict_example =
    record_receipt_conflict (codec_of (obj (audit_receipt "e"))) binding (obj (audit_receipt "e"))
      (obj (audit_receipt "f")) 7 9 [] receipts (audit_receipt "e") (audit_receipt "e")
      (audit_receipt "f") ((8, obj (audit_receipt "g")) ∷ []) audit_receipt-recorded
      audit_receipt-valid changed_receipt-valid refl changed_receipt-differs

-- The store with the task in audit.
abbrev audit_row : Task
audit_row = record started_row { state = in_audit }

abbrev audit_db : Db
audit_db = record { tasks = audit_row ∷ []; events = [] }

abbrev pub audit_result : Fields
audit_result = field "verdict" (str "PASS") (field "reviewed_head" (str sha) end)

abbrev done_db : Db
done_db =
    write_transition audit_row done
      (receipt_change binding (audit_receipt "e") audit_result audit false (str "w1") (int (pos 1)))
      "w1" 5000000 audit_db

done-applied :
    apply_receipt "t" (obj (audit_receipt "e")) binding (str "w1") (int (pos 1)) 5000000 audit_db
    ≡ ok (done, done_db)
unfolding apply_receipt validate_receipt validate_binding validate_result check_bound role_of
    is_hex_text has_prefix equals ◌>>=◌ select transition check_fence validated_worker_id
    validated_generation is_blank
done-applied = refl

done_needs_audit_pass_example :
    (r : Fields) × (result : Fields) × (t t' : Task) × (validate_receipt binding
        (obj (audit_receipt "e"))
      ≡ ok r)
    × (role_of (item r "role") ≡ ok audit)
    × (item r "result" ≡ obj result)
    × (is_fix result ≡ false)
    × (select row_id "t" audit_db.tasks ≡ some t)
    × (t.state ≡ in_audit)
    × (select row_id "t" done_db.tasks ≡ some t')
    × (t'.state ≡ done)
    × (t'.claimed_by ≡ none)
done_needs_audit_pass_example =
    done_needs_audit_pass "t" (obj (audit_receipt "e")) binding (str "w1") (int (pos 1)) 5000000
      audit_db done_db done-applied
