-- ===== src/Engine/Bridge/Receipts.antt =====
-- The store of receipts: record_receipt of automation/shared_engine/integration_bridge.py.
use multiverse_research.Prelude.{
  ℕ, String, not, none, some, List, [], ◌∷◌, ◌++◌, ◌==◌, nat_eq, string_eq,
}
use multiverse_research.Prelude.Value.{Value, Fields, str, obj}
use multiverse_research.Prelude.Json.{item}
use multiverse_research.Prelude.Table.{select}
use multiverse_research.Engine.States.{bridge_error, Result, ok, ◌>>=◌, ◌>>◌, raise_if}
use multiverse_research.Engine.Bridge.Contract.{Codec, IntegrationBinding, validate_receipt}

pub record ReceiptRow : Type 0 where
  pub operation_key : String
  pub fingerprint : String
  pub receipt_json : String
  pub created_at : ℕ

abbrev pub receipt_id : ReceiptRow → String
receipt_id row = row.operation_key

-- The text in a value that is one; only used behind `is_text`.
abbrev pub text_of : Value → String
text_of (str s) = s
text_of _ = ""

-- The row that a receipt is stored in.
abbrev pub receipt_row : Codec → Fields → ℕ → ReceiptRow
receipt_row codec r now = record {
  operation_key = text_of (item r "operation_key");
  fingerprint = codec.sha256 (codec.dumps (obj r));
  receipt_json = codec.dumps (obj r);
  created_at = now;
}

-- The transaction of `record`: a key that is known answers with what is stored under it.
unfoldable pub record_valid :
    Codec → IntegrationBinding → Fields → ℕ → List ReceiptRow → Result (Fields × List ReceiptRow)
record_valid codec b r now rows = elim (select receipt_id (text_of (item r "operation_key")) rows) [
  | some row ↦ do
    raise_if (not (row.fingerprint == codec.sha256 (codec.dumps (obj r))))
        (bridge_error "CONFLICTING_RECEIPT_REPLAY")
    out ← validate_receipt b (codec.loads row.receipt_json)
    ok (out, rows)
  | none ↦ ok (r, rows ++ receipt_row codec r now ∷ [])
]

-- `DurableReceiptBoundary.record`
unfoldable pub record_receipt :
    Codec → IntegrationBinding → Value → ℕ → List ReceiptRow → Result (Fields × List ReceiptRow)
record_receipt codec b receipt now rows = do
  r ← validate_receipt b receipt
  record_valid codec b r now rows
