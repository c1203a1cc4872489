-- ===== src/Engine/Evidence.antt =====
-- The durability of receipts: what the two receipt stores promise about replays and conflicts.
use multiverse_research.Prelude.{
  ℕ, ◌≡◌, ◌≢◌, refl, String, none, some, List, [], ◌∷◌, ◌++◌, string_eq, arith, sym, ◌∙◌, ap, subst,
  inl, inr, Option-cases, eq_iff, not-eq-false, ◌⊎◌,
}
use multiverse_research.Prelude.Value.{Value, Fields, obj}
use multiverse_research.Prelude.Table.{select, select-append, select-append_new}
use multiverse_research.Engine.States.{
  ok, err, bridge_error, ◌>>=◌, unbind, unguard, bound, ok-inj, Result-cases,
}
use multiverse_research.Prelude.Json.{item}
use multiverse_research.Prelude.Canonical.{canonical, sort_keys}
use multiverse_research.Engine.Canonical.{validate_receipt-obj, validate_receipt-canonical}
use multiverse_research.Engine.Bridge.{
  Codec, IntegrationBinding, validate_receipt, ReceiptRow, receipt_id, receipt_row, record_valid,
  record_receipt, text_of,
}

-- An answer is the other one as it stands, or with its keys sorted.
abbrev pub IsSameDict : Fields → Fields → Type 0
IsSameDict out out' = (out' ≡ out) ⊎ (out' ≡ sort_keys out)

-- Recordings of receipts, at whatever times, on one table.
unfoldable pub record_all :
    Codec → IntegrationBinding → List (ℕ × Value) → List ReceiptRow → List ReceiptRow
record_all codec b [] rows = rows
record_all codec b ((now, receipt) ∷ xs) rows =
    record_all codec b xs
      (elim (record_receipt codec b receipt now rows) [ err _ ↦ rows | ok (_, rows') ↦ rows' ])

module _ (codec : Codec) (b : IntegrationBinding) where
  -- A stored row answers every receipt with its key and fingerprint in the same way, and stays.
  record_valid-known :
      (r : Fields) (now : ℕ) (rows : List ReceiptRow) (row : ReceiptRow) {out : Fields}
      → select receipt_id (text_of (item r "operation_key")) rows ≡ some row
      → row.fingerprint ≡ codec.sha256 (codec.dumps (obj r))
      → validate_receipt b (codec.loads row.receipt_json) ≡ ok out
      → record_valid codec b r now rows ≡ ok (out, rows)
  unfolding record_valid ◌>>=◌
  record_valid-known r now rows row known same valid =
      ground (arith, (eq_iff row.fingerprint (codec.sha256 (codec.dumps (obj r)))).1)

  -- A new receipt is stored; a known one leaves the table alone.
  record_valid_cases :
      (r : Fields) (now : ℕ) (rows rows' : List ReceiptRow) (out : Fields)
      → record_valid codec b r now rows ≡ ok (out, rows')
      → ((select receipt_id (text_of (item r "operation_key")) rows ≡ none)
          × (out ≡ r)
          × (rows' ≡ rows ++ receipt_row codec r now ∷ []))
        ⊎ ((row : ReceiptRow) × (select receipt_id (text_of (item r "operation_key")) rows
              ≡ some row)
            × (row.fingerprint ≡ codec.sha256 (codec.dumps (obj r)))
            × (validate_receipt b (codec.loads row.receipt_json) ≡ ok out)
            × (rows' ≡ rows))
  unfolding record_valid
  record_valid_cases r now rows rows' out h =
      elim (Option-cases (select receipt_id (text_of (item r "operation_key")) rows)) [
        | inl e ↦ inl (e, ground arith, ground arith)
        | inr (row, e) ↦ unguard _ _ _ (rw (e, record_valid) at h) λ same h.
            unbind _ _ h λ o valid h. inr (
              row,
              e,
              (eq_iff _ _).0 (not-eq-false _ same),
              valid ∙ ap (λ p. ok p.0) (ok-inj h),
              sym (ap (λ p. p.1) (ok-inj h)),
            )
      ]

  stored_valid :
      (receipt : Value) (r : Fields)
      → validate_receipt b receipt ≡ ok r
      → codec.loads (codec.dumps receipt) ≡ canonical receipt
      → validate_receipt b (codec.loads (codec.dumps (obj r))) ≡ ok (sort_keys r)
  stored_valid receipt r valid round_trip =
      subst (λ v. validate_receipt b (codec.loads (codec.dumps v)) ≡ ok (sort_keys r))
        (validate_receipt-obj b receipt valid)
        (rw round_trip (validate_receipt-canonical b receipt r valid))

  -- A receipt that was recorded is answered with the same dict when it comes again at any later
  -- time, as it was or with its keys sorted, and the second call stores nothing, provided that `loads`
  -- reads what `dumps` writes of the receipt as the receipt with its keys sorted.
  pub record_receipt_replay :
      (receipt : Value) (now later : ℕ) (rows rows' : List ReceiptRow) (out : Fields)
      → codec.loads (codec.dumps receipt) ≡ canonical receipt
      → record_receipt codec b receipt now rows ≡ ok (out, rows')
      → (out' : Fields) × (record_receipt codec b receipt later rows' ≡ ok (out', rows'))
        × IsSameDict out out'
  unfolding record_receipt
  record_receipt_replay receipt now later rows rows' out round_trip h = unbind _ _ h λ r valid h.
      let on = bound (validate_receipt b receipt) _ valid in
      elim (record_valid_cases r now rows rows' out h) [
        | inl (fresh, same, grown) ↦ (
          sort_keys r,
          on
              ∙ rw grown (
                  record_valid-known r later (rows ++ receipt_row codec r now ∷ [])
                    (receipt_row codec r now)
                    (select-append_new receipt_id rows (receipt_row codec r now) fresh) refl
                    (stored_valid receipt r valid round_trip)),
          inr (ap sort_keys (sym same)),
        )
        | inr (row, known, print, reads, same) ↦
            (out, on ∙ rw same (record_valid-known r later rows row known print reads), inl refl)
      ]

  -- No call ever changes or drops a receipt that is stored.
  pub record_receipt_immutable :
      (receipt : Value) (now : ℕ) (rows rows' : List ReceiptRow) (out : Fields) (key : String)
      (row : ReceiptRow)
      → record_receipt codec b receipt now rows ≡ ok (out, rows')
      → select receipt_id key rows ≡ some row
      → select receipt_id key rows' ≡ some row
  unfolding record_receipt
  record_receipt_immutable receipt now rows rows' out key row h stored = unbind _ _ h λ r valid h.
      elim (record_valid_cases r now rows rows' out h) [
        | inl (fresh, same, grown) ↦ rw (grown, select-append receipt_id key rows _, stored) refl
        | inr (known_row, known, print, reads, same) ↦ rw same stored
      ]

  record_all-keeps :
      (xs : List (ℕ × Value)) (rows : List ReceiptRow) (key : String) (row : ReceiptRow)
      → select receipt_id key rows ≡ some row
      → select receipt_id key (record_all codec b xs rows) ≡ some row
  unfolding record_all
  record_all-keeps [] rows key row h = h
  record_all-keeps ((now, receipt) ∷ xs) rows key row h =
      elim (Result-cases (record_receipt codec b receipt now rows)) [
        | inl (e, failed) ↦ rw failed (record_all-keeps xs rows key row h)
        | inr ((out, rows'), stored) ↦ rw stored (
            record_all-keeps xs rows' key row
              (record_receipt_immutable receipt now rows rows' out key row stored h))
      ]

  record_valid-refuses :
      (r : Fields) (now : ℕ) (rows : List ReceiptRow) (row : ReceiptRow)
      → select receipt_id (text_of (item r "operation_key")) rows ≡ some row
      → row.fingerprint ≢ codec.sha256 (codec.dumps (obj r))
      → record_valid codec b r now rows ≡ err (bridge_error "CONFLICTING_RECEIPT_REPLAY")
  unfolding record_valid ◌>>=◌
  record_valid-refuses r now rows row known other =
      ground (arith, (eq_iff row.fingerprint (codec.sha256 (codec.dumps (obj r)))).0)

  -- What a recorded receipt leaves under its key: its own fingerprint.
  record_valid-row :
      (r : Fields) (now : ℕ) (rows rows' : List ReceiptRow) (out : Fields)
      → record_valid codec b r now rows ≡ ok (out, rows')
      → (row : ReceiptRow) × (select receipt_id (text_of (item r "operation_key")) rows' ≡ some row)
        × (row.fingerprint ≡ codec.sha256 (codec.dumps (obj r)))
  record_valid-row r now rows rows' out h = elim (record_valid_cases r now rows rows' out h) [
    | inl (fresh, same, grown) ↦ (
      receipt_row codec r now,
      rw grown (select-append_new receipt_id rows (receipt_row codec r now) fresh),
      refl,
    )
    | inr (row, known, print, reads, same) ↦ (row, rw same known, print)
  ]

  -- Once a receipt was recorded, a valid receipt under the same key whose text has another
  -- fingerprint is refused, whatever receipts were recorded or refused in between and at any time.
  pub record_receipt_conflict :
      (receipt other : Value) (now later : ℕ) (rows rows' : List ReceiptRow) (out r s : Fields)
      (xs : List (ℕ × Value))
      → record_receipt codec b receipt now rows ≡ ok (out, rows')
      → validate_receipt b receipt ≡ ok r
      → validate_receipt b other ≡ ok s
      → item s "operation_key" ≡ item r "operation_key"
      → codec.sha256 (codec.dumps (obj s)) ≢ codec.sha256 (codec.dumps (obj r))
      → record_receipt codec b other later (record_all codec b xs rows')
        ≡ err (bridge_error "CONFLICTING_RECEIPT_REPLAY")
  unfolding record_receipt
  record_receipt_conflict receipt other now later rows rows' out r s xs h valid valid' alike
        differ =
      let stored : record_valid codec b r now rows ≡ ok (out, rows') =
        sym (bound (validate_receipt b receipt) _ valid) ∙ h in
      let (row, at, print) = record_valid-row r now rows rows' out stored in
      let kept = record_all-keeps xs rows' _ row at in
      bound (validate_receipt b other) _ valid'
      ∙ record_valid-refuses s later (record_all codec b xs rows') row
          (subst (λ k. select receipt_id (text_of k) (record_all codec b xs rows') ≡ some row)
            (sym alike) kept)
          (λ same. differ (sym same ∙ print))
