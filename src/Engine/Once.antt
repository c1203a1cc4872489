-- ===== src/Engine/Once.antt =====
-- The adapter runs at most once for an operation key.
use multiverse_research.Prelude.{
  ℕ, ◌+◌, ◌≡◌, ◌≢◌, refl, String, Bool, true, false, not, Option, none, some, List, [], ◌∷◌, ◌++◌,
  if◌then◌else◌, ◌==◌, string_eq, arith, sym, ◌∙◌, ap, subst, inl, inr, Option-cases, Bool-cases,
  str_eq_refl, eq_iff, some-inj, not-eq-false, ◌⊎◌,
}
use multiverse_research.Prelude.Value.{Fields, obj}
use multiverse_research.Prelude.Table.{select, select-append_new}
use multiverse_research.Engine.States.{ok, ◌>>=◌, unbind, unguard, ok-inj}
use multiverse_research.Prelude.Canonical.{canonical, sort_keys}
use multiverse_research.Engine.Canonical.{validate_result-obj, validate_result-canonical}
use multiverse_research.Engine.Evidence.{IsSameDict}
use multiverse_research.Engine.Bridge.{Codec}
use multiverse_research.Engine.Provider.{
  Script, ProviderRow, ProviderDb, provider_key, execution_key, validate_result_for_request,
  execute_local_once, provider_row,
}

module _ (codec : Codec) (key : String) (request : Fields) where
  -- A key that is known answers with the stored result, whatever the script says.
  known_answer :
      (script : Script) (now : ℕ) (p : ProviderDb) (row : ProviderRow) {out : Fields}
      → not (not (multiverse_research.Prelude.Text.is_empty key)) ≡ false
      → select provider_key key p.receipts ≡ some row
      → row.request_fingerprint ≡ codec.sha256 (codec.dumps (obj request))
      → validate_result_for_request request (codec.loads row.result_json) ≡ ok out
      → execute_local_once codec key request script now p ≡ ok (out, p)
  unfolding execute_local_once ◌>>=◌
  known_answer script now p row named known same valid =
      ground (arith, (eq_iff row.request_fingerprint (codec.sha256 (codec.dumps (obj request)))).1)

  -- After an execution that succeeded, the same request under the same key gets the same result, as it
  -- was or with its keys sorted, at any later time and with any other script: the adapter does not run
  -- again and nothing is stored. This supposes that `loads` reads what `dumps` writes of the result as
  -- the result with its keys sorted.
  pub execute_local_once_replay :
      (script script' : Script) (now later : ℕ) (p p' : ProviderDb) (out : Fields)
      → codec.loads (codec.dumps (obj out)) ≡ canonical (obj out)
      → execute_local_once codec key request script now p ≡ ok (out, p')
      → (out' : Fields) × (execute_local_once codec key request script' later p' ≡ ok (out', p'))
        × IsSameDict out out'
  unfolding execute_local_once
  execute_local_once_replay script script' now later p p' out round_trip h =
      unguard _ _ _ h λ named h. elim (Option-cases (select provider_key key p.receipts)) [
        | inl fresh ↦ unbind _ _ (rw fresh at h) λ raw ran h. unbind _ _ h λ result valid h.
            elim (Option-cases (select execution_key key p.executions)) [
              | inl first ↦
                  let e = ok-inj (rw first at h) in
                  let row = provider_row codec key request out now in
                  let stored =
                    subst (λ (d : ProviderDb). select provider_key key d.receipts ≡ some row)
                      (ap (λ t. t.1) e)
                      (subst
                        (λ o.
                          select provider_key key
                            (p.receipts ++ provider_row codec key request o now ∷ [])
                          ≡ some row)
                        (sym (ap (λ t. t.0) e))
                        (select-append_new provider_key p.receipts row fresh)) in
                  let valid' : validate_result_for_request request (obj out) ≡ ok out =
                    subst (λ o. validate_result_for_request request o ≡ ok out)
                      (validate_result-obj request raw valid ∙ ap obj (ap (λ t. t.0) e))
                      (valid ∙ ap ok (ap (λ t. t.0) e)) in
                  (
                    sort_keys out,
                    known_answer script' later p' row named stored refl
                        (rw round_trip (validate_result-canonical request (obj out) out valid')),
                    inr refl,
                  )
              | inr (e, again) ↦ cc (rw again at h)
            ]
        | inr (row, known) ↦ unguard _ _ _ (rw known at h) λ same h. unbind _ _ h λ o valid h.
            let e = ok-inj h in
            (
              out,
              subst (λ d. execute_local_once codec key request script' later d ≡ ok (out, d))
                  (ap (λ t. t.1) e)
                  (known_answer script' later p row named known
                    ((eq_iff _ _).0 (not-eq-false _ same)) (valid ∙ ap ok (ap (λ t. t.0) e))),
              inl refl,
            )
      ]
