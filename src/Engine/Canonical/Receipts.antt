-- ===== src/Engine/Canonical/Receipts.antt =====
-- -- The validation of receipts does not look at the order of keys.
use multiverse_research.Prelude.{◌≡◌, refl, sym, ◌∙◌, not, string_eq, ap, subst}
use multiverse_research.Prelude.Value.{Value, Fields, obj}
use multiverse_research.Prelude.Canonical.{canonical, sort_keys, shape-sort_keys}
use multiverse_research.Prelude.Json.{item}
use multiverse_research.Engine.States.{bridge_error, ok, unbind, unguard, bound, ok-inj}
use multiverse_research.Engine.Bridge.{
  IntegrationBinding, Role, implement, lab, audit, authority, receipt_keys, role_of, or_shape_error,
  or_shape_error-eq-ok, validate_binding, check_bound, validate_result, validate_receipt,
}
use multiverse_research.Engine.Canonical.Items.{
  is_string-item, is_text-item, is_str-item, is_count-item, is_zero-item, equals-item, role_of-item,
  or_shape_error-item, guarded,
}

check_bound-sort_keys :
    (b : IntegrationBinding) (r : Fields) → check_bound b (sort_keys r) ≡ check_bound b r
unfolding check_bound
check_bound-sort_keys b r =
    rw
      (
        is_string-item r "candidate_branch" b.candidate_branch,
        is_string-item r "candidate_head" b.candidate_head,
        is_string-item r "canonical_main" b.canonical_main,
        is_string-item r "provider_adapter_head" b.provider_adapter_head,
        equals-item r "authority" (obj authority),
      )
      refl

validate_result-sort_keys :
    (b : IntegrationBinding) (role : Role) (d : Fields)
    → validate_result b role (sort_keys d) ≡ validate_result b role d
unfolding validate_result
validate_result-sort_keys b implement d =
    rw
      (
        is_string-item d "status" "READY",
        is_string-item d "candidate_head" b.candidate_head,
        is_count-item d "diff_lines",
        is_zero-item d "cost_microusd",
      )
      refl
validate_result-sort_keys b lab d =
    rw
      (
        is_string-item d "reviewed_head" b.candidate_head,
        is_string-item d "verdict" "PASS",
        is_string-item d "verdict" "FIX_REQUIRED",
        is_text-item d "code",
        is_str-item d "detail",
      )
      refl
validate_result-sort_keys b audit d =
    rw
      (
        is_string-item d "reviewed_head" b.candidate_head,
        is_string-item d "verdict" "PASS",
        is_string-item d "verdict" "FIX_REQUIRED",
        is_text-item d "code",
        is_str-item d "detail",
      )
      refl

validate_receipt-sort_keys :
    (b : IntegrationBinding) (d r : Fields)
    → validate_receipt b (obj d) ≡ ok r
    → validate_receipt b (obj (sort_keys d)) ≡ ok (sort_keys r)
unfolding validate_receipt
validate_receipt-sort_keys b d r h = unbind _ _ h λ _ bind h. unbind _ _ h λ c shape h.
    let same : c ≡ d = sym (ok-inj shape) in
    unguard _ _ _ h λ keys h. unbind _ _ h λ role named h. unguard _ _ _ h λ key h.
      unguard _ _ _ h λ task h. unguard _ _ _ h λ count h. unguard _ _ _ h λ evidence h.
        unbind _ _ h λ _ bound_ h. unbind _ _ h λ result answer h. unbind _ _ h λ _ good h.
          subst (λ x. validate_receipt b (obj (sort_keys x)) ≡ ok (sort_keys r)) same
            (bound (validate_binding b) _ bind
              ∙ (bound (or_shape_error (obj (sort_keys c)) (bridge_error "RECEIPT_SHAPE")) _ refl
                  ∙ (guarded _ _ _ (ap not (shape-sort_keys c 11 receipt_keys) ∙ keys)
                      ∙ (bound (role_of (item (sort_keys c) "role")) _
                            (role_of-item c "role" ∙ named)
                          ∙ (guarded _ _ _ (ap not (is_text-item c "operation_key") ∙ key)
                              ∙ (guarded _ _ _ (ap not (is_text-item c "task_id") ∙ task)
                                  ∙ (guarded _ _ _
                                        (ap not (is_count-item c "semantic_generation") ∙ count)
                                      ∙ (guarded _ _ _
                                            (ap not (is_text-item c "evidence_ref") ∙ evidence)
                                          ∙ (bound (check_bound b (sort_keys c)) _
                                                (check_bound-sort_keys b c ∙ bound_)
                                              ∙ (bound
                                                    (or_shape_error (item (sort_keys c) "result") _)
                                                    _
                                                    (or_shape_error-item c "result" _ result answer)
                                                  ∙ (bound
                                                        (validate_result b role (sort_keys result))
                                                        _
                                                        (validate_result-sort_keys b role result
                                                          ∙ good)
                                                      ∙ ap (λ x. ok (sort_keys x))
                                                          (ok-inj h))))))))))))

-- What passes validation is the value itself, read as a dict.
pub validate_receipt-obj :
    (b : IntegrationBinding) (v : Value) {r : Fields} → validate_receipt b v ≡ ok r → v ≡ obj r
unfolding validate_receipt
validate_receipt-obj b v {r} h = unbind _ _ h λ _ _ h. unbind _ _ h λ d shape h.
    unguard _ _ _ h λ _ h. unbind _ _ h λ _ _ h. unguard _ _ _ h λ _ h. unguard _ _ _ h λ _ h.
      unguard _ _ _ h λ _ h. unguard _ _ _ h λ _ h. unbind _ _ h λ _ _ h.
        unbind _ _ h
          λ _ _ h. unbind _ _ h λ _ _ h. or_shape_error-eq-ok v _ shape ∙ ap obj (ok-inj h)

-- The canonical form of a valid receipt is valid.
pub validate_receipt-canonical :
    (b : IntegrationBinding) (v : Value) (r : Fields)
    → validate_receipt b v ≡ ok r
    → validate_receipt b (canonical v) ≡ ok (sort_keys r)
unfolding canonical
validate_receipt-canonical b v r h =
    let same = validate_receipt-obj b v h in
    subst (λ x. validate_receipt b (canonical x) ≡ ok (sort_keys r)) (sym same)
      (validate_receipt-sort_keys b r r (subst (λ x. validate_receipt b x ≡ ok r) same h))
