-- ===== src/Engine/Canonical/Results.antt =====
-- -- The validation of a provider's results does not look at the order of keys.
use multiverse_research.Prelude.{
  ◌≡◌, refl, sym, ◌∙◌, String, true, false, not, ◌||◌, List, [], ◌∷◌, inl, inr, Bool-cases,
  string_eq, ap, subst, Bool, if◌then◌else◌,
}
use multiverse_research.Prelude.Value.{Value, Fields, obj}
use multiverse_research.Prelude.Canonical.{canonical, sort_keys, has_keys-sort_keys}
use multiverse_research.Prelude.Json.{item, is_string}
use multiverse_research.Engine.States.{
  orchestrator_error, Result, ok, unbind, unguard, bound, ok-inj,
}
use multiverse_research.Engine.Bridge.{is_fix, or_shape_error, or_shape_error-eq-ok}
use multiverse_research.Engine.Provider.{validate_result_for_request}
use multiverse_research.Engine.Canonical.Items.{
  is_string-item, is_text-item, is_str-item, is_count-item, is_zero-item, equals-item, guarded,
}

-- What passes validation is the value itself, read as a dict.
pub validate_result-obj :
    (request : Fields) (v : Value) {r : Fields}
    → validate_result_for_request request v ≡ ok r
    → v ≡ obj r
unfolding validate_result_for_request
validate_result-obj request v {r} h = unbind _ _ h λ d shape h. unguard _ _ _ h λ _ h.
    elim (Bool-cases (is_string (item request "role") "IMPLEMENT")) [
      | inl made ↦ unguard _ _ _ (rw made at h) λ _ h. unguard _ _ _ h λ _ h. unguard _ _ _ h λ _ h.
          unguard _ _ _ h
            λ _ h. unguard _ _ _ h λ _ h. or_shape_error-eq-ok v _ shape ∙ ap obj (ok-inj h)
      | inr review ↦ unguard _ _ _ (rw review at h) λ _ h. unguard _ _ _ h λ _ h.
          unguard _ _ _ h λ _ h. unguard _ _ _ h λ _ h.
            unguard _ _ _ h
              λ _ h. unguard _ _ _ h λ _ h. or_shape_error-eq-ok v _ shape ∙ ap obj (ok-inj h)
    ]

taken {κ} : {B : Type κ} (c : Bool) (x y : Result B) → c ≡ true → (if c then x else y) ≡ x
taken c x y h = rw h refl

passed_over {κ} : {B : Type κ} (c : Bool) (x y : Result B) → c ≡ false → (if c then x else y) ≡ y
passed_over c x y h = rw h refl

is_fix-sort_keys : (d : Fields) → is_fix (sort_keys d) ≡ is_fix d
is_fix-sort_keys d = is_string-item d "verdict" "FIX_REQUIRED"

both_or : {a b c d : Bool} → a ≡ b → c ≡ d → not (a || c) ≡ not (b || d)
both_or h k = rw (h, k) refl

neither_or : {a b c d : Bool} → a ≡ b → c ≡ d → not (not a || c) ≡ not (not b || d)
neither_or h k = rw (h, k) refl

abbrev implement_keys : List String
implement_keys = "status" ∷ "candidate_head" ∷ "diff_lines" ∷ "cost_microusd" ∷ "evidence_ref" ∷ []

abbrev review_keys : List String
review_keys = "verdict" ∷ "reviewed_head" ∷ "evidence_ref" ∷ []

validate_result-request :
    (request d r : Fields)
    → validate_result_for_request request (obj d) ≡ ok r
    → validate_result_for_request request (obj (sort_keys d)) ≡ ok (sort_keys r)
unfolding validate_result_for_request
validate_result-request request d r h = unbind _ _ h λ c shape h.
    let same : c ≡ d = sym (ok-inj shape) in
    unguard _ _ _ h λ evidence h.
      subst (λ x. validate_result_for_request request (obj (sort_keys x)) ≡ ok (sort_keys r)) same
        (bound
            (or_shape_error (obj (sort_keys c))
              (orchestrator_error "PROVIDER_ADAPTER_RESULT_SHAPE"))
            _ refl
          ∙ (guarded _ _ _ (ap not (is_text-item c "evidence_ref") ∙ evidence)
              ∙ (elim (Bool-cases (is_string (item request "role") "IMPLEMENT")) [
                | inl made ↦ unguard _ _ _ (rw made at h) λ keys h. unguard _ _ _ h λ head h.
                    unguard _ _ _ h λ status h. unguard _ _ _ h λ lines h. unguard _ _ _ h λ cost h.
                      taken _ _ _ made
                      ∙ (guarded _ (orchestrator_error "PROVIDER_ADAPTER_IMPLEMENT_SCHEMA") _
                            (ap not (has_keys-sort_keys c implement_keys) ∙ keys)
                          ∙ (guarded _ _ _ (ap not (equals-item c "candidate_head" _) ∙ head)
                              ∙ (guarded _ _ _ (ap not (is_string-item c "status" "READY") ∙ status)
                                  ∙ (guarded _ _ _ (ap not (is_count-item c "diff_lines") ∙ lines)
                                      ∙ (guarded _ _ _
                                            (ap not (is_zero-item c "cost_microusd") ∙ cost)
                                          ∙ ap (λ x. ok (sort_keys x)) (ok-inj h))))))
                | inr review ↦ unguard _ _ _ (rw review at h) λ role h. unguard _ _ _ h λ keys h.
                    unguard _ _ _ h λ head h. unguard _ _ _ h λ verdict h. unguard _ _ _ h λ code h.
                      unguard _ _ _ h λ detail h.
                        passed_over _ _ _ review
                        ∙ (guarded _ _ _ role
                            ∙ (guarded _ (orchestrator_error "PROVIDER_ADAPTER_SCHEMA") _
                                  (ap not (has_keys-sort_keys c review_keys) ∙ keys)
                                ∙ (guarded _ _ _ (ap not (equals-item c "reviewed_head" _) ∙ head)
                                    ∙ (guarded _ _ _ (
                                          both_or (is_string-item c "verdict" "PASS")
                                            (is_fix-sort_keys c)
                                          ∙ verdict)
                                        ∙ (guarded _ _ _ (
                                              neither_or (is_fix-sort_keys c)
                                                (is_text-item c "code")
                                              ∙ code)
                                            ∙ (guarded _ _ _ (
                                                  neither_or (is_fix-sort_keys c)
                                                    (is_str-item c "detail")
                                                  ∙ detail)
                                                ∙ ap (λ x. ok (sort_keys x)) (ok-inj h)))))))
              ])))

-- The canonical form of a valid result is valid.
pub validate_result-canonical :
    (request : Fields) (v : Value) (r : Fields)
    → validate_result_for_request request v ≡ ok r
    → validate_result_for_request request (canonical v) ≡ ok (sort_keys r)
unfolding canonical
validate_result-canonical request v r h =
    let same = validate_result-obj request v h in
    subst (λ x. validate_result_for_request request (canonical x) ≡ ok (sort_keys r)) (sym same)
      (validate_result-request request r r
        (subst (λ x. validate_result_for_request request x ≡ ok r) same h))
