-- ===== src/Research/Backing.antt =====
-- What backs the findings that the aggregation keeps (automation/multimodel_research_v1).
use multiverse_research.Prelude.{
  ◌≡◌, sym, ap, ◌∙◌, subst, String, List, [], ◌∷◌, string_eq, inl, inr, IsIn,
}
use multiverse_research.Prelude.Value.{Value, Items, Fields, nil, cons}
use multiverse_research.Prelude.Json.{item, items_in, fields_in}
use multiverse_research.Prelude.Checked.{passed, unbind, required, passed-inj, IsItem}
use multiverse_research.Research.Contract.{Library}
use multiverse_research.Research.Result.{validate_result_for_task}
use multiverse_research.Research.Evidence.{IsGrounded, finding_is_backed}
use multiverse_research.Research.Aggregate.{Entry, text_at, collect, identities}
use multiverse_research.Research.Report.{gather}
use multiverse_research.Research.Unique.{unify_all-entries}

-- Each entry is a result that was validated for the task.
collect-valid :
    (lib : Library) (task : Value) (seen : List String) (results : Items) (es : List Entry)
    (e : Entry)
    → collect lib task seen results ≡ passed es
    → IsIn e es
    → (v : Value) × (validate_result_for_task lib task v ≡ passed e.result)
unfolding collect
collect-valid lib task seen nil es e h among = elim (subst (IsIn e) (sym (passed-inj h)) among) [ ]
collect-valid lib task seen (cons v xs) es e h among = unbind _ _ h λ r valid h.
    required _ _ _ h λ _ h. unbind _ _ h λ digest _ h. unbind _ _ h λ rest more h.
      elim (subst (IsIn e) (sym (passed-inj h)) among) [
        | inl here ↦ (v, valid ∙ ap (λ x. passed x.result) (sym here))
        | inr later ↦ collect-valid lib task (text_at "submission_id" r ∷ seen) xs rest e more later
      ]

-- Each finding of a result that the aggregation keeps is backed by the task: by an allowed primitive,
-- by its manifest if it has one, and by its sources where the evidence names one.
pub kept_findings_are_backed :
    (lib : Library) (task : Value) (results : Items) (validated unique : List Entry)
    (duplicates : List Fields) (u : Entry) (finding : Value)
    → gather lib task results ≡ passed (validated, unique, duplicates)
    → IsIn u unique
    → IsItem finding (items_in (item u.result "findings"))
    → IsGrounded (fields_in task) (fields_in (item (fields_in finding) "evidence"))
unfolding gather
kept_findings_are_backed lib task results validated unique duplicates u finding h kept among =
    unbind _ _ h λ entries collected h. unbind _ _ h λ unified own h.
      let inside =
        unify_all-entries entries (identities entries) unified u own
          (subst (λ x. IsIn u x.1) (sym (passed-inj h)) kept) in
      let (v, valid) = collect-valid lib task [] results entries u collected inside in
      finding_is_backed lib task v u.result finding valid among
