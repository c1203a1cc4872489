-- ===== src/Research/Unique.antt =====
-- The items that the aggregation keeps, one for each identity
-- (automation/multimodel_research_v1/aggregator.py).
use multiverse_research.Prelude.{
  ◌≡◌, sym, ◌∙◌, subst, String, List, [], ◌∷◌, ◌==◌, string_eq, inl, inr, IsIn, map, refl,
}
use multiverse_research.Prelude.Value.{Value, Items, Fields}
use multiverse_research.Prelude.Checked.{passed, unbind, passed-inj}
use multiverse_research.Prelude.Order.{list_eq, list_beq_iff}
use multiverse_research.Prelude.Members.{
  append-IsIn, IsIn-append_left, IsIn-append_right, IsIn-map, map-IsIn, IsIn-filterb, IsIn-sort_by,
  IsIn-distinct, NoRepeat, distinct-NoRepeat, sort_by-NoRepeat,
}
use multiverse_research.Research.Contract.{Library}
use multiverse_research.Research.Aggregate.{Entry, identity_key, group, unify_all, identities}
use multiverse_research.Research.Report.{gather}
use multiverse_research.Research.Groups.{
  StandsFor, unify-represents, unify-IsIn, unify-single, in_order, same_identity,
}

module _ (entries : List Entry) where
  unify_all-represents :
      (ids : List (List String)) (r : List Entry × List Fields) (e : Entry)
      → unify_all ids entries ≡ passed r
      → IsIn (identity_key e.result) ids
      → IsIn e entries
      → (u : Entry) × IsIn u r.0 × IsIn u entries × StandsFor u e
  unfolding unify_all group
  unify_all-represents [] r e h listed among = elim listed [ ]
  unify_all-represents (i ∷ ids) r e h (inl here) among = unbind _ _ h λ first own h.
      unbind _ _ h λ rest _ h.
        let e_in : IsIn e (in_order (group i entries)) = IsIn-sort_by _ e (group i entries) (
          IsIn-filterb (λ x. identity_key x.result == i) e entries
            ((list_beq_iff (identity_key e.result) i).1 here) among) in
        let (u, kept, inside, same) =
          unify-represents (in_order (group i entries)) first e own e_in in
        let (found, fits) = same_identity i entries u inside in
        (
          u,
          subst (λ x. IsIn u x.0) (passed-inj h) (IsIn-append_left u first.0 rest.0 kept),
          found,
          (fits ∙ sym here, same),
        )
  unify_all-represents (i ∷ ids) r e h (inr later) among = unbind _ _ h λ first _ h.
      unbind _ _ h λ rest more h.
        let (u, kept, found, stands) = unify_all-represents ids rest e more later among in
        (
          u,
          subst (λ x. IsIn u x.0) (passed-inj h) (IsIn-append_right u first.0 rest.0 kept),
          found,
          stands,
        )

  -- Where a kept item comes from.
  unify_all-IsIn :
      (ids : List (List String)) (r : List Entry × List Fields) (u : Entry)
      → unify_all ids entries ≡ passed r
      → IsIn u r.0
      → IsIn (identity_key u.result) ids
  unfolding unify_all
  unify_all-IsIn [] r u h kept = subst (λ x. IsIn u x.0) (sym (passed-inj h)) kept
  unify_all-IsIn (i ∷ ids) r u h kept = unbind _ _ h λ first own h. unbind _ _ h λ rest more h.
      elim (append-IsIn u first.0 rest.0 (subst (λ x. IsIn u x.0) (sym (passed-inj h)) kept)) [
        | inl front ↦ inl (same_identity i entries u (unify-IsIn _ first u own front)).1
        | inr back ↦ inr (unify_all-IsIn ids rest u more back)
      ]

  pub unify_all-entries :
      (ids : List (List String)) (r : List Entry × List Fields) (u : Entry)
      → unify_all ids entries ≡ passed r
      → IsIn u r.0
      → IsIn u entries
  unfolding unify_all
  unify_all-entries [] r u h kept = elim (subst (λ x. IsIn u x.0) (sym (passed-inj h)) kept) [ ]
  unify_all-entries (i ∷ ids) r u h kept = unbind _ _ h λ first own h. unbind _ _ h λ rest more h.
      elim (append-IsIn u first.0 rest.0 (subst (λ x. IsIn u x.0) (sym (passed-inj h)) kept)) [
        | inl front ↦ (same_identity i entries u (unify-IsIn _ first u own front)).0
        | inr back ↦ unify_all-entries ids rest u more back
      ]

  unify_all-single :
      (ids : List (List String)) (r : List Entry × List Fields)
      → NoRepeat ids
      → unify_all ids entries ≡ passed r
      → NoRepeat (map (λ u. identity_key u.result) r.0)
  unfolding unify_all
  unify_all-single [] r once h =
      subst (λ (x : List Entry × List Fields). NoRepeat (map (λ u. identity_key u.result) x.0))
        (passed-inj h) tt
  unify_all-single (i ∷ ids) r once h = unbind _ _ h λ first own h. unbind _ _ h λ rest more h.
      let later = unify_all-single ids rest once.1 more in
      subst (λ (x : List Entry × List Fields). NoRepeat (map (λ u. identity_key u.result) x.0))
        (passed-inj h)
        (elim (unify-single _ first own) [
          | inl empty ↦ rw empty later
          | inr (u, alone) ↦ rw alone (
            (λ among.
                let (w, in_w, same) = map-IsIn (λ x. identity_key x.result) _ rest.0 among in
                let front : IsIn u first.0 = rw alone (inl refl) in
                let here = (same_identity i entries u (unify-IsIn _ first u own front)).1 in
                once.0
                  (subst (λ x. IsIn x ids) (same ∙ here) (unify_all-IsIn ids rest w more in_w))),
            later,
          )
        ])

identities-IsIn :
    (entries : List Entry) (e : Entry)
    → IsIn e entries
    → IsIn (identity_key e.result) (identities entries)
unfolding identities
identities-IsIn entries e among =
    IsIn-sort_by _ _ _ (IsIn-distinct _ _ (IsIn-map (λ x. identity_key x.result) e entries among))

identities-NoRepeat : (entries : List Entry) → NoRepeat (identities entries)
unfolding identities
identities-NoRepeat entries = sort_by-NoRepeat _ _ (distinct-NoRepeat _)

-- Every result that the aggregation validates is represented by a validated result that is kept,
-- with the same provider, model and role and the same content.
pub result_is_represented :
    (lib : Library) (task : Value) (results : Items) (validated unique : List Entry)
    (duplicates : List Fields) (e : Entry)
    → gather lib task results ≡ passed (validated, unique, duplicates)
    → IsIn e validated
    → (u : Entry) × IsIn u unique × IsIn u validated × StandsFor u e
unfolding gather
result_is_represented lib task results validated unique duplicates e h among =
    unbind _ _ h λ entries _ h. unbind _ _ h λ unified own h.
      let same = passed-inj h in
      let among' : IsIn e entries = subst (λ x. IsIn e x.0) (sym same) among in
      let (u, kept, found, stands) =
        unify_all-represents entries (identities entries) unified e own
          (identities-IsIn entries e among') among' in
      (u, subst (λ x. IsIn u x.1) same kept, subst (λ x. IsIn u x.0) same found, stands)

-- No two of the results that are kept, at whatever places, have the same provider, model and role.
pub one_item_per_identity :
    (lib : Library) (task : Value) (results : Items) (validated unique : List Entry)
    (duplicates : List Fields)
    → gather lib task results ≡ passed (validated, unique, duplicates)
    → NoRepeat (map (λ u. identity_key u.result) unique)
unfolding gather
one_item_per_identity lib task results validated unique duplicates h = unbind _ _ h λ entries _ h.
    unbind _ _ h λ unified own h.
      subst
        (λ (x : List Entry × List Entry × List Fields).
          NoRepeat (map (λ u. identity_key u.result) x.1))
        (passed-inj h)
        (unify_all-single entries (identities entries) unified (identities-NoRepeat entries) own)
