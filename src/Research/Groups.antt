-- ===== src/Research/Groups.antt =====
-- What becomes of the results of one identity (automation/multimodel_research_v1/aggregator.py).
use multiverse_research.Prelude.{
  ◌≡◌, refl, sym, ap, subst, String, List, [], ◌∷◌, ◌==◌, string_eq, inl, inr, IsIn, ◌⊎◌,
}
use multiverse_research.Prelude.Value.{Fields}
use multiverse_research.Prelude.Checked.{passed, required, passed-inj}
use multiverse_research.Prelude.Order.{list_eq, list_beq_iff, sort_by}
use multiverse_research.Prelude.Members.{IsIn-all, filterb-IsIn, sort_by-IsIn}
use multiverse_research.Research.Aggregate.{Entry, identity_key, submission_id, group, unify}

-- An item stands for an entry: it has the same identity and the same content.
abbrev pub StandsFor : Entry → Entry → Type 0
StandsFor u e = (identity_key u.result ≡ identity_key e.result) × (u.digest ≡ e.digest)

pub unify-represents :
    (entries : List Entry) (r : List Entry × List Fields) (e : Entry)
    → unify entries ≡ passed r
    → IsIn e entries
    → (u : Entry) × IsIn u r.0 × IsIn u entries × (u.digest ≡ e.digest)
unfolding unify
unify-represents [] r e h among = elim among [ ]
unify-represents (c ∷ ds) r e h among = required _ _ _ h λ same h.
    let kept : IsIn c r.0 = subst (λ x. IsIn c x.0) (passed-inj h) (inl refl) in
    elim among [
      | inl here ↦ (c, kept, inl refl, ap (λ x. x.digest) (sym here))
      | inr later ↦ (
        c,
        kept,
        inl refl,
        sym (
            (string_eq.beq_iff e.digest c.digest).0
              (IsIn-all (λ x. x.digest == c.digest) e ds same later)),
      )
    ]

-- What is kept of a group was in it.
pub unify-IsIn :
    (entries : List Entry) (r : List Entry × List Fields) (u : Entry)
    → unify entries ≡ passed r
    → IsIn u r.0
    → IsIn u entries
unfolding unify
unify-IsIn [] r u h kept = subst (λ x. IsIn u x.0) (sym (passed-inj h)) kept
unify-IsIn (c ∷ ds) r u h kept = required _ _ _ h λ _ h.
    elim (subst (λ x. IsIn u x.0) (sym (passed-inj h)) kept) [
      | inl here ↦ inl here
      | inr later ↦ elim later [ ]
    ]

-- At most one entry is kept of a group.
pub unify-single :
    (entries : List Entry) (r : List Entry × List Fields)
    → unify entries ≡ passed r
    → (r.0 ≡ []) ⊎ ((u : Entry) × (r.0 ≡ u ∷ []))
unfolding unify
unify-single [] r h = inl (ap (λ x. x.0) (sym (passed-inj h)))
unify-single (c ∷ ds) r h = required _ _ _ h λ _ h. inr (c, ap (λ x. x.0) (sym (passed-inj h)))

abbrev pub in_order : List Entry → List Entry
in_order es = sort_by (λ e. submission_id e ∷ []) es

pub same_identity :
    (identity : List String) (entries : List Entry) (u : Entry)
    → IsIn u (in_order (group identity entries))
    → IsIn u entries × (identity_key u.result ≡ identity)
unfolding group
same_identity identity entries u among =
    let (found, fits) =
      filterb-IsIn (λ e. identity_key e.result == identity) u entries (sort_by-IsIn _ u _ among) in
    (found, (list_beq_iff (identity_key u.result) identity).0 fits)
