-- ===== src/Research/Coverage.antt =====
-- What the summary of a fan-out accounts for (automation/multimodel_research_v1/fanout.py).
use multiverse_research.Prelude.{
  ◌≡◌, refl, sym, ap, ◌∙◌, subst, ◌⊎◌, inl, inr, String, Bool, true, false, not, Option, none, some,
  List, [], ◌∷◌, ◌==◌, string_eq, elem, IsIn, Bool-cases, some-inj, if◌then◌else◌,
}
use multiverse_research.Prelude.Value.{Value, Items, Fields, nil, cons}
use multiverse_research.Prelude.Json.{text_in, item}
use multiverse_research.Prelude.Checked.{Refusal, passed, refused, unbind, required, passed-inj}
use multiverse_research.Prelude.Members.{IsIn-filterb, IsIn-sort_by, elem-IsIn}
use multiverse_research.Research.Contract.{Library}
use multiverse_research.Research.Assignment.{validate_result_v2_for_assignment}
use multiverse_research.Research.Fanout.{Planned, Observed, assignment_by_sha, observe}
use multiverse_research.Research.Summary.{planned_hashes, hashes_of, missing_hashes, run_plan}

map-IsIn :
    (h : String) (os : List Observed)
    → IsIn h (hashes_of os)
    → (o : Observed) × IsIn o os × (o.digest ≡ h)
map-IsIn h [] among = elim among [ ]
map-IsIn h (o ∷ os) (inl here) = (o, inl refl, sym here)
map-IsIn h (o ∷ os) (inr later) = let (x, among, same) = map-IsIn h os later in (x, inr among, same)

found_planned :
    (h : String) (ps : List Planned) (a : Value)
    → assignment_by_sha h ps ≡ some a
    → (p : Planned) × IsIn p ps × (p.digest ≡ h) × (p.assignment ≡ a)
unfolding assignment_by_sha
found_planned h [] a e = cc
found_planned h (p ∷ ps) a e = elim (Bool-cases (p.digest == h)) [
  | inl hit ↦ (p, inl refl, (string_eq.beq_iff p.digest h).0 hit, some-inj (rw hit at e))
  | inr miss ↦
      let (q, among, same, own) = found_planned h ps a (rw miss at e) in (q, inr among, same, own)
]

looked_up :
    (is_text : Bool) (o : Option Value) (e : Refusal) (a : Value)
    → (elim o [ none ↦ refused e | some b ↦ if is_text then passed b else refused e ]) ≡ passed a
    → o ≡ some a
looked_up is_text none e a h = cc
looked_up true (some b) e a h = cc
looked_up false (some b) e a h = cc

-- A result for a planned assignment that was accepted.
abbrev pub IsAccepted : Library → Value → List Planned → Observed → Type 0
IsAccepted lib t planned o =
    (p : Planned) × IsIn p planned
    × (p.digest ≡ o.digest)
    × ((v : Value) × (validate_result_v2_for_assignment lib t p.assignment v ≡ passed o.result))

observe-IsAccepted :
    (lib : Library) (t : Value) (planned : List Planned) (hashes submissions : List String)
    (results : Items) (os : List Observed) (o : Observed)
    → observe lib t planned hashes submissions results ≡ passed os
    → IsIn o os
    → IsAccepted lib t planned o
unfolding observe
observe-IsAccepted lib t planned hashes submissions nil os o h among =
    elim (subst (IsIn o) (sym (passed-inj h)) among) [ ]
observe-IsAccepted lib t planned hashes submissions (cons v xs) os o h among =
    unbind _ _ h λ raw _ h. unbind _ _ h λ _ _ h. unbind _ _ h λ assignment found h.
      required _ _ _ h λ _ h. unbind _ _ h λ _ _ h. required _ _ _ h λ _ h.
        unbind _ _ h λ r valid h. unbind _ _ h λ rest more h.
          elim (subst (IsIn o) (sym (passed-inj h)) among) [
            | inr later ↦
                observe-IsAccepted lib t planned (text_in (item raw "assignment_sha256") ∷ hashes)
                  (text_in (item raw "submission_id") ∷ submissions) xs rest o more later
            | inl here ↦
                let (p, inside, same, own) =
                  found_planned _ planned assignment (looked_up _ _ _ assignment found) in
                (
                  p,
                  inside,
                  same ∙ ap (λ x. x.digest) (sym here),
                  (
                    v,
                    ap (λ a. validate_result_v2_for_assignment lib t a v) own
                        ∙ valid
                        ∙ ap (λ x. passed x.result) (sym here),
                  ),
                )
          ]

-- Each digest of the plan is listed as missing, or a result was accepted for a planned assignment
-- with this digest.
pub planned_is_accounted :
    (lib : Library) (t assignments v results : Value) (planned : List Planned) (plan : Fields)
    (os : List Observed) (h : String)
    → run_plan lib t assignments v results ≡ passed (planned, plan, os)
    → IsIn h (planned_hashes plan)
    → IsIn h (missing_hashes (planned_hashes plan) os)
      ⊎ ((o : Observed) × IsIn o os × (o.digest ≡ h) × IsAccepted lib t planned o)
unfolding run_plan missing_hashes
planned_is_accounted lib t assignments v results planned plan os h ran listed =
    unbind _ _ ran λ made _ ran. required _ _ _ ran λ _ ran. unbind _ _ ran λ found own ran.
      let same = passed-inj ran in
      elim (Bool-cases (elem h (hashes_of os))) [
        | inr lacking ↦ inl (
            IsIn-sort_by _ h _ (
              IsIn-filterb (λ x. not (elem x (hashes_of os))) h (planned_hashes plan)
                (rw lacking refl) listed))
        | inl answered ↦
            let (o, among, is_h) = map-IsIn h os (elem-IsIn h (hashes_of os) answered) in
            inr (
              o,
              among,
              is_h,
              subst (λ x. IsAccepted lib t x o) (ap (λ x. x.0) same)
                  (observe-IsAccepted lib t made.0 [] [] _ found o own
                    (subst (λ x. IsIn o x.2) (sym same) among)),
            )
      ]
