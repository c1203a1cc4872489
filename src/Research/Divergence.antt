-- ===== src/Research/Divergence.antt =====
-- When the aggregation reports a divergence (automation/multimodel_research_v1/aggregator.py).
use multiverse_research.Prelude.{
  ◌≡◌, refl, sym, ◌∙◌, subst, ◌↔◌, String, Bool, true, false, ◌&&◌, List, [], ◌∷◌, ◌==◌, string_eq,
  ltb, length, inl, IsIn, arith, ℕ, and-both, if◌then◌else◌,
}
use multiverse_research.Prelude.Members.{
  IsIn-map, IsIn-filterb, filterb-IsIn, IsIn-sort_by, IsIn-distinct,
}
use multiverse_research.Research.Aggregate.{
  Occurrence, at_position, count_at, descriptive_label, claim_keys, is_divergent, divergent_claims,
}

-- Some finding takes this position on the claim.
abbrev pub IsTaken : String → String → List Occurrence → Type 0
IsTaken claim position os =
    (o : Occurrence) × IsIn o os × (o.claim_key ≡ claim) × (o.position ≡ position)

pub some_first : {A : Type 0} (xs : List A) → ltb 0 (length xs) ≡ true → (x : A) × IsIn x xs
some_first [] h = cc
some_first (x ∷ xs) h = (x, inl refl)

pub some_in : {A : Type 0} (x : A) (xs : List A) → IsIn x xs → ltb 0 (length xs) ≡ true
some_in x [] among = elim among [ ]
some_in x (y ∷ ys) among = ground arith

count_at-IsTaken :
    (claim position : String) (os : List Occurrence)
    → (ltb 0 (count_at claim position os) ≡ true) ↔ IsTaken claim position os
unfolding at_position
count_at-IsTaken claim position os = (
  λ h.
      let (o, among) = some_first (at_position claim position os) h in
      let (inside, fits) =
        filterb-IsIn (λ o. o.claim_key == claim && o.position == position) o os among in
      let both = and-both (o.claim_key == claim) (o.position == position) fits in
      (o, inside, (string_eq.beq_iff _ _).0 both.0, (string_eq.beq_iff _ _).0 both.1),
  λ (o, inside, key, at). some_in o (at_position claim position os) (
      IsIn-filterb _ o os (rw ((string_eq.beq_iff _ _).1 key, (string_eq.beq_iff _ _).1 at) refl)
        inside),
)

abbrev label_by : Bool → Bool → Bool → String
label_by support oppose unknown =
    if support && oppose
    then "DIVERGENT"
    else if support
    then (if unknown then "SUPPORT_WITH_UNKNOWN" else "SUPPORT_ONLY")
    else if oppose
    then (if unknown then "OPPOSE_WITH_UNKNOWN" else "OPPOSE_ONLY")
    else "UNKNOWN_ONLY"

label_test :
    (support oppose unknown : Bool)
    → (label_by support oppose unknown == "DIVERGENT") ≡ (support && oppose)
label_test true true unknown = refl
label_test true false true = refl
label_test true false false = refl
label_test false true true = refl
label_test false true false = refl
label_test false false unknown = refl

-- The label says DIVERGENT exactly if there are both.
pub label-divergent :
    (support oppose unknown : ℕ)
    → (descriptive_label support oppose unknown == "DIVERGENT") ≡ (ltb 0 support && ltb 0 oppose)
unfolding descriptive_label
label-divergent support oppose unknown = label_test (ltb 0 support) (ltb 0 oppose) (ltb 0 unknown)

claim_keys-IsIn :
    (os : List Occurrence) (o : Occurrence) → IsIn o os → IsIn o.claim_key (claim_keys os)
unfolding claim_keys
claim_keys-IsIn os o among =
    IsIn-sort_by _ _ _ (IsIn-distinct _ _ (IsIn-map (λ x. x.claim_key) o os among))

-- Of any findings under their claims, a claim is reported as an unresolved divergence exactly if
-- some finding supports it and some finding opposes it, whatever their numbers.
pub divergent_claims-IsTaken :
    (os : List Occurrence) (claim : String)
    → IsIn claim (divergent_claims os) ↔ (IsTaken claim "SUPPORT" os × IsTaken claim "OPPOSE" os)
unfolding divergent_claims
divergent_claims-IsTaken os claim =
    let test =
      label-divergent (count_at claim "SUPPORT" os) (count_at claim "OPPOSE" os)
        (count_at claim "UNKNOWN" os) in
    (
      λ among.
          let fits = (filterb-IsIn (is_divergent os) claim (claim_keys os) among).1 in
          let both =
            and-both (ltb 0 (count_at claim "SUPPORT" os)) (ltb 0 (count_at claim "OPPOSE" os))
              (sym test ∙ fits) in
          (
            (count_at-IsTaken claim "SUPPORT" os).0 both.0,
            (count_at-IsTaken claim "OPPOSE" os).0 both.1,
          ),
      λ (supports, opposes).
          IsIn-filterb (is_divergent os) claim (claim_keys os)
            (test
              ∙ rw
                  (
                    (count_at-IsTaken claim "SUPPORT" os).1 supports,
                    (count_at-IsTaken claim "OPPOSE" os).1 opposes,
                  )
                  refl)
            (subst (λ k. IsIn k (claim_keys os)) supports.2
              (claim_keys-IsIn os supports.0 supports.1)),
    )
