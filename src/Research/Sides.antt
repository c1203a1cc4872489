-- ===== src/Research/Sides.antt =====
-- Between whom a divergence is (automation/multimodel_research_v1/aggregator.py).
use multiverse_research.Prelude.{
  ◌≡◌, ◌≢◌, refl, sym, ap, ◌∙◌, subst, ◌↔◌, ◌⊎◌, String, Bool, true, false, ◌&&◌, List, [], ◌∷◌,
  ◌++◌, map, string_eq, ltb, length, any, elem, inl, inr, IsIn, arith, Bool-cases, and-both,
}
use multiverse_research.Prelude.Order.{list_eq, distinct}
use multiverse_research.Prelude.Members.{
  elem-IsIn, IsIn-elem, IsIn-append_left, IsIn-append_right, IsIn-distinct,
}
use multiverse_research.Research.Aggregate.{Occurrence, at_position, count_at, is_divergent}
use multiverse_research.Research.Diversity.{
  provider_model, presence, cross_divergence, role_conditioned_divergence,
}
use multiverse_research.Research.Divergence.{label-divergent, some_first, some_in}

module _ {A : Type 0} where
  any-IsIn : (p : A → Bool) (xs : List A) → any p xs ≡ true → (x : A) × IsIn x xs × (p x ≡ true)
  any-IsIn p [] h = cc
  any-IsIn p (y ∷ ys) h = elim (Bool-cases (p y)) [
    | inl e ↦ (y, inl refl, e)
    | inr e ↦ let (x, among, fits) = any-IsIn p ys (rw e at h) in (x, inr among, fits)
  ]

  IsIn-any : (p : A → Bool) (x : A) (xs : List A) → any p xs ≡ false → IsIn x xs → p x ≡ false
  IsIn-any p x [] h among = elim among [ ]
  IsIn-any p x (y ∷ ys) h (inl here) = ap p here ∙ ground arith
  IsIn-any p x (y ∷ ys) h (inr among) = IsIn-any p x ys (ground arith) among

  two_in : (x y : A) (xs : List A) → IsIn x xs → IsIn y xs → x ≢ y → ltb 1 (length xs) ≡ true
  two_in x y [] in_x in_y apart = elim in_x [ ]
  two_in x y (z ∷ []) (inl is_x) (inl is_y) apart = absurd (apart (is_x ∙ sym is_y))
  two_in x y (z ∷ []) (inl is_x) (inr later) apart = elim later [ ]
  two_in x y (z ∷ []) (inr later) in_y apart = elim later [ ]
  two_in x y (z ∷ w ∷ zs) in_x in_y apart = ground arith

presence-some :
    (claim position : String) (os : List Occurrence)
    → ltb 0 (length (presence provider_model claim position os))
      ≡ ltb 0 (count_at claim position os)
unfolding presence
presence-some claim position os = go (at_position claim position os)
  where
    go :
        (xs : List Occurrence)
        → ltb 0 (length (distinct (map (λ o. provider_model o.entry) xs))) ≡ ltb 0 (length xs)
    go [] = refl
    go (x ∷ xs) = ground arith

-- Two sides that are both taken share a member, or have two members together.
two_sides :
    (support oppose : List (List String))
    → ltb 0 (length support) ≡ true
    → ltb 0 (length oppose) ≡ true
    → (ltb 1 (length (distinct (support ++ oppose))) ≡ true)
      ⊎ (any (λ m. elem m oppose) support ≡ true)
two_sides support oppose h k = elim (Bool-cases (any (λ m. elem m oppose) support)) [
  | inl shared ↦ inr shared
  | inr apart ↦
      let (s, in_s) = some_first support h in
      let (o, in_o) = some_first oppose k in
      let outside = IsIn-elem s oppose (IsIn-any (λ m. elem m oppose) s support apart in_s) in
      inl (
        two_in s o (distinct (support ++ oppose))
          (IsIn-distinct s _ (IsIn-append_left s support oppose in_s))
          (IsIn-distinct o _ (IsIn-append_right o support oppose in_o))
          (λ same. outside (subst (λ m. IsIn m oppose) (sym same) in_o)))
]

shared_side :
    (support oppose : List (List String))
    → any (λ m. elem m oppose) support ≡ true
    → (ltb 0 (length support) ≡ true) × (ltb 0 (length oppose) ≡ true)
shared_side support oppose h =
    let (m, in_s, on_both) = any-IsIn (λ m. elem m oppose) support h in
    (some_in m support in_s, some_in m oppose (elem-IsIn m oppose on_both))

-- A claim is reported as divergent exactly if different models stand on its two sides or one model
-- stands on both.
pub divergent-sides :
    (os : List Occurrence) (claim : String)
    → (is_divergent os claim ≡ true) ↔ (
        (cross_divergence provider_model claim os ≡ true)
        ⊎ (role_conditioned_divergence claim os ≡ true))
unfolding cross_divergence role_conditioned_divergence
divergent-sides os claim =
    let support = presence provider_model claim "SUPPORT" os in
    let oppose = presence provider_model claim "OPPOSE" os in
    let test =
      label-divergent (count_at claim "SUPPORT" os) (count_at claim "OPPOSE" os)
        (count_at claim "UNKNOWN" os) in
    let supported = presence-some claim "SUPPORT" os in
    let opposed = presence-some claim "OPPOSE" os in
    (
      λ h.
          let both =
            and-both (ltb 0 (count_at claim "SUPPORT" os)) (ltb 0 (count_at claim "OPPOSE" os))
              (sym test ∙ h) in
          let s : ltb 0 (length support) ≡ true = supported ∙ both.0 in
          let o : ltb 0 (length oppose) ≡ true = opposed ∙ both.1 in
          elim (two_sides support oppose s o) [
            | inl two ↦ inl (rw (s, o, two) refl)
            | inr shared ↦ inr shared
          ],
      λ h.
          let taken : (ltb 0 (length support) ≡ true) × (ltb 0 (length oppose) ≡ true) = elim h [
            | inl cross ↦
                (let (sides, _) =
                    and-both (ltb 0 (length support) && ltb 0 (length oppose)) _ cross in
                  and-both _ _ sides)
            | inr shared ↦ shared_side support oppose shared
          ] in
          test ∙ rw (sym supported ∙ taken.0, sym opposed ∙ taken.1) refl,
    )
