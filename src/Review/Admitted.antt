-- ===== src/Review/Admitted.antt =====
-- Where the candidates of the request arbitration come from, and what the current request is
-- (automation/review_dispatcher_v1/request_arbitration_v6.py).
use multiverse_research.Prelude.{
  ◌≡◌, refl, String, true, some, List, [], ◌∷◌, string_eq, ltb, inl, inr, All, IsIn, Bool-cases,
  Option-cases, some-inj, ap, subst, sym, ◌∙◌,
}
use multiverse_research.Prelude.Value.{Value, Fields, obj}
use multiverse_research.Prelude.Json.{item}
use multiverse_research.Prelude.Checked.{passed, unbind, required, passed-inj}
use multiverse_research.Review.Shapes.{
  required_object, github_comment_id, issue_comment_owner_trusted,
}
use multiverse_research.Review.Arbitration.{Candidate}
use multiverse_research.Review.Candidates.{
  Host, Envelope, is_about, validation_error_of, parse_request_from_comment, parse_body,
  candidate_of, admit, candidate_in, collect, place, sort,
}

-- A request is what the text of a comment parses to.
abbrev pub IsWrittenIn : Host → Fields → Fields → Type 0
IsWrittenIn host comment r =
    (body : String) × (item comment "body" ≡ Value.str body)
    × (parse_request_from_comment host body ≡ passed (some r))

parse_body-text :
    (host : Host) (comment r : Fields)
    → parse_body host (item comment "body") ≡ passed (some r)
    → IsWrittenIn host comment r
parse_body-text host comment r h = at (item comment "body") refl h
  where
    at :
        (v : Value)
        → item comment "body" ≡ v
        → parse_body host v ≡ passed (some r)
        → IsWrittenIn host comment r
    at (Value.str body) e h = (body, e, h)
    at v e h = cc

-- A candidate that a comment holds: the owner of the repository wrote the comment, the request is
-- about the envelope, its validation gave what is noted, the comment's body parses to it, and it has
-- the digest that goes with it.
abbrev pub IsAdmitted : Host → Envelope → Value → Candidate → Type 0
IsAdmitted host e raw c =
    (raw ≡ obj c.comment)
    × (issue_comment_owner_trusted c.comment e.repo ≡ passed true)
    × (is_about e c.request ≡ true)
    × (validation_error_of host.net c.request ≡ passed c.validation_error)
    × (github_comment_id (obj c.comment) "OWNER_REQUEST_COMMENT_ID" ≡ passed c.comment_id)
    × IsWrittenIn host c.comment c.request
    × (c ≡ candidate_of host c.request c.comment c.validation_error c.comment_id)

required_object-passed :
    (v : Value) (code : String) (d : Fields) → required_object v code ≡ passed d → v ≡ obj d
required_object-passed (obj e) code d h = cc
required_object-passed v code d h = cc

module _ (host : Host) (e : Envelope) where
  admit-IsAdmitted :
      (comment r : Fields) (c : Candidate)
      → issue_comment_owner_trusted comment e.repo ≡ passed true
      → IsWrittenIn host comment r
      → admit host e comment r ≡ passed (some c)
      → IsAdmitted host e (obj comment) c
  unfolding admit
  admit-IsAdmitted comment r c trusted written h = required _ _ _ h λ _ h.
      elim (Bool-cases (is_about e r)) [
        | inr differ ↦ cc (rw differ at h)
        | inl about ↦ unbind _ _ (rw about at h) λ error noted h. unbind _ _ h λ id known h.
            subst (IsAdmitted host e (obj comment)) (some-inj (passed-inj h))
              (refl, trusted, about, noted, known, written, refl)
      ]

  pub candidate_in-IsAdmitted :
      (raw : Value) (c : Candidate)
      → candidate_in host e raw ≡ passed (some c)
      → IsAdmitted host e raw c
  unfolding candidate_in
  candidate_in-IsAdmitted raw c h = unbind _ _ h λ d own h. unbind _ _ h λ marked _ h.
      elim (Bool-cases marked) [
        | inr unmarked ↦ cc (rw unmarked at h)
        | inl is_marked ↦ unbind _ _ (rw is_marked at h) λ trusted known h.
            elim (Bool-cases trusted) [
              | inr foreign ↦ cc (rw foreign at h)
              | inl owner ↦ unbind _ _ (rw owner at h) λ request parsed h.
                  elim (Option-cases request) [
                    | inl absent ↦ cc (rw absent at h)
                    | inr (r, found) ↦
                        subst (λ v. IsAdmitted host e v c)
                          (sym (required_object-passed raw _ d own))
                          (admit-IsAdmitted d r c (known ∙ ap passed owner)
                            (parse_body-text host d r (parsed ∙ ap passed found)) (rw found at h))
                  ]
            ]
      ]

  module _ (P : Candidate → Type 0) where
    pub collect-All :
        (comments : List Value) (cs : List Candidate)
        → ((raw : Value) (c : Candidate)
            → IsIn raw comments
            → candidate_in host e raw ≡ passed (some c)
            → P c)
        → collect host e comments ≡ passed cs
        → All P cs
    unfolding collect
    collect-All [] cs each h = subst (All P) (passed-inj h) tt
    collect-All (raw ∷ rest) cs each h = unbind _ _ h λ found own h. unbind _ _ h λ others more h.
        let tail : All P others =
          collect-All rest others (λ v c among. each v c (inr among)) more in
        elim (Option-cases found) [
          | inl absent ↦ subst (All P) (passed-inj (rw absent at h)) tail
          | inr (c, held) ↦
              subst (All P) (passed-inj (rw held at h))
                (each raw c (inl refl) (own ∙ ap passed held), tail)
        ]

    place-All : (c : Candidate) (cs : List Candidate) → P c → All P cs → All P (place c cs)
    unfolding place
    place-All c [] p h = (p, tt)
    place-All c (d ∷ ds) p h = elim (Bool-cases (ltb d.comment_id c.comment_id)) [
      | inl e ↦ rw e (h.0, place-All c ds p h.1)
      | inr e ↦ rw e (p, h)
    ]

    pub sort-All : (cs : List Candidate) → All P cs → All P (sort cs)
    unfolding sort
    sort-All [] h = tt
    sort-All (c ∷ cs) h = place-All c (sort cs) h.0 (sort-All cs h.1)
