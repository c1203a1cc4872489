-- ===== src/Review/Current.antt =====
-- The request that is answered as the current one, from the comments to the answer
-- (automation/review_dispatcher_v1/request_arbitration_v6.py).
use multiverse_research.Prelude.{
  ℕ, suc, zero, ◌≡◌, ◌≢◌, String, true, Option, none, some, List, [], ◌∷◌, string_eq, length, ◌⊎◌,
  inl, inr, All, All-find_first, IsIn, Bool-cases, Option-cases, Sum-cases, inr-inj, ap, subst, sym,
  ◌∙◌,
}
use multiverse_research.Prelude.Value.{Value, Fields, obj}
use multiverse_research.Prelude.Checked.{
  passed, refused, unbind, passed-inj, Checked-cases, Refusal,
}
use multiverse_research.Review.Shapes.{github_comment_id, issue_comment_owner_trusted}
use multiverse_research.Review.Paths.{Net}
use multiverse_research.Review.Request.{validate_request}
use multiverse_research.Review.Arbitration.{
  Candidate, Fault, is_valid, winner, accept, walk, bridge_hashes, has_duplicate,
  exact_current_owner_requests, latest_exact_current_owner_request,
}
use multiverse_research.Review.Walk.{walk-stop, walk-pass}
use multiverse_research.Review.Lineage.{conclude-accepted, latest_is_unsuperseded}
use multiverse_research.Review.Authority.{validate_request-parts}
use multiverse_research.Review.Candidates.{
  Host, Envelope, is_about, recipe_only_invalid, validation_error_of, exact_candidates,
  latest_request,
}
use multiverse_research.Review.Admitted.{
  IsAdmitted, IsWrittenIn, collect-All, sort-All, candidate_in-IsAdmitted,
}

module _ (P : Candidate → Type 0) where
  accept-All :
      (w : Candidate) (accepted : List Candidate) → P w → All P accepted → All P (accept w accepted)
  accept-All w accepted p h = elim (Bool-cases (is_valid w)) [
    | inl e ↦ rw e (p, h)
    | inr e ↦ rw e h
  ]

  first-All :
      (accepted : List Candidate) (c : Candidate)
      → All P accepted
      → ◌≡◌ {A = Fault ⊎ Candidate}
          (elim accepted [ [] ↦ inl Fault.no_exact_current_request | x ∷ _ ↦ inr x ])
          (inr c)
      → P c
  first-All [] c h e = cc
  first-All (x ∷ rest) c h e = subst P (inr-inj e) h.0

  walk-All :
      (cs : List Candidate) (hashes : List String) (n previous : ℕ) (p : Option String)
      (visited : List (Option String)) (accepted : List Candidate)
      (r : List (Option String) × List Candidate)
      → All P cs
      → All P accepted
      → walk n cs hashes previous p visited accepted ≡ inr r
      → All P r.1
  unfolding walk
  walk-All cs hashes zero previous p visited accepted r all_cs so_far h = cc
  walk-All cs hashes (suc n) previous p visited accepted r all_cs so_far h =
      elim (Option-cases (winner p cs)) [
        | inl e ↦
            let same : ◌≡◌ {A = List (Option String) × List Candidate} (visited, accepted) r =
              inr-inj (sym (walk-stop cs hashes n previous p visited accepted e) ∙ h) in
            subst (λ x. All P x.1) same so_far
        | inr (w, e) ↦ elim (walk-pass cs hashes n previous p visited accepted w e) [
          | inl (_, _, next) ↦
              walk-All cs hashes n w.comment_id (some w.sha256) (p ∷ visited) (accept w accepted) r
                all_cs (accept-All w accepted (All-find_first P _ cs w all_cs e) so_far)
                (sym next ∙ h)
          | inr (f, _, stop) ↦ cc (stop, h)
        ]
      ]

  accepted-All :
      (cs accepted : List Candidate)
      → All P cs
      → exact_current_owner_requests cs ≡ inr accepted
      → All P accepted
  unfolding exact_current_owner_requests
  accepted-All cs accepted all_cs h = elim (Bool-cases (has_duplicate [] cs)) [
    | inl e ↦ cc (rw (e, exact_current_owner_requests) at h)
    | inr e ↦ elim (Sum-cases (bridge_hashes cs cs)) [
      | inl (f, e') ↦ cc (rw (e, exact_current_owner_requests, e') at h)
      | inr (hashes, e') ↦
          let (winning, walked) =
            conclude-accepted cs accepted _ (rw (e, exact_current_owner_requests, e') at h) in
          walk-All cs hashes (suc (length cs)) 0 none [] [] (winning, accepted) all_cs tt walked
    ]
  ]

  latest-All :
      (cs : List Candidate) (c : Candidate)
      → All P cs
      → latest_exact_current_owner_request cs ≡ inr c
      → P c
  unfolding latest_exact_current_owner_request
  latest-All cs c all_cs h = elim (Sum-cases (exact_current_owner_requests cs)) [
    | inl (f, e) ↦ cc (rw (e, latest_exact_current_owner_request) at h)
    | inr (accepted, e) ↦
        first-All accepted c (accepted-All cs accepted all_cs e)
          (rw (e, latest_exact_current_owner_request) at h)
  ]

no_error-refused :
    (net : Net) (r : Fields) (f : Refusal)
    → validate_request net (obj r) ≡ refused f
    → validation_error_of net r ≢ passed none
unfolding validation_error_of
no_error-refused net r (Refusal.contract code) e h =
    unbind (recipe_only_invalid net r) _ (rw (e, validation_error_of) at h) λ bridgeable _ h.
      elim (Bool-cases bridgeable) [ inl b ↦ cc (rw b at h) | inr b ↦ cc (rw b at h) ]
no_error-refused net r f e h = cc (rw (e, validation_error_of) at h)

-- A validation that notes no error was passed.
no_error-passed :
    (net : Net) (r : Fields)
    → validation_error_of net r ≡ passed none
    → validate_request net (obj r) ≡ passed r
unfolding validation_error_of
no_error-passed net r h = elim (Checked-cases (validate_request net (obj r))) [
  | inr (d, e) ↦ cc (e, (validate_request-parts net (obj r) d e).0)
  | inl (f, e) ↦ absurd (no_error-refused net r f e h)
]

-- What the answered request is, and where it comes from.
abbrev pub IsInForce : Host → Envelope → List Value → Candidate → Type 0
IsInForce host e comments c =
    IsIn (obj c.comment) comments
    × (issue_comment_owner_trusted c.comment e.repo ≡ passed true)
    × (is_about e c.request ≡ true)
    × (validate_request host.net (obj c.request) ≡ passed c.request)
    × (github_comment_id (obj c.comment) "OWNER_REQUEST_COMMENT_ID" ≡ passed c.comment_id)
    × IsWrittenIn host c.comment c.request
    × (c.sha256 ≡ host.sha256_json (obj c.request))

module _ (host : Host) (e : Envelope) where
  abbrev Held : List Value → Candidate → Type 0
  Held comments c = (raw : Value) × IsIn raw comments × IsAdmitted host e raw c

  current_of :
      (comments : List Value) (c : Candidate)
      → ((raw : Value) × IsIn raw comments × IsAdmitted host e raw c)
      → is_valid c ≡ true
      → IsInForce host e comments c
  current_of comments c (raw, among, (own, trusted, about, noted, id, written, made)) valid =
      elim (Option-cases c.validation_error) [
        | inr (code, faulty) ↦ cc (rw faulty at valid)
        | inl none_noted ↦ (
          subst (λ v. IsIn v comments) own among,
          trusted,
          about,
          no_error-passed host.net c.request (noted ∙ ap passed none_noted),
          id,
          written,
          ap (λ x. x.sha256) made,
        )
      ]

-- The request that the comments of a pull request answer as current is what the body of one of
-- them parses to, which the owner of the repository wrote; it is about the envelope and passes the
-- whole contract, and it is answered with the id of this comment and its own digest.
pub current_request_is_contracted :
    (host : Host) (e : Envelope) (comments : List Value) (c : Candidate)
    → latest_request host e comments ≡ passed c
    → IsInForce host e comments c
unfolding latest_request exact_candidates
current_request_is_contracted host e comments c h = unbind _ _ h λ cs found h.
    unbind _ _ found λ unsorted collected ordered.
      elim (Sum-cases (latest_exact_current_owner_request cs)) [
        | inl (f, e') ↦ cc (rw e' at h)
        | inr (d, e') ↦
            let latest : latest_exact_current_owner_request cs ≡ inr c =
              e' ∙ ap inr (passed-inj (rw e' at h)) in
            let held : All (Held host e comments) unsorted =
              collect-All host e (Held host e comments) comments unsorted
                (λ raw k among own. (raw, among, candidate_in-IsAdmitted host e raw k own))
                collected in
            current_of host e comments c
              (latest-All (Held host e comments) cs c
                (subst (All (Held host e comments)) (passed-inj ordered)
                  (sort-All host e (Held host e comments) unsorted held))
                latest)
              (latest_is_unsuperseded cs c latest).0
      ]
