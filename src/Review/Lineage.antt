-- ===== src/Review/Lineage.antt =====
-- What the arbitration of review requests (automation/review_dispatcher_v1/
-- request_arbitration_v6.py) decides, and that its fuel is enough.
use multiverse_research.Prelude.{
  ℕ, suc, ◌≡◌, ◌≢◌, refl, String, true, Option, none, some, List, [], ◌∷◌, ◌==◌, string_eq, elem,
  length, all, ◌⊎◌, inl, inr, arith, Bool-cases, Option-cases, Sum-cases, inr-inj, eq_iff, subst,
  sym,
}
use multiverse_research.Review.Arbitration.{
  Candidate, Fault, is_valid, winner, has_duplicate, direct_successors, bridge_fault, bridge_hashes,
  visited_before, conclude, exact_current_owner_requests, latest_exact_current_owner_request,
}
use multiverse_research.Review.Walk.{all_newer-le, walk-enough, IsChain, Unsuperseded, walk-Lineage}

no_successor :
    (c : Candidate) (cs : List Candidate)
    → winner (some c.sha256) cs ≡ none
    → direct_successors c cs ≡ []
no_successor c [] e = refl
no_successor c (s ∷ cs) e = ground (arith, no_successor c cs)

bridge_fault-successor :
    (c : Candidate) (cs : List Candidate)
    → bridge_fault c cs ≡ none
    → winner (some c.sha256) cs ≢ none
unfolding bridge_fault
bridge_fault-successor c cs h e = cc (rw (no_successor c cs e, bridge_fault) at h)

bridge_hashes-known :
    (cs rest : List Candidate) (hashes : List String) (sha : String)
    → bridge_hashes cs rest ≡ inr hashes
    → elem sha hashes ≡ true
    → winner (some sha) cs ≢ none
unfolding bridge_hashes
bridge_hashes-known cs [] hashes sha h known =
    let same : ◌≡◌ {A = List String} [] hashes = cc in
    cc (subst (λ l. elem sha l ≡ true) (sym same) known)
bridge_hashes-known cs (c ∷ rest) hashes sha h known = elim (Bool-cases (is_valid c)) [
  | inl e ↦ bridge_hashes-known cs rest hashes sha (rw (e, bridge_hashes) at h) known
  | inr e ↦ elim (Option-cases (bridge_fault c cs)) [
    | inr (f, e') ↦ cc (rw (e, bridge_hashes, e') at h)
    | inl e' ↦ elim (Sum-cases (bridge_hashes cs rest)) [
      | inl (f, e'') ↦ cc (rw (e, bridge_hashes, e', e'') at h)
      | inr (others, e'') ↦
          let same : c.sha256 ∷ others ≡ hashes = inr-inj (rw (e, bridge_hashes, e', e'') at h) in
          elim (Bool-cases (sha == c.sha256)) [
            | inl own ↦
                subst (λ s. winner (some s) cs ≢ none) (sym ((eq_iff sha c.sha256).0 own))
                  (bridge_fault-successor c cs e')
            | inr other ↦
                bridge_hashes-known cs rest others sha e''
                  (rw other at (subst (λ l. elem sha l ≡ true) (sym same) known))
          ]
    ]
  ]
]

bridge_fault-total :
    (c : Candidate) (cs : List Candidate) → bridge_fault c cs ≢ some Fault.out_of_fuel
unfolding bridge_fault
bridge_fault-total c cs h = ground arith

bridge_hashes-total : (cs rest : List Candidate) → bridge_hashes cs rest ≢ inl Fault.out_of_fuel
unfolding bridge_hashes
bridge_hashes-total cs [] h = cc
bridge_hashes-total cs (c ∷ rest) h = elim (Bool-cases (is_valid c)) [
  | inl e ↦ bridge_hashes-total cs rest (rw (e, bridge_hashes) at h)
  | inr e ↦ elim (Option-cases (bridge_fault c cs)) [
    | inr (f, e') ↦ bridge_fault-total c cs (cc (rw (e, bridge_hashes, e') at h, e'))
    | inl e' ↦ elim (Sum-cases (bridge_hashes cs rest)) [
      | inl (f, e'') ↦ bridge_hashes-total cs rest (cc (rw (e, bridge_hashes, e', e'') at h, e''))
      | inr (others, e'') ↦ cc (rw (e, bridge_hashes, e', e'') at h)
    ]
  ]
]

conclude-out_of_fuel :
    (cs : List Candidate) (r : Fault ⊎ (List (Option String) × List Candidate))
    → conclude cs r ≡ inl Fault.out_of_fuel
    → r ≡ inl Fault.out_of_fuel
conclude-out_of_fuel cs (inl f) h = cc
conclude-out_of_fuel cs (inr (winning, accepted)) h =
    elim (Bool-cases (all (λ c. visited_before c.supersedes winning) cs)) [
      | inl e ↦ cc (rw e at h)
      | inr e ↦ cc (rw e at h)
    ]

pub conclude-accepted :
    (cs accepted : List Candidate) (r : Fault ⊎ (List (Option String) × List Candidate))
    → conclude cs r ≡ inr accepted
    → (winning : List (Option String)) × (r ≡ inr (winning, accepted))
conclude-accepted cs accepted (inl f) h = cc
conclude-accepted cs accepted (inr (winning, found)) h =
    elim (Bool-cases (all (λ c. visited_before c.supersedes winning) cs)) [
      | inl e ↦ (winning, cc (inr-inj (rw e at h)))
      | inr e ↦ cc (rw e at h)
    ]

-- The fuel is enough: the arbitration of any candidates ends in an answer of the code.
pub arbitration_has_fuel :
    (cs : List Candidate) → exact_current_owner_requests cs ≢ inl Fault.out_of_fuel
unfolding exact_current_owner_requests
arbitration_has_fuel cs h = elim (Bool-cases (has_duplicate [] cs)) [
  | inl e ↦ cc (rw (e, exact_current_owner_requests) at h)
  | inr e ↦ elim (Sum-cases (bridge_hashes cs cs)) [
    | inl (f, e') ↦
        bridge_hashes-total cs cs (cc (rw (e, exact_current_owner_requests, e') at h, e'))
    | inr (hashes, e') ↦
        walk-enough cs hashes (suc (length cs)) 0 none [] [] (omega (arith, all_newer-le 0 cs))
          (conclude-out_of_fuel cs _ (rw (e, exact_current_owner_requests, e') at h))
  ]
]

-- The requests in force stand newest first with falling comment ids and are all valid, and no
-- candidate supersedes the first of them.
pub accepted_lineage :
    (cs accepted : List Candidate)
    → exact_current_owner_requests cs ≡ inr accepted
    → Unsuperseded cs accepted × ((m : ℕ) × IsChain m accepted)
unfolding exact_current_owner_requests
accepted_lineage cs accepted h = elim (Bool-cases (has_duplicate [] cs)) [
  | inl e ↦ cc (rw (e, exact_current_owner_requests) at h)
  | inr e ↦ elim (Sum-cases (bridge_hashes cs cs)) [
    | inl (f, e') ↦ cc (rw (e, exact_current_owner_requests, e') at h)
    | inr (hashes, e') ↦
        let (winning, walked) =
          conclude-accepted cs accepted _ (rw (e, exact_current_owner_requests, e') at h) in
        walk-Lineage cs hashes (suc (length cs)) 0 none [] [] (winning, accepted)
          (λ sha known. bridge_hashes-known cs cs hashes sha e' known) walked (inl (refl, refl)) tt
  ]
]

latest_of :
    (cs : List Candidate) (c : Candidate) (accepted : List Candidate)
    → Unsuperseded cs accepted × ((m : ℕ) × IsChain m accepted)
    → ◌≡◌ {A = Fault ⊎ Candidate}
        (elim accepted [ [] ↦ inl Fault.no_exact_current_request | x ∷ _ ↦ inr x ])
        (inr c)
    → (is_valid c ≡ true) × (winner (some c.sha256) cs ≡ none)
latest_of cs c [] v h = cc
latest_of cs c (x ∷ rest) (inl e, chain) h = cc
latest_of cs c (x ∷ rest) (inr (w, others, e, last), (m, chain)) h =
    let same : x ≡ c = inr-inj h in
    let own : w ≡ c = cc in
    (
      subst (λ y. is_valid y ≡ true) same chain.1,
      subst (λ y. winner (some y.sha256) cs ≡ none) own last,
    )

-- The request that is answered as the current one is valid, and no candidate supersedes it.
pub latest_is_unsuperseded :
    (cs : List Candidate) (c : Candidate)
    → latest_exact_current_owner_request cs ≡ inr c
    → (is_valid c ≡ true) × (winner (some c.sha256) cs ≡ none)
unfolding latest_exact_current_owner_request
latest_is_unsuperseded cs c h = elim (Sum-cases (exact_current_owner_requests cs)) [
  | inl (f, e) ↦ cc (rw (e, latest_exact_current_owner_request) at h)
  | inr (accepted, e) ↦
      latest_of cs c accepted (accepted_lineage cs accepted e)
        (rw (e, latest_exact_current_owner_request) at h)
]
