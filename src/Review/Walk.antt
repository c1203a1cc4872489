-- ===== src/Review/Walk.antt =====
-- The supersession walk of the review arbitration (automation/review_dispatcher_v1/
-- request_arbitration_v6.py), pass by pass.
use multiverse_research.Prelude.{
  ℕ, suc, zero, ◌≡◌, ◌≢◌, refl, String, true, ◌||◌, Option, none, some, List, [], ◌∷◌, string_eq,
  elem, length, filterb, ltb, ◌⊎◌, inl, inr, arith, ◌<◌, ◌≤◌, Bool-cases, Option-cases, some-inj,
  subst, sym, ◌∙◌, ltb→lt,
}
use multiverse_research.Review.Arbitration.{
  Candidate, Fault, is_valid, same_predecessor, winner, visited_before, accept, walk,
}

-- The candidates that are newer than a comment.
abbrev newer : ℕ → List Candidate → List Candidate
newer n cs = filterb (λ c. ltb n c.comment_id) cs

newer-le : (m n : ℕ) (cs : List Candidate) → m ≤ n → length (newer n cs) ≤ length (newer m cs)
newer-le m n [] h = omega arith
newer-le m n (c ∷ cs) h = ground (arith, newer-le m n cs h)

-- Each winner uses up a candidate.
winner-newer :
    (p : Option String) (previous : ℕ) (cs : List Candidate) (w : Candidate)
    → winner p cs ≡ some w
    → previous < w.comment_id
    → length (newer w.comment_id cs) < length (newer previous cs)
winner-newer p previous [] w e h = cc
winner-newer p previous (c ∷ cs) w e h = elim (Bool-cases (same_predecessor c.supersedes p)) [
  | inl hit ↦
      let own : c ≡ w = some-inj (rw hit at e) in
      let id : c.comment_id ≡ w.comment_id = cc own in
      ground (arith, newer-le previous w.comment_id cs)
  | inr miss ↦ let later = winner-newer p previous cs w (rw miss at e) h in ground arith
]

pub all_newer-le : (n : ℕ) (cs : List Candidate) → length (newer n cs) ≤ length cs
all_newer-le n [] = omega arith
all_newer-le n (c ∷ cs) = ground (arith, all_newer-le n cs)

module _ (cs : List Candidate) (hashes : List String) where
  -- One pass: it goes on from a newer winner that is valid or bridged, or it is refused.
  pub walk-pass :
      (n previous : ℕ) (p : Option String) (visited : List (Option String))
      (accepted : List Candidate) (w : Candidate)
      → winner p cs ≡ some w
      → ((previous < w.comment_id)
          × ((is_valid w || elem w.sha256 hashes) ≡ true)
          × (walk (suc n) cs hashes previous p visited accepted
              ≡ walk n cs hashes w.comment_id (some w.sha256) (p ∷ visited) (accept w accepted)))
        ⊎ ((f : Fault) × (f ≢ Fault.out_of_fuel)
            × (walk (suc n) cs hashes previous p visited accepted ≡ inl f))
  unfolding walk
  walk-pass n previous p visited accepted w e = elim (Bool-cases (visited_before p visited)) [
    | inl again ↦ inr (Fault.supersession_predecessor_cycle, λ x. cc, rw (e, walk, again) refl)
    | inr first ↦ elim (Bool-cases (ltb previous w.comment_id)) [
      | inr old ↦
          inr (Fault.supersession_comment_order_invalid, λ x. cc, rw (e, walk, first, old) refl)
      | inl later ↦ elim (Bool-cases (is_valid w || elem w.sha256 hashes)) [
        | inl fit ↦ inl (ltb→lt _ _ later, fit, rw (e, walk, first, later, fit) refl)
        | inr unfit ↦ inr (
          Fault.current_malformed_request_not_bridgeable,
          λ x. cc,
          rw (e, walk, first, later, unfit) refl,
        )
      ]
    ]
  ]

  pub walk-stop :
      (n previous : ℕ) (p : Option String) (visited : List (Option String))
      (accepted : List Candidate)
      → winner p cs ≡ none
      → walk (suc n) cs hashes previous p visited accepted ≡ inr (visited, accepted)
  unfolding walk
  walk-stop n previous p visited accepted e = rw (e, walk) refl

  pub walk-enough :
      (n previous : ℕ) (p : Option String) (visited : List (Option String))
      (accepted : List Candidate)
      → length (newer previous cs) < n
      → walk n cs hashes previous p visited accepted ≢ inl Fault.out_of_fuel
  walk-enough zero previous p visited accepted h = absurd (omega arith)
  walk-enough (suc n) previous p visited accepted h = elim (Option-cases (winner p cs)) [
    | inl e ↦ λ x. cc (walk-stop n previous p visited accepted e, x)
    | inr (w, e) ↦ elim (walk-pass n previous p visited accepted w e) [
      | inl (later, fit, next) ↦
          let less = winner-newer p previous cs w e later in
          λ x.
            walk-enough n w.comment_id (some w.sha256) (p ∷ visited) (accept w accepted)
              (omega arith) (sym next ∙ x)
      | inr (f, other, stop) ↦ λ x. other (cc (stop, x))
    ]
  ]

-- Valid requests, newest first, all older than a bound.
abbrev pub IsChain : ℕ → List Candidate → Type 0
IsChain n [] = Unit
IsChain n (c ∷ rest) = (c.comment_id < n) × (is_valid c ≡ true) × IsChain c.comment_id rest

IsChain-weaken : (m n : ℕ) (cs : List Candidate) → m ≤ n → IsChain m cs → IsChain n cs
IsChain-weaken m n [] h v = tt
IsChain-weaken m n (c ∷ cs) h v = (omega arith, v.1, v.2)

accept-IsChain :
    (previous : ℕ) (w : Candidate) (accepted : List Candidate)
    → previous < w.comment_id
    → IsChain (suc previous) accepted
    → IsChain (suc w.comment_id) (accept w accepted)
accept-IsChain previous w accepted h v = elim (Bool-cases (is_valid w)) [
  | inl e ↦
      rw e (omega arith, e, IsChain-weaken (suc previous) w.comment_id accepted (omega arith) v)
  | inr e ↦ rw e (IsChain-weaken (suc previous) (suc w.comment_id) accepted (omega arith) v)
]

-- The end of the walk: nothing was accepted, or no candidate supersedes what was accepted last.
abbrev pub Unsuperseded : List Candidate → List Candidate → Type 0
Unsuperseded cs accepted =
    (accepted ≡ [])
    ⊎ ((w : Candidate) × (rest : List Candidate) × (accepted ≡ w ∷ rest)
        × (winner (some w.sha256) cs ≡ none))

module _ (cs : List Candidate) (hashes : List String) where
  -- Where the walk stands: at the start, or behind a request that was accepted last or is bridged.
  abbrev Standing : Option String → List Candidate → Type 0
  Standing p accepted =
      ((p ≡ none) × (accepted ≡ []))
      ⊎ ((w : Candidate) × (p ≡ some w.sha256)
          × (((rest : List Candidate) × (accepted ≡ w ∷ rest)) ⊎ (elem w.sha256 hashes ≡ true)))

  accept-Standing :
      (w : Candidate) (accepted : List Candidate)
      → (is_valid w || elem w.sha256 hashes) ≡ true
      → Standing (some w.sha256) (accept w accepted)
  accept-Standing w accepted fit = elim (Bool-cases (is_valid w)) [
    | inl e ↦ rw e (inr (w, refl, inl (accepted, refl)))
    | inr e ↦ rw e (inr (w, refl, inr (ground arith)))
  ]

  stop-Unsuperseded :
      (p : Option String) (accepted : List Candidate)
      → ((sha : String) → elem sha hashes ≡ true → winner (some sha) cs ≢ none)
      → Standing p accepted
      → winner p cs ≡ none
      → Unsuperseded cs accepted
  stop-Unsuperseded p accepted bridged (inl (_, e)) stop = inl e
  stop-Unsuperseded p accepted bridged (inr (w, e, inl (rest, e'))) stop =
      inr (w, rest, e', subst (λ q. winner q cs ≡ none) e stop)
  stop-Unsuperseded p accepted bridged (inr (w, e, inr known)) stop =
      absurd (bridged w.sha256 known (subst (λ q. winner q cs ≡ none) e stop))

  pub walk-Lineage :
      (n previous : ℕ) (p : Option String) (visited : List (Option String))
      (accepted : List Candidate) (r : List (Option String) × List Candidate)
      → ((sha : String) → elem sha hashes ≡ true → winner (some sha) cs ≢ none)
      → walk n cs hashes previous p visited accepted ≡ inr r
      → Standing p accepted
      → IsChain (suc previous) accepted
      → Unsuperseded cs r.1 × ((m : ℕ) × IsChain m r.1)
  unfolding walk
  walk-Lineage zero previous p visited accepted r bridged h st ch = cc
  walk-Lineage (suc n) previous p visited accepted r bridged h st ch =
      elim (Option-cases (winner p cs)) [
        | inl e ↦
            let same : ◌≡◌ {A = List (Option String) × List Candidate} (visited, accepted) r =
              cc (walk-stop cs hashes n previous p visited accepted e, h) in
            subst (λ x. Unsuperseded cs x.1 × ((m : ℕ) × IsChain m x.1)) same
              (stop-Unsuperseded p accepted bridged st e, (suc previous, ch))
        | inr (w, e) ↦ elim (walk-pass cs hashes n previous p visited accepted w e) [
          | inl (later, fit, next) ↦
              walk-Lineage n w.comment_id (some w.sha256) (p ∷ visited) (accept w accepted) r
                bridged (sym next ∙ h) (accept-Standing w accepted fit)
                (accept-IsChain previous w accepted later ch)
          | inr (f, other, stop) ↦ cc (stop, h)
        ]
      ]
