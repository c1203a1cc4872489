-- ===== src/Review/Arbitration.antt =====
-- The arbitration of review requests (automation/review_dispatcher_v1/request_arbitration_v6.py).
-- A candidate has the fields of the request that the arbitration reads, beside the request and its
-- comment. A failed `require` is a fault.
use multiverse_research.Prelude.{
  ℕ, suc, zero, String, Bool, true, false, not, ◌&&◌, ◌||◌, Option, none, some, List, [], ◌∷◌,
  if◌then◌else◌, ◌==◌, string_eq, elem, length, any, all, filterb, find_first, ltb, ◌⊎◌, inl, inr,
}
use multiverse_research.Prelude.Value.{Fields}

pub record Candidate : Type 0 where
  pub comment_id : ℕ
  pub request_id : String
  pub supersedes : Option String
  pub sha256 : String
  pub validation_error : Option String
  pub request : Fields
  pub comment : Fields

pub data Fault : Type 0 where
  duplicate_exact_request_id : Fault
  historical_invalid_successor_count : Fault
  historical_invalid_successor_not_valid : Fault
  supersession_predecessor_cycle : Fault
  supersession_comment_order_invalid : Fault
  current_malformed_request_not_bridgeable : Fault
  orphaned_or_loser_derived_supersession : Fault
  no_exact_current_request : Fault
  out_of_fuel : Fault

abbrev pub is_valid : Candidate → Bool
is_valid c = elim c.validation_error [ none ↦ true | some _ ↦ false ]

abbrev pub same_predecessor : Option String → Option String → Bool
same_predecessor none none = true
same_predecessor (some s) (some t) = s == t
same_predecessor _ _ = false

-- `generations[predecessor][0]`: the first candidate with this predecessor.
abbrev pub winner : Option String → List Candidate → Option Candidate
winner p cs = find_first (λ c. same_predecessor c.supersedes p) cs

-- The loop that collects the request ids.
unfoldable pub has_duplicate : List String → List Candidate → Bool
has_duplicate seen [] = false
has_duplicate seen (c ∷ cs) = elem c.request_id seen || has_duplicate (c.request_id ∷ seen) cs

-- The later candidates that supersede a malformed one.
abbrev pub direct_successors : Candidate → List Candidate → List Candidate
direct_successors c cs =
    filterb (λ s. ltb c.comment_id s.comment_id && same_predecessor s.supersedes (some c.sha256)) cs

-- What one malformed candidate needs: a single later successor, and a valid one.
unfoldable pub bridge_fault : Candidate → List Candidate → Option Fault
bridge_fault c cs = elim (direct_successors c cs) [
  | [] ↦ some Fault.historical_invalid_successor_count
  | s ∷ more ↦ elim more [
    | [] ↦ if is_valid s then none else some Fault.historical_invalid_successor_not_valid
    | _ ∷ _ ↦ some Fault.historical_invalid_successor_count
  ]
]

-- The loop that fills `historical_bridge_hashes`; its first argument is all candidates.
unfoldable pub bridge_hashes : List Candidate → List Candidate → Fault ⊎ List String
bridge_hashes cs [] = inr []
bridge_hashes cs (c ∷ rest) =
    let others = bridge_hashes cs rest in
    if is_valid c then others else elim (bridge_fault c cs) [
      | some f ↦ inl f
      | none ↦ elim others [ inl f ↦ inl f | inr hashes ↦ inr (c.sha256 ∷ hashes) ]
    ]

abbrev pub visited_before : Option String → List (Option String) → Bool
visited_before p visited = any (same_predecessor p) visited

abbrev pub accept : Candidate → List Candidate → List Candidate
accept w accepted = if is_valid w then w ∷ accepted else accepted

-- The supersession loop, on fuel. `visited_predecessors` and `winning_predecessors` gain the same
-- predecessor in each pass that completes, so that one list stands for both; `accepted` has its
-- newest entry first, as the code leaves it after `reverse`.
unfoldable pub walk :
    ℕ
    → List Candidate
    → List String
    → ℕ
    → Option String
    → List (Option String)
    → List Candidate
    → Fault ⊎ (List (Option String) × List Candidate)
walk zero cs hashes previous p visited accepted = inl Fault.out_of_fuel
walk (suc n) cs hashes previous p visited accepted = elim (winner p cs) [
  | none ↦ inr (visited, accepted)
  | some w ↦
      let rest = walk n cs hashes w.comment_id (some w.sha256) (p ∷ visited) (accept w accepted) in
      if visited_before p visited
      then inl Fault.supersession_predecessor_cycle
      else if not (ltb previous w.comment_id)
      then inl Fault.supersession_comment_order_invalid
      else if is_valid w || elem w.sha256 hashes
      then rest
      else inl Fault.current_malformed_request_not_bridgeable
]

-- The check of every candidate against the winning predecessors.
abbrev pub conclude :
    List Candidate → Fault ⊎ (List (Option String) × List Candidate) → Fault ⊎ List Candidate
conclude cs (inl f) = inl f
conclude cs (inr (winning, accepted)) =
    if all (λ c. visited_before c.supersedes winning) cs
    then inr accepted
    else inl Fault.orphaned_or_loser_derived_supersession

-- `exact_current_owner_requests_v6`, from the candidates on; comment ids increase along the chain,
-- so that the candidates and one pass more are fuel enough.
unfoldable pub exact_current_owner_requests : List Candidate → Fault ⊎ List Candidate
exact_current_owner_requests cs =
    if has_duplicate [] cs
    then inl Fault.duplicate_exact_request_id
    else elim (bridge_hashes cs cs) [
      | inl f ↦ inl f
      | inr hashes ↦ conclude cs (walk (suc (length cs)) cs hashes 0 none [] [])
    ]

-- `latest_exact_current_owner_request_v6`
unfoldable pub latest_exact_current_owner_request : List Candidate → Fault ⊎ Candidate
latest_exact_current_owner_request cs = elim (exact_current_owner_requests cs) [
  | inl f ↦ inl f
  | inr accepted ↦ elim accepted [ [] ↦ inl Fault.no_exact_current_request | c ∷ _ ↦ inr c ]
]
