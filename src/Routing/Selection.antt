-- ===== src/Routing/Selection.antt =====
-- What the mission router selects (config/router.py).
use multiverse_research.Prelude.{
  ◌≡◌, refl, String, Bool, true, false, none, some, List, [], ◌∷◌, All, All-filterb, IsIn, IsIn-All,
  Bool-cases, Option-cases, some-inj, subst, inl, inr, ap, elem, string_eq, filterb, sym, ◌∙◌,
}
use multiverse_research.Routing.Registry.{
  CapabilityRecord, RoutingRequest, qualifies, precedes, place, sorted, eligible, Provider,
  get_provider, executable, first_executable, select,
}

module _ {κ} (text_lt : String → String → Bool) (P : CapabilityRecord → Type κ) where
  place-All :
      (r : CapabilityRecord) (rs : List CapabilityRecord)
      → P r
      → All P rs
      → All P (place text_lt r rs)
  unfolding place
  place-All r [] p h = (p, tt)
  place-All r (s ∷ rs) p h = elim (Bool-cases (precedes text_lt s r)) [
    | inl e ↦ rw e (h.0, place-All r rs p h.1)
    | inr e ↦ rw e (p, h)
  ]

  place-All-back :
      (r : CapabilityRecord) (rs : List CapabilityRecord)
      → All P (place text_lt r rs)
      → P r × All P rs
  unfolding place
  place-All-back r [] h = h
  place-All-back r (s ∷ rs) h = elim (Bool-cases (precedes text_lt s r)) [
    | inl e ↦
        let (first, more) = rw e at h in
        let (p, rest) = place-All-back r rs more in (p, (first, rest))
    | inr e ↦ rw e at h
  ]

  sorted-All : (rs : List CapabilityRecord) → All P rs → All P (sorted text_lt rs)
  unfolding sorted
  sorted-All [] h = tt
  sorted-All (r ∷ rs) h = place-All r (sorted text_lt rs) h.0 (sorted-All rs h.1)

  sorted-All-back : (rs : List CapabilityRecord) → All P (sorted text_lt rs) → All P rs
  unfolding sorted
  sorted-All-back [] h = tt
  sorted-All-back (r ∷ rs) h =
      let (p, rest) = place-All-back r (sorted text_lt rs) h in (p, sorted-All-back rs rest)

executable-Local :
    (task : String) (ps : List Provider) (r : CapabilityRecord) (p : Provider)
    → executable task ps r ≡ some p
    → (get_provider r.provider_id ps ≡ some p)
      × (elem task p.capabilities ≡ true)
      × (p.external_calls ≡ false)
unfolding executable
executable-Local task ps r p h = elim (Option-cases (get_provider r.provider_id ps)) [
  | inl e ↦ cc (rw (e, executable) at h)
  | inr (x, e) ↦ elim (Bool-cases (elem task x.capabilities)) [
    | inr lacks ↦ cc (rw (e, executable, lacks) at h)
    | inl able ↦ elim (Bool-cases x.external_calls) [
      | inl calls ↦ cc (rw (e, executable, able, calls) at h)
      | inr local ↦
          let runs : executable task ps r ≡ some x = rw (e, executable, able, local) refl in
          subst
            (λ y.
              (get_provider r.provider_id ps ≡ some y)
              × (elem task y.capabilities ≡ true)
              × (y.external_calls ≡ false))
            (some-inj (sym runs ∙ h)) (e, able, local)
    ]
  ]
]

first_executable-All {κ} :
    (P : CapabilityRecord → Type κ) (task : String) (ps : List Provider)
    (rs : List CapabilityRecord) (p : Provider) (r : CapabilityRecord)
    → All P rs
    → first_executable task ps rs ≡ some (p, r)
    → P r × (executable task ps r ≡ some p)
unfolding first_executable
first_executable-All P task ps [] p r a h = cc
first_executable-All P task ps (s ∷ rs) p r a h = elim (Option-cases (executable task ps s)) [
  | inl e ↦ first_executable-All P task ps rs p r a.1 (rw (e, first_executable) at h)
  | inr (x, e) ↦
      let same = some-inj (rw (e, first_executable) at h) in
      (subst P (ap (λ y. y.1) same) a.0, subst (λ y. executable task ps y.1 ≡ some y.0) same e)
]

first_executable-none :
    (task : String) (ps : List Provider) (rs : List CapabilityRecord)
    → first_executable task ps rs ≡ none
    → All (λ r. executable task ps r ≡ none) rs
unfolding first_executable
first_executable-none task ps [] h = tt
first_executable-none task ps (s ∷ rs) h = elim (Option-cases (executable task ps s)) [
  | inl e ↦ (e, first_executable-none task ps rs (rw (e, first_executable) at h))
  | inr (x, e) ↦ cc (rw (e, first_executable) at h)
]

-- The router selects only a registered record that passes every filter of the request, with the
-- provider registered under the record's name, which has the task's capability and makes no
-- external calls.
pub select_is_local :
    (text_lt : String → String → Bool) (trusted : String → Bool) (ps : List Provider)
    (rs : List CapabilityRecord) (q : RoutingRequest) (p : Provider) (r : CapabilityRecord)
    → select text_lt trusted ps rs q ≡ some (p, r)
    → IsIn r rs
      × (qualifies trusted q r ≡ true)
      × (get_provider r.provider_id ps ≡ some p)
      × (elem q.task_type p.capabilities ≡ true)
      × (p.external_calls ≡ false)
unfolding select eligible
select_is_local text_lt trusted ps rs q p r h =
    let ((known, fit), runs) =
      first_executable-All _ q.task_type ps _ p r
        (sorted-All text_lt _ _ (All-filterb _ (qualifies trusted q) rs (IsIn-All rs))) h in
    let (named, able, local) = executable-Local q.task_type ps r p runs in
    (known, fit, named, able, local)

filterb-All-back {κ} :
    (P : CapabilityRecord → Type κ) (f : CapabilityRecord → Bool) (rs : List CapabilityRecord)
    → All P (filterb f rs)
    → All (λ r. f r ≡ true → P r) rs
filterb-All-back P f [] h = tt
filterb-All-back P f (r ∷ rs) h = elim (Bool-cases (f r)) [
  | inl e ↦ let (p, rest) = rw e at h in (λ _. p, filterb-All-back P f rs rest)
  | inr e ↦ (λ t. cc, filterb-All-back P f rs (rw e at h))
]

-- The router fails closed only when it must: if it selects nothing, every registered record that
-- passes the filters of the request lacks an executable provider.
pub select_fails_closed :
    (text_lt : String → String → Bool) (trusted : String → Bool) (ps : List Provider)
    (rs : List CapabilityRecord) (q : RoutingRequest)
    → select text_lt trusted ps rs q ≡ none
    → All (λ r. qualifies trusted q r ≡ true → executable q.task_type ps r ≡ none) rs
unfolding select eligible
select_fails_closed text_lt trusted ps rs q h =
    filterb-All-back _ (qualifies trusted q) rs
      (sorted-All-back text_lt _ _ (first_executable-none q.task_type ps _ h))
