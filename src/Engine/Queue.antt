-- ===== src/Engine/Queue.antt =====
-- Which task `claim_next_task` hands out.
use multiverse_research.Prelude.{
  ℕ, ◌+◌, ◌≡◌, ◌≢◌, refl, String, true, false, Option, none, some, List, [], ◌∷◌, arith, inl, inr,
  Option-cases, Bool-cases, subst, All, All-map, filterb, some-inj,
}
use multiverse_research.Prelude.Value.{Value}
use multiverse_research.Prelude.Table.{select, HasUniqueKeys, select-update_self, select-update_ne}
use multiverse_research.Engine.States.{
  Result, ok, validated_worker_id, validated_lease_seconds, ◌>>=◌,
}
use multiverse_research.Engine.Store.{
  Task, Db, row_id, first_by_order, is_claimable, precedes, claim_next_task, write_claim,
  take_claim,
}
use multiverse_research.Engine.Lease.{queue-Offered}

precedes_asym : (r s : Task) → precedes r s ≡ true → precedes s r ≡ false
precedes_asym r s h = ground arith

precedes_cotrans :
    (r s t : Task) → precedes r s ≡ false → precedes s t ≡ false → precedes r t ≡ false
precedes_cotrans r s t h k = ground arith

precedes_irrefl : (r : Task) → precedes r r ≡ false
precedes_irrefl r = ground arith

-- No task of the list comes before r.
abbrev pub IsFirst : Task → List Task → Type 0
IsFirst r = All (λ s. precedes s r ≡ false)

first_by_order-none : (rs : List Task) → first_by_order rs ≡ none → rs ≡ []
unfolding first_by_order
first_by_order-none [] e = refl
first_by_order-none (x ∷ rs) e = ground arith

first_by_order-IsFirst : (rs : List Task) (r : Task) → first_by_order rs ≡ some r → IsFirst r rs
unfolding first_by_order
first_by_order-IsFirst [] r e = tt
first_by_order-IsFirst (x ∷ rs) r e = elim (Option-cases (first_by_order rs)) [
  | inl last ↦
      subst (λ y. IsFirst y (x ∷ rs)) (some-inj (rw (last, first_by_order) at e))
        (precedes_irrefl x, rw (first_by_order-none rs last) tt)
  | inr (b, more) ↦ elim (Bool-cases (precedes b x)) [
    | inl first ↦
        subst (λ y. IsFirst y (x ∷ rs)) (some-inj (rw (more, first_by_order, first) at e))
          (precedes_asym b x first, first_by_order-IsFirst rs b more)
    | inr after ↦
        subst (λ y. IsFirst y (x ∷ rs)) (some-inj (rw (more, first_by_order, after) at e))
          (
            precedes_irrefl x,
            All-map _ _ rs (λ s p. precedes_cotrans s b x p after)
                (first_by_order-IsFirst rs b more),
          )
  ]
]

-- What a successful call of the queue has done, by its answer.
abbrev pub Served : ℕ → String → ℕ → Db → Option String × Db → Type 0
Served now worker term db (none, db') = (filterb (is_claimable now) db.tasks ≡ []) × (db' ≡ db)
Served now worker term db (some k, db') =
    (r : Task) × (select row_id k db.tasks ≡ some r)
    × (is_claimable now r ≡ true)
    × IsFirst r (filterb (is_claimable now) db.tasks)
    × (select row_id k db'.tasks ≡ some (take_claim worker (now + term) now r))
    × ((j : String) → k ≢ j → select row_id j db'.tasks ≡ select row_id j db.tasks)

-- The queue answers nothing only when no task is claimable, and then changes nothing. Otherwise it
-- hands out a claimable task that no claimable task comes before (by higher priority, then earlier
-- creation), and that task's row then has the worker as owner, a generation one higher and a lease
-- of the asked term from now, while every other id finds the row that it found before.
pub claim_next_task-Served :
    (worker_id lease_seconds : Value) (worker : String) (term now : ℕ) (db : Db)
    (answer : Option String × Db)
    → HasUniqueKeys row_id db.tasks
    → validated_worker_id worker_id ≡ ok worker
    → validated_lease_seconds lease_seconds ≡ ok term
    → claim_next_task worker_id lease_seconds now db ≡ ok answer
    → Served now worker term db answer
unfolding claim_next_task write_claim ◌>>=◌
claim_next_task-Served worker_id lease_seconds worker term now db answer u w l h =
    elim (Option-cases (first_by_order (filterb (is_claimable now) db.tasks))) [
      | inl e ↦
          subst (Served now worker term db) (answered (rw (w, l, e) at h))
            (first_by_order-none _ e, refl)
      | inr (r, e) ↦
          let offered = queue-Offered now db.tasks r u e in
          subst (Served now worker term db) (answered (rw (w, l, e) at h)) (
            r,
            offered.0,
            offered.1,
            first_by_order-IsFirst _ r e,
            select-update_self row_id r.id (take_claim worker (now + term) now) (λ s. refl) db.tasks
                r offered.0,
            λ j other.
                select-update_ne row_id r.id (take_claim worker (now + term) now) (λ s. refl) j
                  db.tasks other,
          )
    ]
  where
    answered :
        {a b : Option String × Db} → ◌≡◌ {A = Result (Option String × Db)} (ok a) (ok b) → a ≡ b
    answered h = cc
